-- ===== src/Subscription/Entitled.antt =====
-- Exactly what a chat's subscriptions entitle it to see.
use cs2_predictor.Base.{
  [], not, false, subst, same_key, inr, ◌∷◌, refl, Bool, ◌&&◌, ◌≡◌, String, true, ◌++◌, any, inl,
  Bool-cases, same_key_eq, List, arith, ◌||◌, ap, same_key_refl, ◌∙◌, if◌then◌else◌,
}
use cs2_predictor.Subscription.Scope.{
  other_target, TargetKind, contains_id, target_player, resolve_chat_stats_scope,
  TargetSubscription, consider, admit, TournamentParticipants, ChatStatsScope, target_team,
  scope_from,
}
use cs2_predictor.Chat.Authorization.{listed}

contains_id-append :
    (xs ys : List String) (id : String)
    → contains_id (xs ++ ys) id ≡ (contains_id xs id || contains_id ys id)
unfolding contains_id
contains_id-append [] ys id = refl
contains_id-append (x ∷ xs) ys id = ground (arith, contains_id-append xs ys id)

one_id : (t id : String) → contains_id (t ∷ []) id ≡ same_key t id
unfolding contains_id
one_id t id = ground arith

-- Whether it is appended depends on two tests only.
admitted :
    (a b : Bool) (t : String) (listed : List String) (id : String)
    → contains_id (if a && not b then listed ++ t ∷ [] else listed) id
      ≡ (contains_id listed id || ((a && not b) && same_key t id))
admitted true true t listed id = ground arith
admitted true false t listed id =
    contains_id-append listed (t ∷ []) id ∙ ap (λ x. contains_id listed id || x) (one_id t id)
admitted false b t listed id = ground arith

admit-contains :
    (playing : List String) (t : String) (listed : List String) (id : String)
    → contains_id (admit playing t listed) id
      ≡ (contains_id listed id || (same_key t id && contains_id playing id))
unfolding admit
admit-contains playing t listed id =
    admitted (contains_id playing t) (contains_id listed t) t listed id
    ∙ elim (Bool-cases (same_key t id)) [
      | inl e ↦
          subst Same (same_key_eq t id e)
            (same (contains_id listed t) (contains_id playing t) (same_key_refl t))
      | inr e ↦ rw e (ground arith)
    ]
  where
    Same : String → Type 0
    Same n =
        (contains_id listed n
          || ((contains_id playing t && not (contains_id listed t)) && same_key t n))
        ≡ (contains_id listed n || (same_key t n && contains_id playing n))

    same : (a b : Bool) {k : Bool} → k ≡ true → (a || ((b && not a) && k)) ≡ (a || (k && b))
    same a b h = ground (arith, h)

-- An active subscription to this target, of the kind that the test accepts.
abbrev pub follows : (TargetKind → Bool) → List TargetSubscription → String → Bool
follows test ts id = any (λ t. t.active && (test t.kind && same_key t.target_id id)) ts

abbrev pub is_team : TargetKind → Bool
is_team target_team = true
is_team target_player = false
is_team (other_target k) = false

abbrev pub is_player : TargetKind → Bool
is_player target_team = false
is_player target_player = true
is_player (other_target k) = false

consider-contains :
    (p : TournamentParticipants) (k : TargetKind) (t : String) (s : ChatStatsScope) (id : String)
    → (contains_id (consider p k t s).scoped_teams id ≡ (
        contains_id s.scoped_teams id
        || (is_team k && (same_key t id && contains_id p.team_ids id))))
      × (contains_id (consider p k t s).scoped_players id ≡ (
          contains_id s.scoped_players id
          || (is_player k && (same_key t id && contains_id p.player_ids id))))
      × ((consider p k t s).full_tournament ≡ s.full_tournament)
unfolding consider
consider-contains p target_team t s id =
    (admit-contains p.team_ids t s.scoped_teams id, ground arith, refl)
consider-contains p target_player t s id =
    (ground arith, admit-contains p.player_ids t s.scoped_players id, refl)
consider-contains p (other_target k) t s id = (ground arith, ground arith, refl)

scope_from-contains :
    (p : TournamentParticipants) (ts : List TargetSubscription) (s : ChatStatsScope) (id : String)
    → (contains_id (scope_from p ts s).scoped_teams id
        ≡ (contains_id s.scoped_teams id || (follows is_team ts id && contains_id p.team_ids id)))
      × (contains_id (scope_from p ts s).scoped_players id ≡ (
          contains_id s.scoped_players id
          || (follows is_player ts id && contains_id p.player_ids id)))
      × ((scope_from p ts s).full_tournament ≡ s.full_tournament)
unfolding scope_from
scope_from-contains p [] s id = (ground arith, ground arith, refl)
scope_from-contains p (t ∷ ts) s id = elim (Bool-cases t.active) [
  | inl e ↦ rw e (
      ground (
        arith,
        consider-contains p t.kind t.target_id s id,
        scope_from-contains p ts (consider p t.kind t.target_id s) id,
      ))
  | inr e ↦ rw e (scope_from-contains p ts s id)
]

-- The full view exactly for a subscription to the tournament; otherwise a team or player is in the
-- scope exactly when it plays in the tournament and an active subscription of its kind names it.
pub resolve_chat_stats_scope-contains :
    (subscribed : Bool) (ts : List TargetSubscription) (p : TournamentParticipants) (id : String)
    → ((resolve_chat_stats_scope subscribed ts p).full_tournament ≡ subscribed)
      × (contains_id (resolve_chat_stats_scope subscribed ts p).scoped_teams id
          ≡ (not subscribed && (follows is_team ts id && contains_id p.team_ids id)))
      × (contains_id (resolve_chat_stats_scope subscribed ts p).scoped_players id
          ≡ (not subscribed && (follows is_player ts id && contains_id p.player_ids id)))
unfolding resolve_chat_stats_scope contains_id
resolve_chat_stats_scope-contains true ts p id = (refl, refl, refl)
resolve_chat_stats_scope-contains false ts p id =
    let both =
      scope_from-contains p ts
        (record { full_tournament = false; scoped_teams = []; scoped_players = [] }) id in
    (both.2, both.0, both.1)
