-- ===== src/Subscription/Scope.antt =====
-- internal/domain/subscription/scope.go and the target kinds of target.go.
use cs2_predictor.Base.{
  ◌||◌, [], ℕ, leb, true, ◌++◌, ◌&&◌, length, same_key, false, Bool, if◌then◌else◌, List, not, ◌∷◌,
  String,
}
use cs2_predictor.Chat.Authorization.{listed}

pub data TargetKind : Type 0 where
  target_team target_player : TargetKind
  other_target : String → TargetKind

pub record TargetSubscription : Type 0 where
  pub chat_id : ℕ
  pub kind : TargetKind
  pub target_id : String
  pub target_name : String
  pub subscribed_at : ℕ
  pub active : Bool

pub record TournamentParticipants : Type 0 where
  pub team_ids : List String
  pub player_ids : List String

pub record ChatStatsScope : Type 0 where
  pub full_tournament : Bool
  pub scoped_teams : List String
  pub scoped_players : List String

unfoldable pub contains_id : List String → String → Bool
contains_id [] id = false
contains_id (v ∷ vs) id = same_key v id || contains_id vs id

unfoldable pub has_any_access : ChatStatsScope → Bool
has_any_access s =
    s.full_tournament || leb 1 (length s.scoped_teams) || leb 1 (length s.scoped_players)

-- `append` if the target plays and has not been seen; the ids seen are those in the list.
unfoldable pub admit : List String → String → List String → List String
unfolding contains_id
admit playing id listed =
    if contains_id playing id && not (contains_id listed id) then listed ++ id ∷ [] else listed

-- One round of the loop.
unfoldable pub consider :
    TournamentParticipants → TargetKind → String → ChatStatsScope → ChatStatsScope
unfolding admit
consider p target_team id s = record s { scoped_teams = admit p.team_ids id s.scoped_teams }
consider p target_player id s = record s { scoped_players = admit p.player_ids id s.scoped_players }
consider p (other_target k) id s = s

unfoldable pub scope_from :
    TournamentParticipants → List TargetSubscription → ChatStatsScope → ChatStatsScope
unfolding consider
scope_from p [] s = s
scope_from p (t ∷ ts) s = scope_from p ts (if t.active then consider p t.kind t.target_id s else s)

unfoldable pub resolve_chat_stats_scope :
    Bool → List TargetSubscription → TournamentParticipants → ChatStatsScope
unfolding scope_from
resolve_chat_stats_scope true targets p = record {
  full_tournament = true;
  scoped_teams = [];
  scoped_players = [];
}
resolve_chat_stats_scope false targets p =
    scope_from p targets
      (record { full_tournament = false; scoped_teams = []; scoped_players = [] })
