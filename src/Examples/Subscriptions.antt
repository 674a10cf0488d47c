-- ===== src/Examples/Subscriptions.antt =====
-- What a chat may see of a tournament: the theorem at a concrete input.
use cs2_predictor.Base.{String, ◌∷◌, false, not, ◌≡◌, ◌&&◌, [], true}
use cs2_predictor.Subscription.Entitled.{
  resolve_chat_stats_scope-contains, follows, is_player, is_team,
}
use cs2_predictor.Subscription.Scope.{
  resolve_chat_stats_scope, TargetSubscription, contains_id, TournamentParticipants, target_team,
}

abbrev follow_team : String → TargetSubscription
follow_team id = record {
  chat_id = 7;
  kind = target_team;
  target_id = id;
  target_name = "Spirit";
  subscribed_at = 10;
  active = true;
}

abbrev field : TournamentParticipants
field = record { team_ids = "spirit" ∷ "vitality" ∷ []; player_ids = "donk" ∷ [] }

resolve_chat_stats_scope-contains_example :
    ((resolve_chat_stats_scope false (follow_team "spirit" ∷ []) field).full_tournament ≡ false)
    × (contains_id
          (resolve_chat_stats_scope false (follow_team "spirit" ∷ []) field).scoped_teams
          "spirit"
        ≡ (not false
            && (follows is_team (follow_team "spirit" ∷ []) "spirit"
                && contains_id field.team_ids "spirit")))
    × (contains_id
          (resolve_chat_stats_scope false (follow_team "spirit" ∷ []) field).scoped_players
          "spirit"
        ≡ (not false
            && (follows is_player (follow_team "spirit" ∷ []) "spirit"
                && contains_id field.player_ids "spirit")))
resolve_chat_stats_scope-contains_example =
    resolve_chat_stats_scope-contains false (follow_team "spirit" ∷ []) field "spirit"
