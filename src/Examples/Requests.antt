-- ===== src/Examples/Requests.antt =====
-- Invitations and requests for approval.
use cs2_predictor.Chat.Approvals.{
  PendingApproval, approval_disable_game, find_approval, approve_all, asks, prunes, resolves,
  resolve_approval, create_approval,
}
use cs2_predictor.Chat.Approvals.Lifetime.{find_approval-resolve_approval}
use cs2_predictor.Chat.Spending.{revokes, uses, uses_of, uses_of_bound, creates}
use cs2_predictor.Base.{bytes, ◌≡◌, ◌≤◌, none, [], false, ◌∷◌, refl, some, arith}
use cs2_predictor.Chat.Invitations.{ModeratorInvitation}

abbrev link : ModeratorInvitation
link = record {
  token = "t";
  chat_id = 7;
  permissions = bytes "view_stats";
  created_by = 1;
  created_at = 100;
  expires_at = 900;
  used_at = none;
  used_by = none;
  revoked_at = none;
}

uses_of_bound_example :
    uses_of "t" (creates link ∷ uses "t" 5 200 ∷ uses "t" 6 201 ∷ revokes "t" 300 ∷ []) [] ≤ 1
uses_of_bound_example =
    uses_of_bound "t" (creates link ∷ uses "t" 5 200 ∷ uses "t" 6 201 ∷ revokes "t" 300 ∷ [])

abbrev wish : PendingApproval
wish = record {
  id = 4;
  kind = approval_disable_game;
  chat_id = 7;
  event_id = none;
  subject = "cs2";
  requested_by = 1;
  created_at = 100;
  expires_at = 900;
  self_confirmable = false;
}

find_approval-resolve_approval_example :
    (find_approval 4
        (approve_all (asks wish ∷ prunes 500 ∷ resolves 9 150 ∷ []) (create_approval wish []).0)
      ≡ some wish)
    × (find_approval 4 (
          approve_all (resolves 4 300 ∷ prunes 500 ∷ []) (
            resolve_approval 4 200 (
              approve_all
                (asks wish ∷ prunes 500 ∷ resolves 9 150 ∷ [])
                (create_approval wish []).0)))
        ≡ none)
find_approval-resolve_approval_example =
    find_approval-resolve_approval wish 200 [] (asks wish ∷ prunes 500 ∷ resolves 9 150 ∷ [])
      (resolves 4 300 ∷ prunes 500 ∷ []) refl
      (λ h. absurd h, (λ h. absurd h, (λ h. omega arith, tt))) (λ h. absurd h, (λ h. absurd h, tt))
