-- ===== src/Chat/Approvals.antt =====
-- internal/domain/chat/pending_approval.go and internal/adapter/postgres/pending_approval.go:
-- requests that another manager confirms, and their deletion by internal/adapter/postgres/retention.go.
-- A moment is a number.
pub mod Lifetime
use cs2_predictor.Base.{
  All, if◌then◌else◌, not, ◌≡◌, is_some, Option, any, Bool, List, String, inl, inr, refl,
  Bool-cases, ==_iff, ◌==◌, ◌∙◌, ◌∷◌, subst, arith, ℕ, none, ltb, true, [], ◌&&◌, some, false,
  find_first, map, ◌⊎◌, ◌||◌,
}

pub data ApprovalKind : Type 0 where
  approval_unsubscribe : ApprovalKind
  approval_disable_game : ApprovalKind

pub record PendingApproval : Type 0 where
  pub id : ℕ
  pub kind : ApprovalKind
  pub chat_id : ℕ
  pub event_id : Option ℕ
  pub subject : String
  pub requested_by : ℕ
  pub created_at : ℕ
  pub expires_at : ℕ
  pub self_confirmable : Bool

-- A row with its column resolved_at.
pub record ApprovalRow : Type 0 where
  pub request : PendingApproval
  pub resolved_at : Option ℕ

-- `!now.Before(p.ExpiresAt)`
unfoldable pub expired : PendingApproval → ℕ → Bool
expired p at = not (ltb at p.expires_at)

-- The INSERT, refused where the id is there.
unfoldable pub create_approval : PendingApproval → List ApprovalRow → List ApprovalRow × Bool
create_approval p rows =
    if any (λ row. row.request.id == p.id) rows
    then (rows, false)
    else (record { request = p; resolved_at = none } ∷ rows, true)

abbrev pub is_waiting : ℕ → ApprovalRow → Bool
is_waiting id row = (row.request.id == id) && not (is_some row.resolved_at)

abbrev pub request_of : Option ApprovalRow → Option PendingApproval
request_of none = none
request_of (some row) = some row.request

unfoldable pub find_approval : ℕ → List ApprovalRow → Option PendingApproval
find_approval id rows = request_of (find_first (is_waiting id) rows)

unfoldable pub resolve_approval : ℕ → ℕ → List ApprovalRow → List ApprovalRow
resolve_approval id at rows =
    map (λ row. if is_waiting id row then record row { resolved_at = some at } else row) rows

-- DeleteResolvedUnsubscribesBefore of the retention job.
abbrev pub is_resolved_before : ℕ → Option ℕ → Bool
is_resolved_before cutoff none = false
is_resolved_before cutoff (some at) = ltb at cutoff

unfoldable pub delete_resolved_before : ℕ → List ApprovalRow → List ApprovalRow
delete_resolved_before cutoff [] = []
delete_resolved_before cutoff (row ∷ rows) =
    let rest = delete_resolved_before cutoff rows in
    if is_resolved_before cutoff row.resolved_at then rest else row ∷ rest

-- What the database executes, one statement after the other.
pub data ApprovalAction : Type 0 where
  asks : PendingApproval → ApprovalAction
  resolves : ℕ → ℕ → ApprovalAction
  prunes : ℕ → ApprovalAction

unfoldable pub approve_act : ApprovalAction → List ApprovalRow → List ApprovalRow
approve_act (asks p) rows = (create_approval p rows).0
approve_act (resolves id at) rows = resolve_approval id at rows
approve_act (prunes cutoff) rows = delete_resolved_before cutoff rows

abbrev pub approve_all : List ApprovalAction → List ApprovalRow → List ApprovalRow
approve_all [] rows = rows
approve_all (action ∷ later) rows = approve_all later (approve_act action rows)
