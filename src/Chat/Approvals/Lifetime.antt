-- ===== src/Chat/Approvals/Lifetime.antt =====
-- How long a request for approval is found.
use mathlib.Core.Option.{none-ne-some}
use cs2_predictor.Base.{
  [], Bool-cases, some, Option, ◌∷◌, find_first, refl, is_some, inr, ==_iff, none, arith, ap,
  ==_refl, List, ◌==◌, false, true, All, inl, ◌≡◌, ℕ, any, subst,
}
use cs2_predictor.Chat.Approvals.{
  resolve_approval, is_resolved_before, resolves, asks, approve_all, is_waiting, approve_act,
  find_approval, request_of, ApprovalRow, create_approval, prunes, ApprovalAction,
  delete_resolved_before, PendingApproval,
}

abbrev pub AsksFor : ℕ → ApprovalAction → Type 0
AsksFor id (asks p) = p.id ≡ id
AsksFor id (resolves other at) = ⊥
AsksFor id (prunes cutoff) = ⊥

abbrev pub Resolves : ℕ → ApprovalAction → Type 0
Resolves id (asks p) = ⊥
Resolves id (resolves other at) = other ≡ id
Resolves id (prunes cutoff) = ⊥

abbrev IsDone : ℕ → List ApprovalRow → Type 0
IsDone id = All (λ row. is_waiting id row ≡ false)

abbrev IsFound : ℕ → PendingApproval → List ApprovalRow → Type 0
IsFound id p rows = request_of (find_first (is_waiting id) rows) ≡ some p

find_first-none :
    (id : ℕ) (rows : List ApprovalRow)
    → All (λ row. is_waiting id row ≡ false) rows
    → find_first (is_waiting id) rows ≡ none
find_first-none id [] h = refl
find_first-none id (row ∷ rows) h = rw h.0 (find_first-none id rows h.1)

resolve-still :
    (id other at : ℕ) (rows : List ApprovalRow)
    → IsDone id rows
    → IsDone id (resolve_approval other at rows)
unfolding resolve_approval
resolve-still id other at [] h = tt
resolve-still id other at (row ∷ rows) h = elim (Bool-cases (is_waiting other row)) [
  | inl e ↦ rw e (ground arith, resolve-still id other at rows h.1)
  | inr e ↦ rw e (h.0, resolve-still id other at rows h.1)
]

resolve_approval-IsDone :
    (id at : ℕ) (rows : List ApprovalRow) → IsDone id (resolve_approval id at rows)
unfolding resolve_approval
resolve_approval-IsDone id at [] = tt
resolve_approval-IsDone id at (row ∷ rows) = elim (Bool-cases (is_waiting id row)) [
  | inl e ↦ rw e (ground arith, resolve_approval-IsDone id at rows)
  | inr e ↦ rw e (e, resolve_approval-IsDone id at rows)
]

create-still :
    (id : ℕ) (p : PendingApproval) (rows : List ApprovalRow)
    → ¬ (p.id ≡ id)
    → IsDone id rows
    → IsDone id (create_approval p rows).0
unfolding create_approval
create-still id p rows other h = elim (Bool-cases (any (λ row. row.request.id == p.id) rows)) [
  | inl e ↦ rw e h
  | inr e ↦ rw e (apart, h)
]
  where
    apart : is_waiting id (record { request = p; resolved_at = none }) ≡ false
    apart = ground arith

prune-still :
    (id cutoff : ℕ) (rows : List ApprovalRow)
    → IsDone id rows
    → IsDone id (delete_resolved_before cutoff rows)
unfolding delete_resolved_before
prune-still id cutoff [] h = tt
prune-still id cutoff (row ∷ rows) h =
    elim (Bool-cases (is_resolved_before cutoff row.resolved_at)) [
      | inl e ↦ rw e (prune-still id cutoff rows h.1)
      | inr e ↦ rw e (h.0, prune-still id cutoff rows h.1)
    ]

all-IsDone :
    (id : ℕ) (actions : List ApprovalAction) (rows : List ApprovalRow)
    → All (λ a. ¬ (AsksFor id a)) actions
    → IsDone id rows
    → IsDone id (approve_all actions rows)
unfolding approve_act
all-IsDone id [] rows others h = h
all-IsDone id (asks p ∷ later) rows others h =
    all-IsDone id later _ others.1 (create-still id p rows others.0 h)
all-IsDone id (resolves other at ∷ later) rows others h =
    all-IsDone id later _ others.1 (resolve-still id other at rows h)
all-IsDone id (prunes cutoff ∷ later) rows others h =
    all-IsDone id later _ others.1 (prune-still id cutoff rows h)

-- A request that is found is there, so no other gets its id.
found-known :
    (id : ℕ) (p : PendingApproval) (rows : List ApprovalRow)
    → IsFound id p rows
    → any (λ row. row.request.id == id) rows ≡ true
found-known id p [] h = absurd (none-ne-some p h)
found-known id p (row ∷ rows) h = elim (Bool-cases (row.request.id == id)) [
  | inl e ↦ rw e refl
  | inr e ↦ rw e (found-known id p rows (rw e at h))
]

create-IsFound :
    (id : ℕ) (p q : PendingApproval) (rows : List ApprovalRow)
    → IsFound id p rows
    → IsFound id p (create_approval q rows).0
unfolding create_approval
create-IsFound id p q rows h = elim (Bool-cases (any (λ row. row.request.id == q.id) rows)) [
  | inl e ↦ rw e h
  | inr e ↦ rw e (behind e)
]
  where
    behind :
        any (λ row. row.request.id == q.id) rows ≡ false
        → IsFound id p (record { request = q; resolved_at = none } ∷ rows)
    behind e = elim (Bool-cases (q.id == id)) [
      | inl f ↦
          let unknown : any (λ row. row.request.id == id) rows ≡ false =
            subst (λ k. any (λ row. row.request.id == k) rows ≡ false) ((==_iff q.id id).0 f) e in
          cc (found-known id p rows h, unknown)
      | inr f ↦ rw f h
    ]

resolve-IsFound :
    (id other at : ℕ) (p : PendingApproval) (rows : List ApprovalRow)
    → ¬ (other ≡ id)
    → IsFound id p rows
    → IsFound id p (resolve_approval other at rows)
unfolding resolve_approval
resolve-IsFound id other at p [] apart h = h
resolve-IsFound id other at p (row ∷ rows) apart h = elim (Bool-cases (is_waiting other row)) [
  | inl e ↦
      let different : (row.request.id == id) ≡ false = ground arith in
      rw (e, different) (resolve-IsFound id other at p rows apart (rw different at h))
  | inr e ↦ elim (Bool-cases (is_waiting id row)) [
    | inl f ↦ rw (e, f) (rw f at h)
    | inr f ↦ rw (e, f) (resolve-IsFound id other at p rows apart (rw f at h))
  ]
]

prune-IsFound :
    (id cutoff : ℕ) (p : PendingApproval) (rows : List ApprovalRow)
    → IsFound id p rows
    → IsFound id p (delete_resolved_before cutoff rows)
unfolding delete_resolved_before
prune-IsFound id cutoff p [] h = h
prune-IsFound id cutoff p (row ∷ rows) h = elim (Bool-cases (is_waiting id row)) [
  | inr f ↦ elim (Bool-cases (is_resolved_before cutoff row.resolved_at)) [
    | inl e ↦ rw e (prune-IsFound id cutoff p rows (rw f at h))
    | inr e ↦ rw (e, f) (prune-IsFound id cutoff p rows (rw f at h))
  ]
  | inl f ↦ rw (stays row.resolved_at (ground arith), f) (rw f at h)
]
  where
    stays : (o : Option ℕ) → is_some o ≡ false → is_resolved_before cutoff o ≡ false
    stays none e = refl
    stays (some at) e = cc

all-IsFound :
    (id : ℕ) (p : PendingApproval) (actions : List ApprovalAction) (rows : List ApprovalRow)
    → All (λ a. ¬ (Resolves id a)) actions
    → IsFound id p rows
    → IsFound id p (approve_all actions rows)
unfolding approve_act
all-IsFound id p [] rows others h = h
all-IsFound id p (asks q ∷ later) rows others h =
    all-IsFound id p later _ others.1 (create-IsFound id p q rows h)
all-IsFound id p (resolves other at ∷ later) rows others h =
    all-IsFound id p later _ others.1 (resolve-IsFound id other at p rows others.0 h)
all-IsFound id p (prunes cutoff ∷ later) rows others h =
    all-IsFound id p later _ others.1 (prune-IsFound id cutoff p rows h)

-- A request is found, as it was asked, from its creation under a new id until it is resolved, whatever
-- else is created, resolved and deleted by retention, a second request with its id included; and once
-- it is resolved it is not found again, whatever is resolved, deleted and created later, as long as no
-- request is created with its id.
pub find_approval-resolve_approval :
    (p : PendingApproval) (at : ℕ) (rows : List ApprovalRow) (meanwhile later : List ApprovalAction)
    → any (λ row. row.request.id == p.id) rows ≡ false
    → All (λ a. ¬ (Resolves p.id a)) meanwhile
    → All (λ a. ¬ (AsksFor p.id a)) later
    → (find_approval p.id (approve_all meanwhile (create_approval p rows).0) ≡ some p)
      × (find_approval p.id (
            approve_all later
              (resolve_approval p.id at (approve_all meanwhile (create_approval p rows).0)))
          ≡ none)
unfolding find_approval create_approval
find_approval-resolve_approval p at rows meanwhile later new kept others = (
  all-IsFound p.id p meanwhile _ kept created,
  ap request_of (
      find_first-none p.id _ (
        all-IsDone p.id later _ others
          (resolve_approval-IsDone p.id at (approve_all meanwhile (create_approval p rows).0)))),
)
  where
    created : IsFound p.id p (create_approval p rows).0
    created = rw (new, ==_refl p.id) refl
