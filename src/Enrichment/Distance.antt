-- ===== src/Enrichment/Distance.antt =====
-- `levenshtein` of internal/domain/enrichment/team_match.go: two rolling rows over the shorter name.
pub mod Edits
pub mod Rows
use cs2_predictor.Base.{length, ◌∷◌, List, suc, if◌then◌else◌, ltb, ℕ, zero, ◌+◌, ◌==◌, []}

-- del, ins and sub, in the order of the tests.
abbrev pub least : ℕ → ℕ → ℕ → ℕ
least del ins sub = let m = if ltb ins del then ins else del in if ltb sub m then sub else m

abbrev pub cost : ℕ → ℕ → ℕ
cost x y = if x == y then 0 else 1

-- curr[i] for each letter of the shorter name, from curr[i - 1], and prev from its index i - 1 on. A
-- previous row is one longer than the letters before, so the second and third clauses are not met.
unfoldable pub fill : ℕ → List ℕ → ℕ → List ℕ → List ℕ
fill c [] before prev = []
fill c (x ∷ w) before [] = []
fill c (x ∷ w) before (diag ∷ []) = []
fill c (x ∷ w) before (diag ∷ up ∷ prev) =
    let v = least (up + 1) (before + 1) (diag + cost x c) in v ∷ fill c w v (up ∷ prev)

unfoldable pub run_rows : List ℕ → List ℕ → ℕ → List ℕ → List ℕ
run_rows w [] j prev = prev
run_rows w (c ∷ rest) j prev = run_rows w rest (suc j) (j ∷ fill c w j prev)

-- prev[i] = i
abbrev pub count_up : ℕ → ℕ → List ℕ
count_up k zero = k ∷ []
count_up k (suc n) = k ∷ count_up (suc k) n

abbrev pub entry : List ℕ → ℕ → ℕ
entry [] i = 0
entry (v ∷ row) zero = v
entry (v ∷ row) (suc i) = entry row i

unfoldable pub distance_of : List ℕ → List ℕ → ℕ
distance_of w other = entry (run_rows w other 1 (count_up 0 (length w))) (length w)

-- `ra` is the shorter of the two.
unfoldable pub levenshtein : List ℕ → List ℕ → ℕ
levenshtein a b = if ltb (length b) (length a) then distance_of b a else distance_of a b
