-- ===== src/Enrichment/Similarity.antt =====
-- The similarity of two names: FuzzyNameScore of internal/domain/enrichment/team_match.go and
-- FuzzyNicknameScore of player_match.go. The distance counts code points, and the length it is held
-- against counts bytes.
pub mod Scores
use cs2_predictor.Base.{List, ◌/◌, if◌then◌else◌, ◌==◌, ltb, ℕ, ◌||◌, ◌*◌, ◌-◌}
use cs2_predictor.Enrichment.Names.{
  Unicode, is_empty_text, byte_length, normalize_team_name, normalize_nickname, strip_org_words,
}
use cs2_predictor.Base.Splits.{same_bytes}
use cs2_predictor.Enrichment.Distance.{levenshtein}

abbrev pub fuzzy_auto_accept_threshold : ℕ
fuzzy_auto_accept_threshold = 90

abbrev pub fuzzy_request_threshold : ℕ
fuzzy_request_threshold = 40

abbrev pub player_nickname_auto_accept_threshold : ℕ
player_nickname_auto_accept_threshold = 88

-- maxLen
abbrev pub max_len : List ℕ → List ℕ → ℕ
max_len na nb = if ltb (byte_length na) (byte_length nb) then byte_length nb else byte_length na

-- The score cannot be negative here: subtraction stops at 0, as the last test of the code does.
unfoldable pub ratio : ℕ → ℕ → ℕ
ratio dist longer = if longer == 0 then 0 else 100 - dist * 100 / longer

unfoldable pub score_of : List ℕ → List ℕ → ℕ
score_of na nb =
    if is_empty_text na || is_empty_text nb
    then 0
    else if same_bytes na nb
    then 100
    else ratio (levenshtein na nb) (max_len na nb)

-- What of a team's name is compared.
unfoldable pub comparable : Unicode → List ℕ → List ℕ
comparable u name = strip_org_words u (normalize_team_name u name)

unfoldable pub fuzzy_name_score : Unicode → List ℕ → List ℕ → ℕ
fuzzy_name_score u a b = score_of (comparable u a) (comparable u b)

unfoldable pub fuzzy_nickname_score : Unicode → List ℕ → List ℕ → ℕ
fuzzy_nickname_score u a b = score_of (normalize_nickname u a) (normalize_nickname u b)
