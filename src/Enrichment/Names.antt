-- ===== src/Enrichment/Names.antt =====
-- Names as lists of code points, and their normal forms. About internal/domain/enrichment/identity.go
-- and stripOrgWords of team_match.go. Case and white space are those of Go's unicode package, which
-- is a parameter.
use cs2_predictor.Base.{
  map, Bool, any, not, ltb, keep_if, false, ℕ, ◌+◌, true, bytes, ◌∷◌, List, [], if◌then◌else◌,
}
use cs2_predictor.Base.Splits.{add_front, new_part, join, same_bytes}
use mathlib.Core.List.{reverse}

pub record Unicode : Type 0 where
  pub lower : ℕ → ℕ
  pub is_space : ℕ → Bool

-- The bytes of a code point and of a valid text.
abbrev pub rune_width : ℕ → ℕ
rune_width c = if ltb c 128 then 1 else if ltb c 2048 then 2 else if ltb c 65536 then 3 else 4

abbrev pub byte_length : List ℕ → ℕ
byte_length [] = 0
byte_length (c ∷ l) = rune_width c + byte_length l

abbrev pub is_empty_text : List ℕ → Bool
is_empty_text [] = true
is_empty_text (c ∷ l) = false

-- strings.Fields and strings.Join
abbrev pub split_spaces : Unicode → List ℕ → List ℕ × List (List ℕ)
split_spaces u [] = ([], [])
split_spaces u (c ∷ l) =
    let rest = split_spaces u l in if u.is_space c then new_part rest else add_front c rest

unfoldable pub fields : Unicode → List ℕ → List (List ℕ)
fields u l = keep_if (λ w. not (is_empty_text w)) ((split_spaces u l).0 ∷ (split_spaces u l).1)

abbrev pub join_words : List (List ℕ) → List ℕ
join_words [] = []
join_words (w ∷ ws) = join b' ' w ws

-- strings.TrimSpace
abbrev pub drop_spaces : Unicode → List ℕ → List ℕ
drop_spaces u [] = []
drop_spaces u (c ∷ l) = let rest = drop_spaces u l in if u.is_space c then rest else c ∷ l

unfoldable pub trim_space : Unicode → List ℕ → List ℕ
trim_space u l = reverse (drop_spaces u (reverse (drop_spaces u l)))

unfoldable pub normalize_team_name : Unicode → List ℕ → List ℕ
normalize_team_name u name = join_words (fields u (map u.lower name))

unfoldable pub normalize_player_name : Unicode → List ℕ → List ℕ
normalize_player_name u name = map u.lower (trim_space u name)

unfoldable pub normalize_nickname : Unicode → List ℕ → List ℕ
normalize_nickname u name = normalize_player_name u name

abbrev pub org_words : List (List ℕ)
org_words =
    bytes "team"
    ∷ bytes "esports"
    ∷ bytes "esport"
    ∷ bytes "gaming"
    ∷ bytes "club"
    ∷ bytes "e-sports"
    ∷ []

abbrev pub is_org_word : List ℕ → Bool
is_org_word w = any (same_bytes w) org_words

-- Where every word is such a word, the name stays as it is.
abbrev pub joined_or : List ℕ → List (List ℕ) → List ℕ
joined_or normalized [] = normalized
joined_or normalized (w ∷ ws) = join_words (w ∷ ws)

unfoldable pub strip_org_words : Unicode → List ℕ → List ℕ
strip_org_words u normalized =
    joined_or normalized (keep_if (λ w. not (is_org_word w)) (fields u normalized))
