-- ===== src/Examples/Enrichments.antt =====
-- Examples of names, rosters and reviews.
use cs2_predictor.Base.{refl, arith, ◌≡◌, ℕ, bytes, List, [], ◌↔◌, ◌≤◌, ◌∷◌, false, some}
use cs2_predictor.Enrichment.Similarity.Scores.{score_of_reached, score_of_wide}
use cs2_predictor.Enrichment.Distance.{levenshtein, fill, distance_of, run_rows}
use cs2_predictor.Enrichment.Similarity.{score_of, ratio, fuzzy_nickname_score}
use cs2_predictor.Enrichment.Names.{
  is_empty_text, trim_space, fields, normalize_player_name, normalize_nickname, normalize_team_name,
}
use cs2_predictor.Enrichment.Distance.Edits.{Edits}
use cs2_predictor.Enrichment.Distance.Rows.{levenshtein_least}
use cs2_predictor.Enrichment.Identity.{
  overlap, confidence_roster, TeamCandidate, matched_by, confidence_fuzzy_name, by_roster,
  best_roster, match_team, TeamIdentity, match_roster_of, confidence_exact_name,
}
use cs2_predictor.Enrichment.Identity.Leaders.{IsLeader}
use cs2_predictor.Enrichment.Identity.Matching.{match_team-roster_iff, NoneNamed}
use cs2_predictor.Enrichment.Rosters.Pairing.{IsPairing, match_roster-IsPairing}
use cs2_predictor.Enrichment.Rosters.{
  RosterCandidate, first_free, fuzzy_pass, match_roster, fuzzy_round, take_slot, exact_pass,
  match_of, best_free, exact_round,
}
use cs2_predictor.Examples.Data.{ascii}

-- Two nicknames in Cyrillic that share no letter.
abbrev first_cyrillic : List ℕ
first_cyrillic = 1072 ∷ 1073 ∷ []

abbrev second_cyrillic : List ℕ
second_cyrillic = 1074 ∷ 1075 ∷ []

score_of_wide_example : 50 ≤ score_of first_cyrillic second_cyrillic
score_of_wide_example =
    score_of_wide first_cyrillic second_cyrillic refl refl (omega arith, (omega arith, tt))
      (omega arith, (omega arith, tt))

score_of_reached_example :
    (88 ≤ score_of (bytes "zywoo") (bytes "zywo0"))
    ↔ ((bytes "zywoo" ≡ bytes "zywo0") × (is_empty_text (bytes "zywoo") ≡ false))
score_of_reached_example =
    score_of_reached (bytes "zywoo") (bytes "zywo0") 88 (omega arith) (omega arith) (omega arith)

levenshtein_least_example :
    Edits (bytes "kitten") (bytes "sitting") (levenshtein (bytes "kitten") (bytes "sitting"))
    × ((n : ℕ)
        → Edits (bytes "kitten") (bytes "sitting") n
        → levenshtein (bytes "kitten") (bytes "sitting") ≤ n)
levenshtein_least_example = levenshtein_least (bytes "kitten") (bytes "sitting")

levenshtein_kitten : levenshtein (bytes "kitten") (bytes "sitting") ≡ 3
unfolding levenshtein distance_of run_rows fill
levenshtein_kitten = refl

-- Two teams, of which the second has the players that are reported.
abbrev listed_teams : List TeamCandidate
listed_teams =
    record {
      team_id = 1;
      name = bytes "Vitality";
      aliases = [];
      roster = bytes "apEX" ∷ bytes "flameZ" ∷ bytes "mezii" ∷ [];
    }
    ∷ record {
      team_id = 2;
      name = bytes "Spirit";
      aliases = [];
      roster = bytes "donk" ∷ bytes "sh1ro" ∷ bytes "zont1x" ∷ [];
    }
    ∷ []

abbrev reported_team : TeamIdentity
reported_team = record {
  name = bytes "TS";
  roster = bytes "Donk" ∷ bytes "sh1ro" ∷ bytes "zont1x" ∷ bytes "tN1R" ∷ [];
}

match_team-roster_iff_example :
    (match_team ascii listed_teams reported_team ≡ some (2, confidence_roster)) ↔ (
      (is_empty_text (normalize_team_name ascii reported_team.name) ≡ false)
      × NoneNamed ascii listed_teams (normalize_team_name ascii reported_team.name)
      × IsLeader ascii reported_team.roster listed_teams 2)
match_team-roster_iff_example = match_team-roster_iff ascii listed_teams reported_team 2

match_team_by_roster : match_team ascii listed_teams reported_team ≡ some (2, confidence_roster)
unfolding match_team match_roster_of best_roster by_roster overlap matched_by normalize_team_name
    normalize_player_name trim_space fields
match_team_by_roster = refl

abbrev two_players : List RosterCandidate
two_players =
    record { player_id = 1; nickname = bytes "s1mple" }
    ∷ record { player_id = 2; nickname = bytes "electronic" }
    ∷ []

abbrev two_nicknames : List (List ℕ)
two_nicknames = bytes "electronics" ∷ bytes "S1mple" ∷ bytes "b1t" ∷ []

match_roster-IsPairing_example :
    IsPairing ascii two_players two_nicknames (match_roster ascii two_players two_nicknames)
match_roster-IsPairing_example = match_roster-IsPairing ascii two_players two_nicknames

match_roster_two : match_roster ascii two_players two_nicknames ≡ (
  match_of confidence_exact_name
        (bytes "S1mple")
        (record { player_id = 1; nickname = bytes "s1mple" })
      ∷ match_of confidence_fuzzy_name
          (bytes "electronics")
          (record { player_id = 2; nickname = bytes "electronic" })
      ∷ [],
  bytes "b1t" ∷ [],
)
unfolding match_roster fuzzy_pass exact_pass fuzzy_round exact_round best_free first_free take_slot
    fuzzy_nickname_score normalize_nickname normalize_player_name trim_space score_of ratio
    levenshtein distance_of run_rows fill
match_roster_two = refl
