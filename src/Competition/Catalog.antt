-- ===== src/Competition/Catalog.antt =====
-- internal/domain/competition/competition.go: teams, events, matches and broadcasts, and
-- internal/platform/common/ids.go: locales. Ids are numbers, 0 for the zero UUID; a time is a
-- number of nanoseconds; a nil pointer is `none`.
pub mod Streams
use text.Mathlib.Text.{◌==◌ as str_eq}
use cs2_predictor.Base.{
  ℕ, String, Option, Bool, if◌then◌else◌, ◌&&◌, true, false, ◌||◌, not, some, leb, List, none,
}
use cs2_predictor.Competition.Series.{SeriesFormat, MatchScore}

pub data EventStatus : Type 0 where
  event_upcoming event_running event_finished event_cancelled : EventStatus
  other_event_status : String → EventStatus

pub data MatchStatus : Type 0 where
  match_not_started match_running match_finished match_postponed match_cancelled match_forfeit :
      MatchStatus
  other_match_status : String → MatchStatus

pub data EventTier : Type 0 where
  tier_s tier_a tier_b tier_c tier_d tier_unranked tier_unknown : EventTier
  other_tier : String → EventTier

pub record Team : Type 0 where
  pub id : ℕ
  pub name : String
  pub external_id : String
  pub logo_url : String
  pub hltv_logo_url : String
  pub location : String
  pub hltv_location : String

-- The first of three answers that is there: HLTV's if asked for, the provider's, HLTV's.
pick_source : Bool → String → String → String
pick_source prefer_hltv hltv provider =
    if prefer_hltv && not (str_eq hltv "")
    then hltv
    else if not (str_eq provider "")
    then provider
    else hltv

unfoldable pub logo_for : Team → Bool → String
unfolding pick_source
logo_for t prefer_hltv = pick_source prefer_hltv t.hltv_logo_url t.logo_url

unfoldable pub location_for : Team → Bool → String
unfolding pick_source
location_for t prefer_hltv = pick_source prefer_hltv t.hltv_location t.location

unfoldable pub is_top_tier : EventTier → Bool
is_top_tier tier_s = true
is_top_tier tier_a = true
is_top_tier _ = false

unfoldable pub badge : EventTier → String
badge tier_s = "🌟 "
badge tier_a = "⭐ "
badge tier_b = "🔹 "
badge _ = ""

pub record Event : Type 0 where
  pub id : ℕ
  pub game : String
  pub name : String
  pub external_id : String
  pub status : EventStatus
  pub starts_at : Option ℕ
  pub ends_at : Option ℕ
  pub provider : String
  pub tier : EventTier

is_over : EventStatus → Bool
is_over event_finished = true
is_over event_cancelled = true
is_over _ = false

has_ended : Option ℕ → ℕ → Bool
has_ended none now = false
has_ended (some ends_at) now = leb ends_at now

unfoldable pub is_subscribable : Event → ℕ → Bool
unfolding is_over has_ended
is_subscribable e now =
    if is_over e.status then false else if has_ended e.ends_at now then false else true

pub record Stream : Type 0 where
  pub language : String
  pub url : String
  pub main : Bool
  pub official : Bool

pub record Match : Type 0 where
  pub id : ℕ
  pub event_id : ℕ
  pub external_id : String
  pub first_team : Option Team
  pub second_team : Option Team
  pub stage : Option String
  pub scheduled_at : Option ℕ
  pub actual_started_at : Option ℕ
  pub status : MatchStatus
  pub format : SeriesFormat
  pub result : Option MatchScore
  pub stage_external_id : Option String
  pub streams : List Stream

is_known : Option Team → Bool
is_known none = false
is_known (some t) = true

unfoldable pub participants_known : Match → Bool
unfolding is_known
participants_known m = is_known m.first_team && is_known m.second_team

calls_off : MatchStatus → Bool
calls_off match_cancelled = true
calls_off match_forfeit = true
calls_off _ = false

unfoldable pub should_cancel_prediction : Match → Bool
unfolding calls_off
should_cancel_prediction m = calls_off m.status

pub data LocaleCode : Type 0 where
  ru en : LocaleCode
  other_locale : String → LocaleCode

unfoldable pub language_of : LocaleCode → String
language_of en = "en"
language_of ru = "ru"
language_of (other_locale l) = "ru"

unfoldable pub locale_from : String → LocaleCode
locale_from value =
    if str_eq value "EN" || str_eq value "en" || str_eq value "en-US" || str_eq value "en-us"
    then en
    else ru
