-- ===== src/Chat/Settings.antt =====
-- internal/domain/chat/chat.go: the games, the language and the quiet hours of a chat. The zone
-- and calendar of the time package are a parameter.
pub mod Quiet
use text.Mathlib.Text.{◌==◌ as str_eq}
use cs2_predictor.Competition.Catalog.{other_locale, ru, LocaleCode, en}
use cs2_predictor.Base.{
  ◌||◌, ◌∷◌, some, Option, is_some, ℕ, false, if◌then◌else◌, leb, not, [], Bool, List, ◌==◌, String,
  none, ltb, ◌&&◌, ◌+◌, ◌*◌,
}

pub record Settings : Type 0 where
  pub chat_id : ℕ
  pub title : String
  pub locale : LocaleCode
  pub timezone : String
  pub default_topic_id : Option ℕ
  pub active : Bool
  pub default_top_tier_only : Bool
  pub auto_subscribe_games : List String
  pub quiet_from_minute : Option ℕ
  pub quiet_to_minute : Option ℕ
  pub prefer_hltv_flags : Bool
  pub stream_language : LocaleCode
  pub enabled_games : List String

unfoldable pub lists_game : List String → String → Bool
lists_game [] game = false
lists_game (g ∷ gs) game = str_eq g game || lists_game gs game

unfoldable pub game_enabled : Settings → String → Bool
unfolding lists_game
game_enabled s game = lists_game s.enabled_games game

unfoldable pub auto_subscribes_to : Settings → String → Bool
unfolding game_enabled lists_game
auto_subscribes_to s game =
    if not (game_enabled s game) then false else lists_game s.auto_subscribe_games game

-- What the time package says of the chat's zone: the day and the minute of the day that the clock
-- shows at an instant, the instant of a day's midnight, and the same clock time on the next day
-- (AddDate). An instant is a number of nanoseconds.
pub record Zone : Type 0 where
  pub clock : ℕ → ℕ × ℕ
  pub midnight : ℕ → ℕ
  pub next_day : ℕ → ℕ

-- time.Minute
abbrev pub nanoseconds : ℕ → ℕ
nanoseconds minutes = minutes * 60000000000

-- The window while it is open: when it ends.
unfoldable pub window_end : Zone → ℕ → ℕ → ℕ × ℕ → Option ℕ
window_end zone from to (day, minute) =
    let end = zone.midnight day + nanoseconds to in
    if from == to
    then none
    else if ltb from to
    then if ltb minute from || leb to minute then none else some end
    else if ltb minute to
    then some end
    else if leb from minute
    then some (zone.next_day end)
    else none

unfoldable pub quiet_window : Zone → Option ℕ → Option ℕ → ℕ → Option ℕ
quiet_window zone none to now = none
quiet_window zone (some from) none now = none
quiet_window zone (some from) (some to) now = window_end zone from to (zone.clock now)

unfoldable pub quiet_hours_set : Settings → Bool
quiet_hours_set s = is_some s.quiet_from_minute && is_some s.quiet_to_minute

unfoldable pub quiet_until : Zone → Settings → ℕ → Option ℕ
quiet_until zone s now = quiet_window zone s.quiet_from_minute s.quiet_to_minute now

-- The language of the broadcasts, if it is one of the two, or else the chat's own.
unfoldable pub stream_locale_of : LocaleCode → LocaleCode → LocaleCode
stream_locale_of ru own = ru
stream_locale_of en own = en
stream_locale_of (other_locale l) own = own

unfoldable pub stream_locale : Settings → LocaleCode
unfolding stream_locale_of
stream_locale s = stream_locale_of s.stream_language s.locale
