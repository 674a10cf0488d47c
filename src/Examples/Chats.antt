-- ===== src/Examples/Chats.antt =====
-- Who may manage a chat: the theorems at concrete inputs.

-- 1 owns the chat, 2 is a moderator in it, 3 is a moderator who left.
use cs2_predictor.Competition.Catalog.{en}
use cs2_predictor.Chat.Settings.Quiet.{KeepsTime, since, IsReleased, quiet_until-IsReleased}
use cs2_predictor.Chat.Settings.{Settings, Zone, quiet_until, quiet_window, window_end}
use cs2_predictor.Chat.Authorization.{
  add, Answers, view_stats, require_manager, add_all, can_manage, is_plain_member, owner, runs_chat,
  listed, member, allow, MemberRole, other_managers, add_moderators,
}
use cs2_predictor.Base.{
  ◌≡◌, some, [], Distinct, ok, refl, ℕ, true, ◌&&◌, ◌==◌, ◌∷◌, not, if◌then◌else◌, contains, ◌||◌,
  is_some, arith, ltb, ◌%◌, ◌+◌, false, none, ◌/◌, ◌*◌,
}
use cs2_predictor.Chat.Managers.{is_yes, other_managers_ok}

abbrev role_of : ℕ → MemberRole
role_of u = if u == 1 then owner else if u == 2 then member else MemberRole.left

abbrev answers : Answers
answers = record {
  role = λ u. ok (role_of u);
  administrators = some (ok (1 ∷ []));
  is_moderator = λ u. ok true;
  list_moderators = ok (2 ∷ 3 ∷ []);
  moderator_permissions = λ u. ok (view_stats ∷ []);
}

manager : require_manager answers 2 ≡ ok tt
unfolding require_manager can_manage runs_chat is_plain_member allow
manager = refl

listed_others : other_managers answers 1 ≡ ok (2 ∷ [])
unfolding other_managers listed add_all add add_moderators can_manage runs_chat is_plain_member
listed_others = refl

admins_listed : listed answers answers.administrators ≡ ok (1 ∷ [])
unfolding listed
admins_listed = refl

other_managers_ok_example :
    Distinct (2 ∷ [])
    × ((u : ℕ)
        → contains (2 ∷ []) u ≡ (
            not (u == 1)
            && (contains (1 ∷ []) u || (contains (2 ∷ 3 ∷ []) u && is_yes (can_manage answers u)))))
other_managers_ok_example = other_managers_ok answers 1 admins_listed refl listed_others

-- Quiet from 23:00 to 08:00 in UTC; it is 23:30.
abbrev utc : Zone
utc = record {
  clock = λ t. (t / 86400000000000, t % 86400000000000 / 60000000000);
  midnight = λ day. day * 86400000000000;
  next_day = λ t. t + 86400000000000;
}

abbrev night_owls : Settings
night_owls = record {
  chat_id = 7;
  title = "CS2";
  locale = en;
  timezone = "UTC";
  default_topic_id = none;
  active = true;
  default_top_tier_only = false;
  auto_subscribe_games = [];
  quiet_from_minute = some 1380;
  quiet_to_minute = some 480;
  prefer_hltv_flags = false;
  stream_language = en;
  enabled_games = [];
}

-- 84600 seconds into the day 100.
abbrev half_past_eleven : ℕ
half_past_eleven = 8724600000000000

utc-KeepsTime : KeepsTime utc 480 half_past_eleven
utc-KeepsTime = record {
  within = omega arith;
  past_minute = 0;
  shown = refl;
  short = omega arith;
  ends = refl;
  shifted = refl;
  ends_tomorrow = refl;
}

quiet_until-IsReleased_example :
    (is_some (quiet_until utc night_owls half_past_eleven)
      ≡ ltb (since 1380 (utc.clock half_past_eleven).1) (since 1380 480))
    × IsReleased night_owls utc 480 half_past_eleven (quiet_until utc night_owls half_past_eleven)
quiet_until-IsReleased_example =
    quiet_until-IsReleased night_owls utc 1380 480 half_past_eleven refl refl (omega arith)
      (omega arith) utc-KeepsTime

held_overnight : quiet_until utc night_owls half_past_eleven ≡ some 8755200000000000
unfolding quiet_until quiet_window window_end
held_overnight = refl
