-- ===== src/Chat/Settings/Quiet.antt =====
-- When a message is held, and for how long.

-- How far the clock has gone round from one minute of the day to another.
use cs2_predictor.Chat.Settings.{nanoseconds, window_end, quiet_window, quiet_until, Zone, Settings}
use cs2_predictor.Base.{
  ◌+◌, leb, ◌-◌, ◌≤◌, ◌≡◌, ltb, Option, is_some, if◌then◌else◌, ℕ, none, ◌<◌, arith, some, ◌⊎◌, ap,
  ◌∙◌, inr, subst, inl, sym,
}

abbrev pub since : ℕ → ℕ → ℕ
since from minute = if leb from minute then minute - from else 1440 + minute - from

-- Between the midnight before this instant and the window's end, today's and tomorrow's, the zone
-- does not put its clock forward or back.
pub record KeepsTime (zone : Zone) (to now : ℕ) : Type 0 where
  pub within : (zone.clock now).1 < 1440
  pub past_minute : ℕ
  pub shown : now ≡ zone.midnight (zone.clock now).0 + nanoseconds (zone.clock now).1 + past_minute
  pub short : past_minute < nanoseconds 1
  pub ends :
      zone.clock (zone.midnight (zone.clock now).0 + nanoseconds to) ≡ ((zone.clock now).0, to)
  pub shifted :
      zone.next_day (zone.midnight (zone.clock now).0 + nanoseconds to)
      ≡ zone.midnight (zone.clock now).0 + nanoseconds (1440 + to)
  pub ends_tomorrow :
      zone.clock (zone.midnight (zone.clock now).0 + nanoseconds (1440 + to))
      ≡ ((zone.clock now).0 + 1, to)

-- The answer where a message is held: it is later than now, at most a day away, the clock shows the
-- end of the window then, and no message is held then.
abbrev pub IsRelease : Settings → Zone → ℕ → ℕ → ℕ → Type 0
IsRelease s zone to now end =
    (now < end)
    × (end ≤ now + nanoseconds 1440)
    × ((zone.clock end).1 ≡ to)
    × (quiet_until zone s end ≡ none)

abbrev pub IsReleased : Settings → Zone → ℕ → ℕ → Option ℕ → Type 0
IsReleased s zone to now none = Unit {0}
IsReleased s zone to now (some end) = IsRelease s zone to now end

window_end-closed : (zone : Zone) (from to day : ℕ) → window_end zone from to (day, to) ≡ none
unfolding window_end
window_end-closed zone from to day = ground arith

-- No end, today's, or tomorrow's.
window_end-cases :
    (zone : Zone) (from to day minute : ℕ)
    → (window_end zone from to (day, minute) ≡ none)
      ⊎ (((window_end zone from to (day, minute) ≡ some (zone.midnight day + nanoseconds to))
            × (minute < to))
          ⊎ ((window_end zone from to (day, minute)
                ≡ some (zone.next_day (zone.midnight day + nanoseconds to)))
              × (to < minute)))
unfolding window_end
window_end-cases zone from to day minute = ground arith

window_end-held :
    (zone : Zone) (from to day minute : ℕ)
    → from < 1440
    → to < 1440
    → minute < 1440
    → is_some (window_end zone from to (day, minute)) ≡ ltb (since from minute) (since from to)
unfolding window_end
window_end-held zone from to day minute f t m = ground arith

-- For a chat with quiet hours, at minutes of a day, where the zone does not put its clock forward or
-- back before the window ends: a message is held exactly while the clock is inside the window, counted
-- round the clock from its beginning, so that a window over midnight is one window; and it is held
-- until the clock shows the window's end, within a day, when no message is held.
pub quiet_until-IsReleased :
    (s : Settings) (zone : Zone) (from to now : ℕ)
    → s.quiet_from_minute ≡ some from
    → s.quiet_to_minute ≡ some to
    → from < 1440
    → to < 1440
    → KeepsTime zone to now
    → (is_some (quiet_until zone s now) ≡ ltb (since from (zone.clock now).1) (since from to))
      × IsReleased s zone to now (quiet_until zone s now)
unfolding quiet_until quiet_window
quiet_until-IsReleased s zone from to now e f low high plain = (
  rw (e, f)
      (window_end-held zone from to (zone.clock now).0 (zone.clock now).1 low high plain.within),
  released (window_end-cases zone from to (zone.clock now).0 (zone.clock now).1),
)
  where
    day : ℕ
    day = (zone.clock now).0

    ended :
        (end d : ℕ)
        → zone.clock end ≡ (d, to)
        → now < end
        → end ≤ now + nanoseconds 1440
        → IsRelease s zone to now end
    ended end d shows after soon =
        (after, soon, ap (λ x. x.1) shows, rw (e, f, shows) (window_end-closed zone from to d))

    is_end :
        (end : ℕ)
        → window_end zone from to (zone.clock now) ≡ some end
        → some end ≡ quiet_until zone s now
    is_end end h = rw (e, f) (sym h)

    released :
        (window_end zone from to (zone.clock now) ≡ none)
          ⊎ (((window_end zone from to (zone.clock now) ≡ some (zone.midnight day + nanoseconds to))
                × ((zone.clock now).1 < to))
              ⊎ ((window_end zone from to (zone.clock now)
                    ≡ some (zone.next_day (zone.midnight day + nanoseconds to)))
                  × (to < (zone.clock now).1)))
        → IsReleased s zone to now (quiet_until zone s now)
    released (inl h) = rw (e, f, h) tt
    released (inr (inl h)) = subst (IsReleased s zone to now) (is_end _ h.0) (
        ended _ day plain.ends (omega (arith, plain.shown, plain.short, h.1))
          (omega (arith, plain.shown, high)))
    released (inr (inr h)) =
        subst (IsReleased s zone to now) (is_end _ (h.0 ∙ ap some plain.shifted)) (
          ended _ (day + 1) plain.ends_tomorrow
            (omega (arith, plain.shown, plain.short, plain.within))
            (omega (arith, plain.shown, h.1)))
