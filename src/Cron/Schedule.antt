-- ===== src/Cron/Schedule.antt =====
-- The next schedule times that schedule.go answers and stores.
use furiko.Prelude.{
  ℕ, ◌<◌, ◌^◌, pos, ◌≡◌, ap, sym, subst, ◌∙◌, true, false, not, ◌&&◌, ◌||◌, none, some, arith,
  ltb_ℤ, leb_ℤ, String, Option, if◌then◌else◌, eq_refl, ◌+ℤ◌, ◌-ℤ◌, wrap64,
}
use furiko.Ktime.{Time, is_zero, add, sub}
use furiko.Meta.{lookup, lookup-insert}
use furiko.Api.JobConfig.{JobConfig}
use furiko.Api.Config.{CronExecutionConfig}
use furiko.Cron.{
  ScheduleTimes, set_next_schedule_time, bump_next_schedule_time, get_next_schedule_time, not_after,
  not_before, last_updated, capped_next, search_from, max_downtime_threshold, back_to_last,
  up_to_last_updated, up_to_not_before,
}

-- What the cron library promises of Next: a later time, or the zero time if there is none.
abbrev pub IsNext : (Time → Time) → Type 0
IsNext next = (t : Time) → (is_zero (next t) || ltb_ℤ t (next t)) ≡ true

back_to_last-later :
    (now from_time last : Time) (threshold : ℕ)
    → threshold < 2 ^ 62
    → is_zero last ≡ false
    → leb_ℤ last (back_to_last (some last) now (pos threshold) from_time) ≡ true
unfolding back_to_last add sub wrap64 ◌+ℤ◌ ◌-ℤ◌
back_to_last-later now from_time last threshold small set = ground arith

up_to_last_updated-later :
    (last_updated : Option Time) (from_time : Time)
    → leb_ℤ from_time (up_to_last_updated last_updated from_time) ≡ true
unfolding up_to_last_updated
up_to_last_updated-later last_updated from_time = ground arith

up_to_not_before-later :
    (nbf : Option Time) (from_time : Time) → leb_ℤ from_time (up_to_not_before nbf from_time) ≡ true
unfolding up_to_not_before add ◌+ℤ◌
up_to_not_before-later none from_time = ground arith
up_to_not_before-later (some nbf) from_time = ground arith

-- Whatever is later than the raised time is not before NotBefore.
up_to_not_before-bound :
    (nbf from_time t : Time)
    → is_zero nbf ≡ false
    → ltb_ℤ (up_to_not_before (some nbf) from_time) t ≡ true
    → leb_ℤ nbf t ≡ true
unfolding up_to_not_before add ◌+ℤ◌
up_to_not_before-bound nbf from_time t set h = ground arith

lt_of_le_lt : (a b c : Time) → leb_ℤ a b ≡ true → ltb_ℤ b c ≡ true → ltb_ℤ a c ≡ true
lt_of_le_lt a b c h h' = ground arith

module _ (key : String) (next : Time → Time) (jc : JobConfig) where
  -- With NotAfter set, BumpNextScheduleTime answers the zero time or a time that is not after
  -- NotAfter.
  pub bump-not_after :
      (from_time naf : Time) (times : ScheduleTimes)
      → not_after key next jc ≡ some naf
      → is_zero naf ≡ false
      → (let t = (bump_next_schedule_time key next jc from_time times).0 in
          is_zero t || leb_ℤ t naf)
        ≡ true
  unfolding bump_next_schedule_time
  bump-not_after from_time naf times e set = ground arith

  pub set-lookup :
      (ts : Time) (times : ScheduleTimes)
      → lookup key (set_next_schedule_time key next jc ts times) ≡ (elim (lookup key times) [
        | none ↦ some ts
        | some prev ↦ some (if not (is_zero ts) && ltb_ℤ ts prev then prev else ts)
      ])
  unfolding set_next_schedule_time
  set-lookup ts times = ground (arith, lookup-insert key key ts times, eq_refl key)

  -- BumpNextScheduleTime replaces a stored time by the zero time or by one that is not earlier.
  pub bump-no_earlier :
      (from_time prev : Time) (times : ScheduleTimes)
      → lookup key times ≡ some prev
      → (t : Time) × (lookup key (bump_next_schedule_time key next jc from_time times).1 ≡ some t)
        × ((is_zero t || leb_ℤ prev t) ≡ true)
  unfolding bump_next_schedule_time
  bump-no_earlier from_time prev times e =
      let t = capped_next key next jc from_time in
      (
        if not (is_zero t) && ltb_ℤ t prev then prev else t,
        ground (arith, set-lookup t times),
        ground arith,
      )

  -- What GetNextScheduleTime answers is what is stored afterwards.
  pub get_next-stored :
      (cfg : Option CronExecutionConfig) (now from_time : Time) (times : ScheduleTimes)
      → let (t, times') = get_next_schedule_time key next jc cfg now from_time times in
        lookup key times' ≡ some t
  unfolding get_next_schedule_time bump_next_schedule_time
  get_next-stored cfg now from_time times = ground (
    arith,
    set-lookup (capped_next key next jc (search_from key next jc cfg now from_time)) times,
  )

  capped_next-later :
      (t : Time)
      → IsNext next
      → (is_zero (capped_next key next jc t) || ltb_ℤ t (capped_next key next jc t)) ≡ true
  capped_next-later t later = ground (arith, later t)

  search_from-after_last :
      (cfg : Option CronExecutionConfig) (now from_time last t : Time) (threshold : ℕ)
      → max_downtime_threshold key next jc cfg ≡ pos threshold
      → threshold < 2 ^ 62
      → jc.status.last_scheduled ≡ some last
      → is_zero last ≡ false
      → ltb_ℤ (search_from key next jc cfg now from_time) t ≡ true
      → ltb_ℤ last t ≡ true
  unfolding search_from
  search_from-after_last cfg now from_time last t threshold e small l set h =
      let b =
        back_to_last jc.status.last_scheduled now (max_downtime_threshold key next jc cfg)
          from_time in
      let u = up_to_last_updated (last_updated key next jc) b in
      let same =
        ap (λ o. back_to_last o now (max_downtime_threshold key next jc cfg) from_time) l
        ∙ ap (λ d. back_to_last (some last) now d from_time) e in
      lt_of_le_lt last b t
        (subst (λ c. leb_ℤ last c ≡ true) (sym same)
          (back_to_last-later now from_time last threshold small set))
        (lt_of_le_lt b u t (up_to_last_updated-later (last_updated key next jc) b) (
          lt_of_le_lt u (up_to_not_before (not_before key next jc) u) t
            (up_to_not_before-later (not_before key next jc) u) h))

  -- If the library's Next answers the zero time or later times, no time is stored, and the
  -- downtime threshold is less than 2^62 nanoseconds, GetNextScheduleTime answers the zero time or
  -- a time after the set last schedule in the status.
  pub get_next-after_last :
      (cfg : Option CronExecutionConfig) (now from_time last : Time) (threshold : ℕ)
      (times : ScheduleTimes)
      → IsNext next
      → lookup key times ≡ none
      → max_downtime_threshold key next jc cfg ≡ pos threshold
      → threshold < 2 ^ 62
      → jc.status.last_scheduled ≡ some last
      → is_zero last ≡ false
      → (let t = (get_next_schedule_time key next jc cfg now from_time times).0 in
          is_zero t || ltb_ℤ last t)
        ≡ true
  unfolding get_next_schedule_time bump_next_schedule_time
  get_next-after_last cfg now from_time last threshold times later empty e small l set =
      let s = search_from key next jc cfg now from_time in
      ground (
        arith,
        capped_next-later s later,
        search_from-after_last cfg now from_time last (capped_next key next jc s) threshold e small
            l set,
      )

  search_from-not_before :
      (cfg : Option CronExecutionConfig) (now from_time nbf t : Time)
      → not_before key next jc ≡ some nbf
      → is_zero nbf ≡ false
      → ltb_ℤ (search_from key next jc cfg now from_time) t ≡ true
      → leb_ℤ nbf t ≡ true
  unfolding search_from
  search_from-not_before cfg now from_time nbf t e set h =
      let u = up_to_last_updated (last_updated key next jc) (
        back_to_last jc.status.last_scheduled now (max_downtime_threshold key next jc cfg)
          from_time) in
      up_to_not_before-bound nbf u t set (subst (λ o. ltb_ℤ (up_to_not_before o u) t ≡ true) e h)

  -- If the library's Next answers the zero time or later times, no time is stored and NotBefore is
  -- set, GetNextScheduleTime answers the zero time or a time that is not before NotBefore.
  pub get_next-not_before :
      (cfg : Option CronExecutionConfig) (now from_time nbf : Time) (times : ScheduleTimes)
      → IsNext next
      → lookup key times ≡ none
      → not_before key next jc ≡ some nbf
      → is_zero nbf ≡ false
      → (let t = (get_next_schedule_time key next jc cfg now from_time times).0 in
          is_zero t || leb_ℤ nbf t)
        ≡ true
  unfolding get_next_schedule_time bump_next_schedule_time
  get_next-not_before cfg now from_time nbf times later empty e set =
      let s = search_from key next jc cfg now from_time in
      ground (
        arith,
        capped_next-later s later,
        search_from-not_before cfg now from_time nbf (capped_next key next jc s) e set,
      )
