-- ===== src/Cron/CatchUp.antt =====
-- The loop of syncOne: which schedules it enqueues, and what it leaves to the next sync.
use furiko.Prelude.{
  ℕ, zero, suc, ◌+◌, ◌≤◌, ◌≡◌, refl, ap, ◌∙◌, Bool, true, false, not, ◌&&◌, ◌||◌, none, some, arith,
  ltb_ℤ, String, Option, List, [], ◌∷◌, length, any,
}
use furiko.Ktime.{Time, is_zero, after}
use furiko.Meta.{lookup}
use furiko.Api.JobConfig.{JobConfig}
use furiko.Api.Config.{CronExecutionConfig}
use furiko.Cron.{
  ScheduleTimes, bump_next_schedule_time, get_next_schedule_time, capped_next, Worker, SyncResult,
  caught_up, failed, catch_up,
}
use furiko.Cron.Schedule.{IsNext, get_next-stored, set-lookup}

-- A time that is not to be enqueued: no time, or a later one.
abbrev pub is_early : Time → String × Time → Bool
is_early now (key, t) = is_zero t || after t now

-- The outcome of a sync that met no error.
abbrev pub is_complete : SyncResult → Bool
is_complete (failed e) = false
is_complete _ = true

module _ (key : String) (next : Time → Time) (jc : JobConfig) (cfg : CronExecutionConfig)
    (now : Time) (enqueue_ok : Time → Bool) where
  -- The times of a worker that looked up its next schedule.
  abbrev found_next : Worker → Time × ScheduleTimes
  found_next w = get_next_schedule_time key next jc (some cfg) now now w.times

  -- The worker after its next schedule was enqueued.
  abbrev enqueue_next : Worker → Worker
  enqueue_next w = record {
    times = (bump_next_schedule_time key next jc (found_next w).0 (found_next w).1).1;
    enqueued = (key, (found_next w).0) ∷ w.enqueued;
  }

  -- A sync enqueues at most as many schedules as the limit of missed schedules says.
  pub catch_up-bound :
      (n : ℕ) (w : Worker)
      → length (catch_up key next jc cfg now enqueue_ok n w).1.enqueued ≤ n + length w.enqueued
  unfolding catch_up
  catch_up-bound zero w = omega arith
  catch_up-bound (suc n) w = ground (arith, catch_up-bound n (enqueue_next w))

  -- A sync that begins with no early time on the queue leaves none there: each time that it
  -- enqueues is set and not after the clock.
  pub catch_up-due :
      (n : ℕ) (w : Worker)
      → any (is_early now) w.enqueued ≡ false
      → any (is_early now) (catch_up key next jc cfg now enqueue_ok n w).1.enqueued ≡ false
  unfolding catch_up
  catch_up-due zero w e = e
  catch_up-due (suc n) w e = ground (arith, catch_up-due n (enqueue_next w))

  -- No time that is due is stored.
  abbrev pub is_settled : Option Time → Bool
  is_settled none = false
  is_settled (some t) = is_zero t || after t now

  bump_now-settled :
      (times : ScheduleTimes)
      → IsNext next
      → is_settled (lookup key (bump_next_schedule_time key next jc now times).1) ≡ true
  unfolding bump_next_schedule_time
  bump_now-settled times later =
      ground (arith, set-lookup key next jc (capped_next key next jc now) times, later now)

  get_next-settled :
      (w : Worker)
      → is_settled (some (found_next w).0) ≡ true
      → is_settled (lookup key (found_next w).1) ≡ true
  get_next-settled w h = ap is_settled (get_next-stored key next jc (some cfg) now now w.times) ∙ h

  -- If the library's Next answers later times, a sync that met no error leaves no time stored that
  -- is due.
  pub catch_up-settled :
      (n : ℕ) (w : Worker)
      → IsNext next
      → is_complete (catch_up key next jc cfg now enqueue_ok n w).0 ≡ true
      → is_settled (lookup key (catch_up key next jc cfg now enqueue_ok n w).1.times) ≡ true
  unfolding catch_up
  catch_up-settled zero w later e = bump_now-settled w.times later
  catch_up-settled (suc n) w later e =
      ground (arith, get_next-settled w, catch_up-settled n (enqueue_next w) later)

  catch_up_of_settled :
      (n : ℕ) (w : Worker)
      → is_settled (lookup key w.times) ≡ true
      → catch_up key next jc cfg now enqueue_ok (suc n) w ≡ (caught_up, w)
  unfolding catch_up get_next_schedule_time
  catch_up_of_settled n w h = ground arith

  -- If the library's Next answers the zero time or later times, a sync at the clock of a sync that
  -- met no error enqueues nothing and changes no stored time, where the limit of missed schedules
  -- is positive.
  pub catch_up-twice :
      (n m : ℕ) (w : Worker)
      → IsNext next
      → is_complete (catch_up key next jc cfg now enqueue_ok n w).0 ≡ true
      → catch_up key next jc cfg now enqueue_ok
          (suc m)
          (catch_up key next jc cfg now enqueue_ok n w).1
        ≡ (caught_up, (catch_up key next jc cfg now enqueue_ok n w).1)
  catch_up-twice n m w later e = catch_up_of_settled m _ (catch_up-settled n w later e)

  -- The time that was enqueued last.
  abbrev last_enqueued : List (String × Time) → Option Time
  last_enqueued [] = none
  last_enqueued ((k, t) ∷ queue) = some t

  abbrev is_before : Option Time → Time → Bool
  is_before none t = true
  is_before (some u) t = is_zero t || ltb_ℤ u t

  -- Each time is later than the one enqueued before it.
  abbrev ascends : List (String × Time) → Bool
  ascends [] = true
  ascends ((k, t) ∷ queue) = is_before (last_enqueued queue) t && ascends queue

  bump-later :
      (t : Time) (times : ScheduleTimes)
      → IsNext next
      → lookup key times ≡ some t
      → is_before
          (some t)
          (get_next_schedule_time key next jc
            (some cfg)
            now
            now
            (bump_next_schedule_time key next jc t times).1).0
        ≡ true
  unfolding bump_next_schedule_time get_next_schedule_time
  bump-later t times later e =
      ground (arith, set-lookup key next jc (capped_next key next jc t) times, later t)

  enqueue_next-before :
      (w : Worker)
      → IsNext next
      → is_before (some (found_next w).0) (found_next (enqueue_next w)).0 ≡ true
  enqueue_next-before w later =
      bump-later (found_next w).0 (found_next w).1 later
        (get_next-stored key next jc (some cfg) now now w.times)

  catch_up-ascends_from :
      (n : ℕ) (w : Worker)
      → IsNext next
      → is_before (last_enqueued w.enqueued) (found_next w).0 ≡ true
      → ascends w.enqueued ≡ true
      → ascends (catch_up key next jc cfg now enqueue_ok n w).1.enqueued ≡ true
  unfolding catch_up
  catch_up-ascends_from zero w later h up = up
  catch_up-ascends_from (suc n) w later h up =
      ground (arith, catch_up-ascends_from n (enqueue_next w) later (enqueue_next-before w later))

  -- Each time is set, not after the clock, and later than the one enqueued before it.
  abbrev is_after : Option Time → Time → Bool
  is_after none t = true
  is_after (some u) t = ltb_ℤ u t

  abbrev pub strictly_ascends : List (String × Time) → Bool
  strictly_ascends [] = true
  strictly_ascends ((k, t) ∷ queue) =
      not (is_zero t)
      && not (after t now)
      && is_after (last_enqueued queue) t
      && strictly_ascends queue

  strictly_ascends_of_due :
      (queue : List (String × Time))
      → ascends queue ≡ true
      → any (is_early now) queue ≡ false
      → strictly_ascends queue ≡ true
  strictly_ascends_of_due [] up due = refl
  strictly_ascends_of_due ((k, t) ∷ []) up due = ground arith
  strictly_ascends_of_due ((k, t) ∷ (k', u) ∷ queue) up due =
      ground (arith, strictly_ascends_of_due ((k', u) ∷ queue))

  -- If the library's Next answers the zero time or later times, a sync that begins with nothing
  -- enqueued enqueues schedules whose times are set, ascend, and are not after the clock.
  pub catch_up-ascends :
      (n : ℕ) (times : ScheduleTimes)
      → IsNext next
      → strictly_ascends
          (catch_up key next jc cfg now enqueue_ok n
            record { times = times; enqueued = [] }).1.enqueued
        ≡ true
  catch_up-ascends n times later =
      strictly_ascends_of_due
        (catch_up key next jc cfg now enqueue_ok n
          record { times = times; enqueued = [] }).1.enqueued
        (catch_up-ascends_from n record { times = times; enqueued = [] } later refl refl)
        (catch_up-due n record { times = times; enqueued = [] } refl)
