-- ===== src/PodTask/Kill.antt =====
-- podtaskexecutor/pod_task.go, SetKillTimestamp and SetKilledFromPendingTimeoutMarker: how a pod is
-- asked to end. `update` is the answer of the API server to an update, `none` an error.
use furiko.Prelude.{
  ℕ, zero, suc, ◌+◌, ◌-◌, ◌*◌, ◌/◌, ◌%◌, ◌^◌, ◌≤◌, ◌<◌, ℤ, pos, negsuc, Bool, true, ◌||◌, Option,
  none, some, ◌≡◌, refl, ◌*ℤ◌, ◌+ℤ◌, ◌-ℤ◌, if◌then◌else◌, leb, ltb_ℤ, leb_ℤ, eqb_ℤ, sub_ℕ, ◌≤ℤ◌,
  arith, IsInt64, Option-cases, inl, inr, eq_refl, false,
}
use furiko.Ktime.{
  Time, Duration, add, second, sub-add, add_parts, before, is_zero, nanoseconds_per_second, sub,
  unix, of_unix, is_time_set_and_earlier_than, unwrap_meta_v1_time, unix-of_unix,
}
use furiko.Decimal.{itoa, atoi, atoi-itoa, atoi-IsInt64}
use furiko.Meta.{lookup, insert, lookup-insert}
use furiko.Api.Meta.{label_key_task_kill_timestamp, label_key_killed_from_pending_timeout}
use furiko.Api.Pod.{Pod}
use furiko.PodTask.Status.{get_kill_timestamp}

-- The greatest power of two up to a number from 1 on; the fuel is enough up to 2^34, more seconds than
-- a duration has.
abbrev leading : ℕ → ℕ → ℕ → ℕ
leading zero sec p = p
leading (suc k) sec p = let rest = leading k sec (2 * p) in if leb (2 * p) sec then rest else p

-- `int64(d.Seconds())`. The sum of whole seconds and a fraction is a float64 of 53 bits; it rounds up
-- to the next second where the fraction is nearer to it than to the float64 before.
abbrev whole_seconds_of : ℕ → ℕ
whole_seconds_of n =
    let sec = n / nanoseconds_per_second in
    let nsec = n % nanoseconds_per_second in
    if leb ((nanoseconds_per_second - nsec) * 2 ^ 53) (nanoseconds_per_second * leading 34 sec 1)
    then sec + 1
    else sec

unfoldable whole_seconds : Duration → ℤ
whole_seconds (pos n) = pos (whole_seconds_of n)
whole_seconds (negsuc n) = sub_ℕ 0 (whole_seconds_of (suc n))

-- The time that is written: the earlier one if there is one.
unfoldable pub effective_kill : Pod → Time → Time
unfolding get_kill_timestamp is_time_set_and_earlier_than
effective_kill p ts =
    if is_time_set_and_earlier_than (get_kill_timestamp p) ts
    then unwrap_meta_v1_time (get_kill_timestamp p)
    else ts

abbrev deadline_from : Option Time → Time → ℤ
deadline_from none ts = pos 1
deadline_from (some start) ts = if before ts start then pos 1 else whole_seconds (sub ts start)

abbrev cap_deadline : Option ℤ → ℤ → ℤ
cap_deadline none ads = ads
cap_deadline (some previous) ads = if ltb_ℤ previous ads then previous else ads

abbrev at_least_one : ℤ → ℤ
at_least_one ads = if ltb_ℤ ads (pos 1) then pos 1 else ads

-- The pod that SetKillTimestamp sends.
unfoldable pub with_kill_timestamp : Pod → Time → Pod
unfolding effective_kill insert itoa unix sub whole_seconds
with_kill_timestamp p ts =
    let t = effective_kill p ts in
    record p {
      metadata = record (p.metadata) {
        annotations = insert label_key_task_kill_timestamp (itoa (unix t)) p.metadata.annotations;
      };
      spec = record (p.spec) {
        active_deadline_seconds = some (
            at_least_one
              (cap_deadline p.spec.active_deadline_seconds (deadline_from p.status.start_time t)));
      };
    }

unfoldable pub set_kill_timestamp : (Pod → Option Pod) → Pod → Time → Option Pod
unfolding with_kill_timestamp
set_kill_timestamp update p ts = update (with_kill_timestamp p ts)

unfoldable pub set_killed_from_pending_timeout_marker : (Pod → Option Pod) → Pod → Option Pod
unfolding insert
set_killed_from_pending_timeout_marker update p = update (record p {
  metadata = record (p.metadata) {
    annotations = insert label_key_killed_from_pending_timeout "1" p.metadata.annotations;
  };
})

-- At most a deadline that was set, or one second.
abbrev pub at_most_previous : Option ℤ → ℤ → Bool
at_most_previous none ads = true
at_most_previous (some previous) ads = leb_ℤ ads previous || eqb_ℤ ads (pos 1)

capped_bounds :
    (previous : Option ℤ) (d : ℤ)
    → (pos 1 ≤ℤ at_least_one (cap_deadline previous d))
      × (at_most_previous previous (at_least_one (cap_deadline previous d)) ≡ true)
capped_bounds none d = ground arith
capped_bounds (some previous) d = ground arith

-- SetKillTimestamp asks for an active deadline of one second or more, and for none above a
-- deadline of one second or more that was set before.
pub with_kill_timestamp-deadline :
    (p : Pod) (ts : Time)
    → (ads : ℤ) × ((with_kill_timestamp p ts).spec.active_deadline_seconds ≡ some ads)
      × (pos 1 ≤ℤ ads)
      × (at_most_previous p.spec.active_deadline_seconds ads ≡ true)
unfolding with_kill_timestamp
with_kill_timestamp-deadline p ts =
    let (one, previous) =
      capped_bounds p.spec.active_deadline_seconds
        (deadline_from p.status.start_time (effective_kill p ts)) in
    (_, refl, one, previous)

get_kill_timestamp-IsInt64 :
    (p : Pod) (t : Time) → get_kill_timestamp p ≡ some t → (s : ℤ) × (t ≡ of_unix s) × IsInt64 s
unfolding get_kill_timestamp
get_kill_timestamp-IsInt64 p t e =
    elim (Option-cases (lookup label_key_task_kill_timestamp p.metadata.annotations)) [
      | inl h ↦ absurd (ground arith)
      | inr (val, h) ↦ elim (Option-cases (atoi val)) [
        | inl h' ↦ absurd (ground arith)
        | inr (s, h') ↦ (s, ground arith, atoi-IsInt64 val s h')
      ]
    ]

-- An instant cut to whole seconds since the epoch, as an annotation keeps it.
abbrev pub to_seconds : Time → Time
to_seconds t = of_unix (unix t)

effective_kill-IsInt64 :
    (p : Pod) (ts : Time) → IsInt64 (unix ts) → IsInt64 (unix (effective_kill p ts))
unfolding effective_kill is_time_set_and_earlier_than
effective_kill-IsInt64 p ts fits = elim (Option-cases (get_kill_timestamp p)) [
  | inl h ↦ ground arith
  | inr (t, h) ↦
      let (s, e, fits') = get_kill_timestamp-IsInt64 p t h in ground (arith, unix-of_unix s)
]

-- The kill timestamp that is read from the updated pod is the earlier one of that before and the
-- one given, in whole seconds, if the given time is an int64 of seconds.
pub get_kill_timestamp-with_kill_timestamp :
    (p : Pod) (ts : Time)
    → IsInt64 (unix ts)
    → get_kill_timestamp (with_kill_timestamp p ts) ≡ some (to_seconds (effective_kill p ts))
unfolding get_kill_timestamp with_kill_timestamp
get_kill_timestamp-with_kill_timestamp p ts fits = ground (
  arith,
  lookup-insert label_key_task_kill_timestamp label_key_task_kill_timestamp
      (itoa (unix (effective_kill p ts))) p.metadata.annotations,
  eq_refl label_key_task_kill_timestamp,
  atoi-itoa (unix (effective_kill p ts)) (effective_kill-IsInt64 p ts fits),
)

to_seconds-le : (t : Time) → to_seconds t ≤ℤ t
unfolding unix of_unix ◌*ℤ◌ ◌+ℤ◌ ◌-ℤ◌
to_seconds-le t = ground arith

effective_kill-le :
    (p : Pod) (ts t : Time)
    → get_kill_timestamp p ≡ some t
    → is_zero t ≡ false
    → effective_kill p ts ≤ℤ t
unfolding effective_kill is_time_set_and_earlier_than
effective_kill-le p ts t e set = ground arith

-- If a pod's kill timestamp is set, what is read from the pod that SetKillTimestamp sends is a
-- kill timestamp that is not later, for a given time that is an int64 of seconds.
pub with_kill_timestamp-never_later :
    (p : Pod) (ts t : Time)
    → IsInt64 (unix ts)
    → get_kill_timestamp p ≡ some t
    → is_zero t ≡ false
    → (t' : Time) × (get_kill_timestamp (with_kill_timestamp p ts) ≡ some t') × (t' ≤ℤ t)
with_kill_timestamp-never_later p ts t fits e set = (
  _,
  get_kill_timestamp-with_kill_timestamp p ts fits,
  ground (arith, to_seconds-le (effective_kill p ts), effective_kill-le p ts t),
)

whole_seconds-bounds :
    (n : ℕ)
    → (n < nanoseconds_per_second * whole_seconds_of n + nanoseconds_per_second)
      × (nanoseconds_per_second * whole_seconds_of n ≤ n + nanoseconds_per_second)
whole_seconds-bounds n = ground arith

accurate_bounds :
    (start : Time) (d w : ℕ)
    → d < nanoseconds_per_second * w + nanoseconds_per_second
    → nanoseconds_per_second * w ≤ d + nanoseconds_per_second
    → (add start (pos d) ≤ℤ add start (at_least_one (pos w) *ℤ second +ℤ second))
      × (add start (at_least_one (pos w) *ℤ second) ≤ℤ add (add start (pos d)) second)
unfolding add ◌*ℤ◌ ◌+ℤ◌
accurate_bounds start d zero h h' = (ground arith, ground arith)
accurate_bounds start d (suc w) h h' = (ground arith, ground arith)

deadline_from-add :
    (start : Time) (d : ℕ)
    → d < 2 ^ 63
    → deadline_from (some start) (add start (pos d)) ≡ pos (whole_seconds_of d)
unfolding whole_seconds
deadline_from-add start d h = ground (arith, sub-add start d, add_parts start (pos d))

effective_kill-none : (p : Pod) (ts : Time) → get_kill_timestamp p ≡ none → effective_kill p ts ≡ ts
unfolding effective_kill is_time_set_and_earlier_than
effective_kill-none p ts e = ground arith

cap_deadline-none : (ads : ℤ) → cap_deadline none ads ≡ ads
cap_deadline-none ads = refl

-- Where a pod has a start time, and neither a deadline nor a kill timestamp before, the active
-- deadline that SetKillTimestamp asks for ends within a second of the kill timestamp, if that is
-- from 0 up to 292 years after the start.
pub with_kill_timestamp-accurate :
    (p : Pod) (start : Time) (d : ℕ)
    → p.status.start_time ≡ some start
    → p.spec.active_deadline_seconds ≡ none
    → get_kill_timestamp p ≡ none
    → d < 2 ^ 63
    → (ads : ℤ) × ((with_kill_timestamp p (add start (pos d))).spec.active_deadline_seconds
        ≡ some ads)
      × (add start (pos d) ≤ℤ add start (ads *ℤ second +ℤ second))
      × (add start (ads *ℤ second) ≤ℤ add (add start (pos d)) second)
unfolding with_kill_timestamp
with_kill_timestamp-accurate p start d started unset unkilled h =
    let (low, high) = whole_seconds-bounds d in
    let (ends, begins) = accurate_bounds start d (whole_seconds_of d) low high in
    (
      _,
      cc (
        started,
        unset,
        effective_kill-none p (add start (pos d)) unkilled,
        deadline_from-add start d h,
        cap_deadline-none (pos (whole_seconds_of d)),
      ),
      ends,
      begins,
    )
