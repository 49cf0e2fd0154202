-- ===== src/Ktime/Base.antt =====
-- Go's time.Time and time.Duration, and pkg/utils/ktime/time.go over them.
use furiko.Prelude.{
  ℕ, ◌*◌, ◌/◌, ◌-◌, ◌^◌, ℤ, pos, negsuc, Bool, not, ◌&&◌, ◌||◌, Option, none, some, ltb_ℤ, eqb_ℤ,
  ◌+ℤ◌, ◌-ℤ◌, ◌*ℤ◌, wrap64, if◌then◌else◌,
}

abbrev pub Time : Type 0
Time = ℤ

abbrev pub Duration : Type 0
Duration = ℤ

abbrev pub zero_time : Time
zero_time = pos 0

abbrev pub nanoseconds_per_second : ℕ
nanoseconds_per_second = 1_000_000_000

-- The Unix epoch, seen from the zero time.
abbrev pub epoch : Time
epoch = pos (62_135_596_800 * nanoseconds_per_second)

abbrev pub second : Duration
second = pos nanoseconds_per_second

abbrev pub is_zero : Time → Bool
is_zero t = eqb_ℤ t zero_time

abbrev pub before : Time → Time → Bool
before t u = ltb_ℤ t u

abbrev pub after : Time → Time → Bool
after t u = ltb_ℤ u t

-- `t.Add(d)`.
unfoldable pub add : Time → Duration → Time
add t d = t +ℤ d

-- The greatest and the least duration.
abbrev max_duration : Duration
max_duration = pos (2 ^ 63 - 1)

abbrev min_duration : Duration
min_duration = negsuc (2 ^ 63 - 1)

-- `t.Sub(u)`, which saturates; `time.Until(t)` is `t.Sub(now)`.
unfoldable pub sub : Time → Time → Duration
sub t u =
    let d = t -ℤ u in
    if ltb_ℤ max_duration d then max_duration else if ltb_ℤ d min_duration then min_duration else d

-- `time.Duration(n) * time.Second`, an `int64` product that wraps around.
unfoldable pub seconds : ℤ → Duration
seconds n = wrap64 (n *ℤ second)

-- Division that rounds towards minus infinity.
abbrev pub floor_div : ℤ → ℕ → ℤ
floor_div (pos n) k = pos (n / k)
floor_div (negsuc n) k = negsuc (n / k)

-- `t.Unix()`: whole seconds since the epoch.
unfoldable pub unix : Time → ℤ
unix t = floor_div (t -ℤ epoch) nanoseconds_per_second

-- `time.Unix(s, 0)`.
unfoldable pub of_unix : ℤ → Time
of_unix s = s *ℤ second +ℤ epoch

-- `(*metav1.Time).IsZero`: also true of nil.
abbrev pub is_zero_ptr : Option Time → Bool
is_zero_ptr none = Bool.true
is_zero_ptr (some t) = is_zero t

abbrev pub unwrap_meta_v1_time : Option Time → Time
unwrap_meta_v1_time (some t) = t
unwrap_meta_v1_time none = zero_time

unfoldable pub is_time_set_and_earlier_than : Option Time → Time → Bool
is_time_set_and_earlier_than ts other =
    let t = unwrap_meta_v1_time ts in not (is_zero t) && before t other

-- `IsTimeSetAndEarlier` reads the clock, which answers `now`.
unfoldable pub is_time_set_and_earlier : Time → Option Time → Bool
unfolding is_time_set_and_earlier_than
is_time_set_and_earlier now ts = is_time_set_and_earlier_than ts now

unfoldable pub is_time_set_and_earlier_than_or_equal_to : Option Time → Time → Bool
is_time_set_and_earlier_than_or_equal_to ts other =
    let t = unwrap_meta_v1_time ts in not (is_zero t) && (before t other || eqb_ℤ t other)

unfoldable pub is_time_set_and_later_than : Option Time → Time → Bool
is_time_set_and_later_than ts other =
    let t = unwrap_meta_v1_time ts in not (is_zero t) && after t other

unfoldable pub is_time_set_and_later : Time → Option Time → Bool
unfolding is_time_set_and_later_than
is_time_set_and_later now ts = is_time_set_and_later_than ts now

unfoldable pub is_time_set_and_later_than_or_equal_to : Option Time → Time → Bool
is_time_set_and_later_than_or_equal_to ts other =
    let t = unwrap_meta_v1_time ts in not (is_zero t) && (after t other || eqb_ℤ t other)

unfoldable pub time_max : Option Time → Option Time → Option Time
time_max none ts2 = ts2
time_max (some t1) none = some t1
time_max (some t1) (some t2) = if before t1 t2 then some t2 else some t1

-- `ts` is not nil here: the callers pass an address.
unfoldable pub is_unix_zero : Time → Bool
unfolding unix
is_unix_zero ts = is_zero ts || eqb_ℤ (unix ts) (pos 0)

unfoldable pub duration_max : Duration → Duration → Duration
duration_max a b = if ltb_ℤ b a then a else b

unfoldable pub duration_min : Duration → Duration → Duration
duration_min a b = if ltb_ℤ a b then a else b
