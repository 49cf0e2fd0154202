-- ===== src/Ktime/Laws.antt =====
-- Facts about instants and durations: whole seconds, the range of a product, maxima.
use furiko.Prelude.{
  ℕ, ◌+◌, ◌*◌, ◌≤◌, ◌<◌, ◌^◌, ℤ, pos, pos_part, neg_part, ◌≡◌, arith, ◌+ℤ◌, ◌-ℤ◌, ◌*ℤ◌, ◌≤ℤ◌,
  +ℤ_parts, wrap64,
}
use furiko.Ktime.Base.{Time, Duration, add, sub, seconds, unix, of_unix, duration_max}

-- The parts of a sum of an instant and a duration.
pub add_parts :
    (t : Time) (d : Duration)
    → pos_part (add t d) + neg_part t + neg_part d ≡ neg_part (add t d) + pos_part t + pos_part d
unfolding add
add_parts t d = +ℤ_parts t d

-- Up to 9223372036 seconds (292 years) the product does not wrap.
pub seconds_exact : (n : ℕ) → n ≤ 9_223_372_036 → seconds (pos n) ≡ pos (n * 1_000_000_000)
unfolding seconds ◌*ℤ◌ wrap64
seconds_exact n h = ground arith

pub unix-of_unix : (s : ℤ) → unix (of_unix s) ≡ s
unfolding unix of_unix ◌*ℤ◌ ◌+ℤ◌ ◌-ℤ◌
unix-of_unix s = ground arith

pub duration_max_le : (a b : Duration) → (a ≤ℤ duration_max a b) × (b ≤ℤ duration_max a b)
unfolding duration_max
duration_max_le a b = ground arith

-- A difference of up to 292 years is exact.
pub sub-add : (t : Time) (d : ℕ) → d < 2 ^ 63 → sub (add t (pos d)) t ≡ pos d
unfolding sub add ◌+ℤ◌ ◌-ℤ◌
sub-add t d h = ground arith
