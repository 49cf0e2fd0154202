-- ===== src/Ktime.antt =====
-- pkg/utils/ktime/time.go, pkg/utils/time/time.go and the parts of Go's `time` that the program
-- uses. An instant is its distance in nanoseconds from Go's zero time (1 January of year 1), so the
-- zero time is `pos 0`. A duration is an `int64` number of nanoseconds. `*metav1.Time` is an
-- `Option`, with `none` for nil. `now` stands for what `Clock.Now()` answers.
mod Base
mod Laws
pub use Base.{Time, Duration, zero_time, nanoseconds_per_second, epoch, second}
pub use Base.{is_zero, before, after, floor_div, is_zero_ptr, unwrap_meta_v1_time}
unfoldable pub use Base.{add, sub, seconds, unix, of_unix, time_max, is_unix_zero, duration_max}
unfoldable pub use Base.{is_time_set_and_earlier, is_time_set_and_earlier_than, duration_min}
unfoldable pub use Base.{is_time_set_and_later, is_time_set_and_later_than}
unfoldable pub use Base.{is_time_set_and_earlier_than_or_equal_to}
unfoldable pub use Base.{is_time_set_and_later_than_or_equal_to}
pub use Laws.*
