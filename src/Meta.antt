-- ===== src/Meta.antt =====
-- pkg/utils/meta: annotations and finalizers, and the Go maps from strings to strings that carry
-- them. A map is an association list, a nil map the empty list; a key counts at its first place.
mod Base
mod Laws
pub use Base.{StringMap}
unfoldable pub use Base.{lookup, insert, contains_finalizer, remove_finalizer, filter_finalizers}
unfoldable pub use Base.{merge_finalizers, is_final_finalizer}
pub use Laws.*
