-- ===== src/Limits.antt =====
-- What the concurrency policies and the limit of queued Jobs mean, apart from the code that tests them
-- (pkg/execution/validation and pkg/execution/controllers/croncontroller): the theorems on it say so.
use furiko.Prelude.{ℤ, pos, Bool, true, Option, none, some, leb_ℤ, ltb_ℤ}
use furiko.Api.Job.{ConcurrencyPolicy, StartPolicySpec}

-- May a Job of the policy be made beside a number of active ones?
abbrev pub allows : ConcurrencyPolicy → ℤ → Bool
allows ConcurrencyPolicy.forbid active = leb_ℤ active (pos 0)
allows ConcurrencyPolicy.allow active = true
allows ConcurrencyPolicy.enqueue active = true
allows (ConcurrencyPolicy.other s) active = true

abbrev pub allows_start : Option StartPolicySpec → ℤ → Bool
allows_start none active = true
allows_start (some spec) active = allows spec.concurrency_policy active

-- Are fewer Jobs queued than the limit says, if there is one?
abbrev pub has_room : Option ℤ → ℤ → Bool
has_room none queued = true
has_room (some max) queued = ltb_ℤ queued max
