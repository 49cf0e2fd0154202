-- ===== src/JobUtil/Timeout.antt =====
-- pkg/execution/util/job/timeout.go.
use furiko.Prelude.{ℤ, pos, Option, none, some, leb_ℤ, if◌then◌else◌}
use furiko.Ktime.{Duration, seconds}
use furiko.Api.Job.{Job}
use furiko.Api.Config.{JobExecutionConfig}

-- `*p`, or a default where `p` is nil.
abbrev deref_or : Option ℤ → ℤ → ℤ
deref_or none d = d
deref_or (some n) d = n

abbrev pending_timeout_of : Option ℤ → ℤ → ℤ
pending_timeout_of none sec = sec
pending_timeout_of (some n) sec = if leb_ℤ (pos 0) n then n else sec

-- `none` is the nil dereference of a Job with no template.
unfoldable pub get_pending_timeout : Job → JobExecutionConfig → Option Duration
get_pending_timeout rj cfg = elim (rj.spec.template) [
  | none ↦ none
  | some template ↦
      let sec = deref_or cfg.default_pending_timeout_seconds (pos 0) in
      some (seconds (pending_timeout_of template.task.pending_timeout_seconds sec))
]

unfoldable pub get_delete_killing_timeout : JobExecutionConfig → Duration
get_delete_killing_timeout cfg = seconds (deref_or cfg.delete_killing_tasks_timeout_seconds (pos 0))

unfoldable pub get_force_delete_killing_timeout : JobExecutionConfig → Duration
get_force_delete_killing_timeout cfg =
    seconds (deref_or cfg.force_delete_killing_tasks_timeout_seconds (pos 0))

unfoldable pub get_ttl_after_finished : Job → JobExecutionConfig → Duration
get_ttl_after_finished rj cfg = seconds (
    deref_or rj.spec.ttl_seconds_after_finished
      (deref_or cfg.default_ttl_seconds_after_finished (pos 0)))
