-- ===== src/Examples.antt =====
-- The theorems at concrete inputs, and tests by evaluation.
mod Lifecycle
mod TaskRefs
mod Store
mod Queue
mod Cron
mod Sync
mod JobConfig
mod Pods
mod Options
mod Admission
mod Reconciler
mod Webhooks
