-- ===== src/Api.antt =====
-- The API types of apis/execution/v1alpha1 and apis/config/v1alpha1.
pub mod Meta
pub mod Pod
pub mod Options
pub mod Job
pub mod JobConfig
pub mod Config
