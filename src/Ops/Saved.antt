-- ===== src/Ops/Saved.antt =====
-- internal/ops/ops.go: a restart sees the job that Progress leaves in memory.
use ludock.Common.{string_eq}
use ludock.Ops.Job.{Job}
