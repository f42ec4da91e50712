-- ===== src/Runtime/Health.antt =====
-- core/runtime/src/health.rs.
pub data RuntimeHealth : Type 0 where
  starting running degraded stopping stopped failed : RuntimeHealth
