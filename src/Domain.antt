-- ===== src/Domain.antt =====
-- core/domain: identifiers and timestamps, and the metadata of a frame.
pub mod Frame
