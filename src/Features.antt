-- ===== src/Features.antt =====
-- core/features/src: the schema of the features and the vectors of their values.
pub mod Ids
pub mod Definitions
pub mod Schema
pub mod Vector
