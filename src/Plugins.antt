-- ===== src/Plugins.antt =====
-- core/plugin-runtime: the plugin contract, the registry that owns the plugins, the loader that fills
-- it from factories, and the runtime that drives each plugin through its lifecycle.
pub mod Types
pub mod Registry
pub mod Runtime
pub mod Loader
mod Tests
