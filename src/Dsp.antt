-- ===== src/Dsp.antt =====
-- core/dsp: windows of calibrated frames and the assembler that cuts them from the stream, the processing
-- of a window, and the service with its statistics.
pub mod Errors
pub mod Window
pub mod Assembler
pub mod Kernels
pub mod Backend
pub mod Motion
pub mod Spectral
pub mod Report
pub mod Config
pub mod Stats
pub mod Service
mod Samples
pub mod WorkerSamples
mod Tests
mod ConfigTests
mod ProcessingTests
