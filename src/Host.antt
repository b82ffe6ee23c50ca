-- ===== src/Host.antt =====
-- playgate-host/internal/host: the wiring of the host's stages.
pub mod Router
pub mod Sink
pub mod Masking
pub mod Feed
pub mod Answers
pub mod Sampling
pub mod Bitrates
pub mod Broadcast
mod Examples
mod BitrateExamples
mod SinkExamples
