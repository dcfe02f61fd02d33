-- ===== src/Memory.antt =====
-- What SERA believes: src/core/memory/.
pub mod PolicyEngine
pub mod Working
pub mod Ingress
mod Tests
