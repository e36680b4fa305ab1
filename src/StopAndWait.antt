-- ===== src/StopAndWait.antt =====
-- lab6 and Lab10: stop and wait over UDP, with one-bit sequence numbers.
pub mod Spec
pub mod Safety
pub mod Scan
pub mod Lab6
pub mod Lab10
