-- ===== src/Smp.antt =====
-- src/smp_protocol.c and src/smp.c: the socialist millionaires' protocol.
pub mod Hash
pub mod Messages
pub mod State
pub mod Proofs
pub mod Machine
pub mod Session
pub mod RoundTrip
pub mod Cases
pub mod Diagram
pub mod Safety
pub mod Ready
pub mod Reach
pub mod Complete
mod Tests
