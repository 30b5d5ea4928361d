-- ===== src/Simulation.antt =====
-- internal/simulation: deterministic fault injectors.
pub mod Network
pub mod Links
pub mod Transport
pub mod Packets
pub mod Reach
pub mod Delivery
pub mod Cluster
mod Tests
