-- ===== src/Steps/Order.antt =====
-- What orderSteps promises.
pub mod Fuel
pub mod Edges
pub mod Rounds
pub mod Sound
pub mod Complete
pub mod Unknown
pub mod Ranks
