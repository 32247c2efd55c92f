-- ===== src/Sdk.antt =====
-- crates/plasmoid-sdk: what a particle is written with. Modelled is its supervision.
pub mod Spec
pub mod Supervisor
pub mod Dynamic
pub mod Driver
pub mod DynamicDriver
