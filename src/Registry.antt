-- ===== src/Registry.antt =====
-- src/registry.rs: the particles of a node, with their names, links, monitors and mailboxes.
pub mod State
pub mod Spawn
pub mod Send
pub mod Relate
pub mod Names
pub mod Exit
pub mod Views
pub mod Cascade
pub mod Symmetry
pub mod Sound
pub mod Forget
pub mod History
pub mod Fate
pub mod Spread
pub mod Closed
pub mod Deaths
pub mod Holders
pub mod Directed
pub mod Alone
pub mod Race
mod Tests
