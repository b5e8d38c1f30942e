-- ===== src/Coder/Instructions.antt =====
-- The instructions of the wallet's program as bytes: coder/src/instructions.
mod Tests
pub mod Discriminator
pub mod Sign
pub mod Authority
pub mod SubAccount
pub mod Assets
pub mod Locks
pub mod Session
pub mod Create
