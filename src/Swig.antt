-- ===== src/Swig.antt =====
-- The swig account as the client sees it: solana/typescript/packages/lib/src/swig.
mod Tests
pub mod Account
pub mod Tail
pub mod Locks
