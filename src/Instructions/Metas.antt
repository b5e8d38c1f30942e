-- ===== src/Instructions/Metas.antt =====
-- The accounts of each instruction: solana/typescript/packages/lib/src/instructions/*.ts. Keys are
-- given as their 32 bytes.
pub mod Role
pub mod Authorities
pub mod Sign
pub mod SubAccounts
pub mod Assets
pub mod Locks
unfoldable pub use Role.*
unfoldable pub use Authorities.*
unfoldable pub use Sign.*
unfoldable pub use SubAccounts.*
unfoldable pub use Assets.*
