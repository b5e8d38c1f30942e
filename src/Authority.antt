-- ===== src/Authority.antt =====
-- How the authorities of a role sign the wallet's instructions:
-- solana/typescript/packages/lib/src/authority.
mod Tests
pub mod Interface
pub mod Signing
pub mod Ed25519
pub mod Secp256k1
pub mod Secp256r1
pub mod ProgramExec
