-- ===== src/Coder.antt =====
-- The binary layouts of the package coder: solana/typescript/packages/coder/src.
pub mod KeySessions
pub mod ProgramExec
pub mod AccountsPayload
pub mod Secp256r1Signature
pub mod Permissions
pub mod AuthorityTypes
pub mod ScopeTypes
pub mod Limits
pub mod TokenLimits
pub mod CompactInstructions
pub mod Scopes
pub mod Headers
pub mod Accounts
pub mod Instructions
