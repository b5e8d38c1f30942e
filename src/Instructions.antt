-- ===== src/Instructions.antt =====
-- How inner instructions are put into one instruction of the wallet:
-- solana/typescript/packages/lib/src/instructions.
mod Tests
pub mod Consts
pub mod Keys
pub mod Compact
pub mod Metas
pub mod SwigInstruction
