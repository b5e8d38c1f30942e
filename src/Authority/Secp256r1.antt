-- ===== src/Authority/Secp256r1.antt =====
-- lib/src/authority/instructions/secp256r1.ts, `Secp256r1Instruction`: an instruction of the precompile in
-- front of the instruction verifies the signature of its data and accounts, and the payload leads to
-- the account through which the program reads it.
pub mod Payload
pub mod Authorities
pub mod Sign
pub mod SubAccounts
pub mod Assets
pub mod Methods
pub mod Prepared
pub mod Covered
pub mod Signed
