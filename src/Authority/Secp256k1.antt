-- ===== src/Authority/Secp256k1.antt =====
-- lib/src/authority/instructions/secp256k1.ts, `Secp256k1Instruction`: the payload holds the signature of
-- the instruction's data and accounts.
pub mod Payload
pub mod Authorities
pub mod Sign
pub mod SubAccounts
pub mod Assets
pub mod Methods
pub mod Covered
pub mod Signed
