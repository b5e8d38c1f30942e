-- ===== src/Authority/ProgramExec.antt =====
-- lib/src/authority/instructions/programexec.ts, `ProgramExecInstruction`: the authority is a program,
-- one instruction of which comes in front, and the payload is the index of the account through which
-- the program of the wallet reads it.
pub mod Preceding
pub mod Authorities
pub mod Sign
pub mod SubAccounts
pub mod Assets
pub mod Methods
pub mod Checked
pub mod Requests
