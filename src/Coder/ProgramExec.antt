-- ===== src/Coder/ProgramExec.antt =====
-- coder/src/types/programExecSession.ts: the data of an authority that is a program, with a session or
-- without. `write_…` is the encoder, `read_…` the decoder.
pub mod RoundTrip
use swig_protocol_sdk.Common.{ℕ, ◌^◌, ◌<◌, ◌≡◌, Option, some, Bytes, length, zeros}
use swig_protocol_sdk.Kit.{Kit, Reader, ◌>>=◌, pure, ◌then_write◌}

pub record ProgramExecArgs : Type 0 where
  pub program_id : Bytes
  pub instruction_prefix_len : ℕ
  pub instruction_prefix : Bytes

pub record ProgramExecData : Type 0 where
  pub program_id : Bytes
  pub instruction_prefix_len : ℕ
  pub padding : Bytes
  pub instruction_prefix : Bytes

module _ ⦃kit : Kit⦄ where
  unfoldable pub write_program_exec : ProgramExecArgs → Option Bytes
  write_program_exec x =
      some (kit.write_fixed 32 x.program_id)
      then_write kit.write_uint 1 x.instruction_prefix_len
      then_write some (kit.write_fixed 7 (zeros 7))
      then_write some (kit.write_fixed 40 x.instruction_prefix)

  unfoldable pub read_program_exec : Reader ProgramExecData
  read_program_exec = do
    program_id ← kit.read_fixed 32
    instruction_prefix_len ← kit.read_uint 1
    padding ← kit.read_fixed 7
    instruction_prefix ← kit.read_fixed 40
    pure (record {
      program_id = program_id;
      instruction_prefix_len = instruction_prefix_len;
      padding = padding;
      instruction_prefix = instruction_prefix;
    })

-- What a value must meet to be written and read back.
pub record IsProgramExec (x : ProgramExecArgs) : Type 0 where
  pub program_id_fits : length x.program_id ≡ 32
  pub instruction_prefix_len_fits : x.instruction_prefix_len < 256 ^ 1
  pub instruction_prefix_fits : length x.instruction_prefix ≡ 40

pub record CreateProgramExecSessionArgs : Type 0 where
  pub program_id : Bytes
  pub instruction_prefix_len : ℕ
  pub instruction_prefix : Bytes
  pub session_key : Bytes
  pub max_session_length : ℕ

pub record CreateProgramExecSessionData : Type 0 where
  pub program_id : Bytes
  pub instruction_prefix_len : ℕ
  pub padding : Bytes
  pub instruction_prefix : Bytes
  pub session_key : Bytes
  pub max_session_length : ℕ

module _ ⦃kit : Kit⦄ where
  unfoldable pub write_create_program_exec_session : CreateProgramExecSessionArgs → Option Bytes
  write_create_program_exec_session x =
      some (kit.write_fixed 32 x.program_id)
      then_write kit.write_uint 1 x.instruction_prefix_len
      then_write some (kit.write_fixed 7 (zeros 7))
      then_write some (kit.write_fixed 40 x.instruction_prefix)
      then_write some (kit.write_fixed 32 x.session_key)
      then_write kit.write_uint 8 x.max_session_length

  unfoldable pub read_create_program_exec_session : Reader CreateProgramExecSessionData
  read_create_program_exec_session = do
    program_id ← kit.read_fixed 32
    instruction_prefix_len ← kit.read_uint 1
    padding ← kit.read_fixed 7
    instruction_prefix ← kit.read_fixed 40
    session_key ← kit.read_fixed 32
    max_session_length ← kit.read_uint 8
    pure (record {
      program_id = program_id;
      instruction_prefix_len = instruction_prefix_len;
      padding = padding;
      instruction_prefix = instruction_prefix;
      session_key = session_key;
      max_session_length = max_session_length;
    })

-- What a value must meet to be written and read back.
pub record IsCreateProgramExecSession (x : CreateProgramExecSessionArgs) : Type 0 where
  pub program_id_fits : length x.program_id ≡ 32
  pub instruction_prefix_len_fits : x.instruction_prefix_len < 256 ^ 1
  pub instruction_prefix_fits : length x.instruction_prefix ≡ 40
  pub session_key_fits : length x.session_key ≡ 32
  pub max_session_length_fits : x.max_session_length < 256 ^ 8

pub record ProgramExecSessionArgs : Type 0 where
  pub program_id : Bytes
  pub instruction_prefix_len : ℕ
  pub instruction_prefix : Bytes
  pub session_key : Bytes
  pub max_session_length : ℕ
  pub current_session_expiration : ℕ

pub record ProgramExecSessionData : Type 0 where
  pub program_id : Bytes
  pub instruction_prefix_len : ℕ
  pub padding : Bytes
  pub instruction_prefix : Bytes
  pub session_key : Bytes
  pub max_session_length : ℕ
  pub current_session_expiration : ℕ

module _ ⦃kit : Kit⦄ where
  unfoldable pub write_program_exec_session : ProgramExecSessionArgs → Option Bytes
  write_program_exec_session x =
      some (kit.write_fixed 32 x.program_id)
      then_write kit.write_uint 1 x.instruction_prefix_len
      then_write some (kit.write_fixed 7 (zeros 7))
      then_write some (kit.write_fixed 40 x.instruction_prefix)
      then_write some (kit.write_fixed 32 x.session_key)
      then_write kit.write_uint 8 x.max_session_length
      then_write kit.write_uint 8 x.current_session_expiration

  unfoldable pub read_program_exec_session : Reader ProgramExecSessionData
  read_program_exec_session = do
    program_id ← kit.read_fixed 32
    instruction_prefix_len ← kit.read_uint 1
    padding ← kit.read_fixed 7
    instruction_prefix ← kit.read_fixed 40
    session_key ← kit.read_fixed 32
    max_session_length ← kit.read_uint 8
    current_session_expiration ← kit.read_uint 8
    pure (record {
      program_id = program_id;
      instruction_prefix_len = instruction_prefix_len;
      padding = padding;
      instruction_prefix = instruction_prefix;
      session_key = session_key;
      max_session_length = max_session_length;
      current_session_expiration = current_session_expiration;
    })

-- What a value must meet to be written and read back.
pub record IsProgramExecSession (x : ProgramExecSessionArgs) : Type 0 where
  pub program_id_fits : length x.program_id ≡ 32
  pub instruction_prefix_len_fits : x.instruction_prefix_len < 256 ^ 1
  pub instruction_prefix_fits : length x.instruction_prefix ≡ 40
  pub session_key_fits : length x.session_key ≡ 32
  pub max_session_length_fits : x.max_session_length < 256 ^ 8
  pub current_session_expiration_fits : x.current_session_expiration < 256 ^ 8
