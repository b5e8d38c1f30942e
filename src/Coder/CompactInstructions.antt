-- ===== src/Coder/CompactInstructions.antt =====
-- coder/src/types/compactInstruction.ts: a compact instruction, its encoder and its decoder.
mod Tests
pub mod RoundTrip
pub mod Decoder
use swig_protocol_sdk.Common.{ℕ, Option, some, List, Bytes}
use swig_protocol_sdk.Kit.{Kit, Reader, ◌>>=◌, pure, ◌then_write◌, read_rest}
use swig_protocol_sdk.Kit.Arrays.{write_array, read_array, write_prefixed}

pub record CompactInstruction : Type 0 where
  pub program_id_index : ℕ
  pub accounts : List ℕ
  pub ix_data : Bytes

module _ ⦃kit : Kit⦄ where
  unfoldable pub write_compact_instruction : CompactInstruction → Option Bytes
  write_compact_instruction x =
      kit.write_uint 1 x.program_id_index
      then_write write_array 1 (kit.write_uint 1) x.accounts
      then_write write_prefixed 2 x.ix_data

  unfoldable pub write_compact_instructions : List CompactInstruction → Option Bytes
  unfolding write_compact_instruction
  write_compact_instructions = write_array 1 write_compact_instruction

  -- An array's size is four bytes where none is given.
  unfoldable pub read_compact_instruction : Reader CompactInstruction
  read_compact_instruction = kit.read_uint 1 >>= λ program_id_index.
      read_array 4 (kit.read_uint 1) >>= λ accounts. read_rest >>= λ ix_data.
      pure (record { program_id_index = program_id_index; accounts = accounts; ix_data = ix_data })

  unfoldable pub read_compact_instructions : Reader (List CompactInstruction)
  unfolding read_compact_instruction
  read_compact_instructions = read_array 1 read_compact_instruction
