-- ===== src/Coder/CompactInstructions/Tests.antt =====
-- coder/src/types/compactInstruction.ts: two compact instructions, run with little-endian codecs.
use swig_protocol_sdk.Common.{◌+◌, ◌≡◌, ◌≢◌, refl, some, [], ◌∷◌, Bytes, arith}
use swig_protocol_sdk.Kit.{decode, Encodes}
use swig_protocol_sdk.Kit.Arrays.{read_array, total}
use swig_protocol_sdk.Kit.LittleEndian.{little_endian, write_le}
use swig_protocol_sdk.Coder.CompactInstructions.{
  CompactInstruction, write_compact_instruction, write_compact_instructions,
  read_compact_instruction,
}
use swig_protocol_sdk.Coder.CompactInstructions.RoundTrip.{
  IsCompactInstruction, wire_size, read_wire, write_compact_instructions-Encodes,
}
use swig_protocol_sdk.Coder.CompactInstructions.Decoder.{read_compact_instruction-write}

abbrev transfer : CompactInstruction
transfer = record { program_id_index = 2; accounts = 0 ∷ 3 ∷ []; ix_data = 2 ∷ 0 ∷ 0 ∷ 0 ∷ [] }

abbrev sync : CompactInstruction
sync = record { program_id_index = 4; accounts = 3 ∷ []; ix_data = 17 ∷ [] }

abbrev transfer_bytes : Bytes
transfer_bytes = 2 ∷ 2 ∷ 0 ∷ 3 ∷ 4 ∷ 0 ∷ 2 ∷ 0 ∷ 0 ∷ 0 ∷ []

transfer-IsCompactInstruction : IsCompactInstruction transfer
transfer-IsCompactInstruction = record {
  program_id_index_fits = omega arith;
  accounts_fit = (omega arith, (omega arith, tt));
  accounts_few = omega arith;
  ix_data_short = omega arith;
}

sync-IsCompactInstruction : IsCompactInstruction sync
sync-IsCompactInstruction = record {
  program_id_index_fits = omega arith;
  accounts_fit = (omega arith, tt);
  accounts_few = omega arith;
  ix_data_short = omega arith;
}

transfer_written : write_compact_instruction transfer ≡ some transfer_bytes
unfolding write_compact_instruction write_le
transfer_written = refl

write_compact_instructions-Encodes_example :
    Encodes
      (write_compact_instructions (transfer ∷ sync ∷ []))
      (1 + total wire_size (transfer ∷ sync ∷ []))
      (read_array 1 read_wire)
      (transfer ∷ sync ∷ [])
write_compact_instructions-Encodes_example =
    write_compact_instructions-Encodes (transfer ∷ sync ∷ []) (omega arith)
      (transfer-IsCompactInstruction, (sync-IsCompactInstruction, tt))

read_compact_instruction-write_example :
    decode read_compact_instruction transfer_bytes ≢ some transfer
read_compact_instruction-write_example =
    read_compact_instruction-write transfer transfer-IsCompactInstruction transfer_bytes
      transfer_written
