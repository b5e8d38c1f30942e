-- ===== src/Coder/CompactInstructions/RoundTrip.antt =====
-- The bytes of compact instructions, and a reader of their format apart from the code.
use swig_protocol_sdk.Common.{ℕ, ◌+◌, ◌<◌, List, ◌∷◌, [], All, length}
use swig_protocol_sdk.Kit.{Kit, Reader, ◌>>=◌, pure, Encodes}
use swig_protocol_sdk.Kit.Laws.{Encodes-then, Encodes-last, Encodes-uint}
use swig_protocol_sdk.Kit.Arrays.{read_array, read_prefixed, total, Encodes-array, Encodes-prefixed}
use swig_protocol_sdk.Coder.CompactInstructions.{
  CompactInstruction, write_compact_instruction, write_compact_instructions,
}

-- What an instruction must meet to be written.
pub record IsCompactInstruction (x : CompactInstruction) : Type 0 where
  pub program_id_index_fits : x.program_id_index < 256
  pub accounts_fit : All (λ i. i < 256) x.accounts
  pub accounts_few : length x.accounts < 256
  pub ix_data_short : length x.ix_data < 65536

-- The bytes of an instruction: four of its own, one for each account, and the data.
unfoldable pub wire_size : CompactInstruction → ℕ
wire_size x = 1 + (1 + total (λ _. 1) x.accounts + (2 + length x.ix_data))

module _ ⦃kit : Kit⦄ where
  -- The format apart from the code: the index of the program, the accounts behind their number in
  -- one byte, and the data behind their length in two.
  unfoldable pub read_wire : Reader CompactInstruction
  read_wire = kit.read_uint 1 >>= λ program_id_index. read_array 1 (kit.read_uint 1) >>= λ accounts.
      read_prefixed 2 >>= λ ix_data.
      pure (record { program_id_index = program_id_index; accounts = accounts; ix_data = ix_data })

  Encodes-indices :
      (xs : List ℕ)
      → All (λ i. i < 256) xs
      → All (λ i. Encodes (kit.write_uint 1 i) 1 (kit.read_uint 1) i) xs
  Encodes-indices [] h = h
  Encodes-indices (x ∷ xs) (i, h) = (Encodes-uint 1 x i, Encodes-indices xs h)

  pub Encodes-compact_instruction :
      (x : CompactInstruction)
      → IsCompactInstruction x
      → Encodes (write_compact_instruction x) (wire_size x) read_wire x
  unfolding write_compact_instruction read_wire wire_size
  Encodes-compact_instruction x v =
      Encodes-then _ (Encodes-uint 1 x.program_id_index v.program_id_index_fits) (
        Encodes-then _
          (Encodes-array (kit.write_uint 1) (kit.read_uint 1) 1 (λ _. 1) x.accounts v.accounts_few
            (Encodes-indices x.accounts v.accounts_fit))
          (Encodes-last _ (Encodes-prefixed 2 x.ix_data v.ix_data_short)))

  Encodes-each :
      (xs : List CompactInstruction)
      → All IsCompactInstruction xs
      → All (λ x. Encodes (write_compact_instruction x) (wire_size x) read_wire x) xs
  Encodes-each [] h = h
  Encodes-each (x ∷ xs) (v, h) = (Encodes-compact_instruction x v, Encodes-each xs h)

  -- Let there be fewer than 256 compact instructions, each with indices below 256, fewer than 256
  -- accounts and fewer than 65536 bytes of data. Then the encoder writes them: one byte, and for
  -- each instruction four bytes, one for each account and its data. A reader of this format, which
  -- takes the number of an instruction's accounts from one byte and the length of its data from
  -- two, reads the same instructions back, whatever follows them.
  pub write_compact_instructions-Encodes :
      (xs : List CompactInstruction)
      → length xs < 256
      → All IsCompactInstruction xs
      → Encodes (write_compact_instructions xs) (1 + total wire_size xs) (read_array 1 read_wire) xs
  unfolding write_compact_instructions
  write_compact_instructions-Encodes xs h vs =
      Encodes-array write_compact_instruction read_wire 1 wire_size xs h (Encodes-each xs vs)
