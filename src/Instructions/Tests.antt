-- ===== src/Instructions/Tests.antt =====
-- lib/src/instructions/compactInstruction.ts: a transfer from the wallet and a SyncNative behind it,
-- run with the little-endian kit, whose Base58 texts are the keys themselves.
use swig_protocol_sdk.Common.{
  ℕ, ◌≡◌, refl, true, false, none, some, List, [], ◌∷◌, ◌++◌, map, All, Bytes, replicate, arith,
}
use swig_protocol_sdk.Kit.LittleEndian.{little_endian}
use swig_protocol_sdk.Instructions.Consts.{
  system_program_address_string, token_program_address_string, sysvar_rent_address_string,
}
use swig_protocol_sdk.Instructions.Compact.{
  SolAccountMeta, SolInstruction, Table, lookup, readonly, push, upgrade, is_sync_native,
  sanitize_sync_native, is_transfer, hashmap_from, unsign, place, add_account, add_accounts,
  rent_index, rent_accounts, swig_index, unbalanced, compact_one, compact_loop,
  compact_instructions,
}
use swig_protocol_sdk.Coder.CompactInstructions.{CompactInstruction}
use swig_protocol_sdk.Instructions.Compact.Resolve.{Valid, StandForAll}
use swig_protocol_sdk.Instructions.Compact.Correct.{compact_instructions-StandForAll}
use swig_protocol_sdk.Instructions.Compact.Signers.{pda_signs_at}
use swig_protocol_sdk.Instructions.Compact.Unsigned.{compact_instructions-Unsigned}
use swig_protocol_sdk.Instructions.Compact.Unbalanced.Follow.{
  FollowAll, compact_instructions-FollowAll,
}

abbrev swig_key : Bytes
swig_key = replicate 32 1

abbrev payer_key : Bytes
payer_key = replicate 32 2

abbrev wrapped_key : Bytes
wrapped_key = replicate 32 3

-- The swig account, the payer, the swig account as the transfer names it, and the token account.
abbrev objects : List SolAccountMeta
objects =
    record { public_key = swig_key; writable = true; signer = false }
    ∷ record { public_key = payer_key; writable = true; signer = true }
    ∷ record { public_key = swig_key; writable = true; signer = true }
    ∷ record { public_key = wrapped_key; writable = true; signer = false }
    ∷ []

abbrev transfer : SolInstruction
transfer = record {
  program = system_program_address_string;
  accounts = 2 ∷ 3 ∷ [];
  ix_data = 2 ∷ 0 ∷ 0 ∷ 0 ∷ 5 ∷ 0 ∷ 0 ∷ 0 ∷ 0 ∷ 0 ∷ 0 ∷ 0 ∷ [];
}

abbrev sync_native : SolInstruction
sync_native = record {
  program = token_program_address_string;
  accounts = 3 ∷ 0 ∷ [];
  ix_data = 17 ∷ [];
}

abbrev given : List ℕ
given = 0 ∷ 1 ∷ []

abbrev inner : List SolInstruction
inner = transfer ∷ sync_native ∷ []

given-Valid : Valid objects given
given-Valid = (omega arith, (omega arith, tt))

inner-Valid : All (λ ix. Valid objects ix.accounts) inner
inner-Valid = ((omega arith, (omega arith, tt)), ((omega arith, (omega arith, tt)), tt))

compact_instructions-StandForAll_example :
    (t : Table) × (compact_ixs : List CompactInstruction) × (compact_instructions objects swig_key
        given inner []
      ≡ some (t, compact_ixs))
    × ((more : List ℕ) × (t.accounts ≡ given ++ more))
    × StandForAll objects t (map sanitize_sync_native inner) compact_ixs
compact_instructions-StandForAll_example =
    compact_instructions-StandForAll objects swig_key given inner [] given-Valid inner-Valid

-- What it comes to: the swig account no longer signs, and the SyncNative gets the Rent sysvar and the
-- swig account.
abbrev compacted : List CompactInstruction
compacted =
    record { program_id_index = 2; accounts = 0 ∷ 3 ∷ []; ix_data = transfer.ix_data }
    ∷ record { program_id_index = 4; accounts = 3 ∷ 5 ∷ 0 ∷ []; ix_data = 17 ∷ [] }
    ∷ []

abbrev program_meta : Bytes → SolAccountMeta
program_meta key = record { public_key = key; writable = false; signer = false }

abbrev combined : Table
combined = record {
  store =
      record { public_key = swig_key; writable = true; signer = false }
      ∷ record { public_key = payer_key; writable = true; signer = true }
      ∷ record { public_key = swig_key; writable = true; signer = false }
      ∷ record { public_key = wrapped_key; writable = true; signer = false }
      ∷ program_meta system_program_address_string
      ∷ program_meta token_program_address_string
      ∷ program_meta sysvar_rent_address_string
      ∷ [];
  accounts = 0 ∷ 1 ∷ 4 ∷ 3 ∷ 5 ∷ 6 ∷ [];
  hashmap =
      (sysvar_rent_address_string, 5) ∷ (wrapped_key, 3) ∷ (payer_key, 1) ∷ (swig_key, 0) ∷ [];
}

combined_lem : compact_instructions objects swig_key given inner [] ≡ some (combined, compacted)
unfolding compact_instructions hashmap_from compact_loop compact_one sanitize_sync_native
    is_sync_native is_transfer add_accounts add_account unsign place lookup upgrade push readonly
    unbalanced rent_accounts rent_index swig_index
combined_lem = refl

compact_instructions-Unsigned_example :
    All (λ r. pda_signs_at (swig_key ∷ []) combined.store r ≡ false) combined.accounts
compact_instructions-Unsigned_example =
    compact_instructions-Unsigned objects swig_key given inner [] combined compacted given-Valid
      inner-Valid (refl, (refl, tt)) combined_lem

compact_instructions-FollowAll_example :
    (t : Table) × (compact_ixs : List CompactInstruction) × (compact_instructions objects swig_key
        given inner []
      ≡ some (t, compact_ixs))
    × FollowAll swig_key t none (map sanitize_sync_native inner) compact_ixs
compact_instructions-FollowAll_example =
    compact_instructions-FollowAll swig_key objects given inner [] 0 0 given-Valid inner-Valid refl
      refl
