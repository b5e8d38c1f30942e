-- ===== src/Instructions/Compact.antt =====
-- lib/src/instructions/compactInstruction.ts, over SolAccountMeta and SolInstruction of
-- lib/src/solana.ts. Account metas are objects that the code changes in place, and one object may
-- stand in several arrays: they live in a store, and the arrays hold their places in it.
pub mod Extends
pub mod Place
pub mod Resolve
pub mod Loop
pub mod Correct
pub mod Signers
pub mod Unsigned
pub mod Remembered
pub mod Unbalanced
pub mod Preserve
pub mod Stored
pub mod Signing
pub mod Own
use swig_protocol_sdk.Coder.CompactInstructions.{CompactInstruction}
use swig_protocol_sdk.Common.{
  ℕ, suc, ◌+◌, Bool, true, false, not, ◌&&◌, Option, none, some, List, [], ◌∷◌, ◌++◌, if◌then◌else◌,
  ◌==◌, Bytes, length, get_elem?, set, take, any, map, bytes_equal, ◌>>=◌,
}
use swig_protocol_sdk.Kit.{Kit}
use swig_protocol_sdk.Instructions.Consts.{
  system_program_address_string, token_program_address_string, sysvar_rent_address_string,
}

pub record SolAccountMeta : Type 0 where
  pub public_key : Bytes
  pub writable : Bool
  pub signer : Bool

-- `accounts` are places in the store.
pub record SolInstruction : Type 0 where
  pub program : Bytes
  pub accounts : List ℕ
  pub ix_data : Bytes

unfoldable pub readonly : Bytes → SolAccountMeta
readonly public_key = record { public_key = public_key; writable = false; signer = false }

-- The objects, the combined accounts, and the places of keys among them: what `set` wrote last
-- stands first in `hashmap`.
pub record Table : Type 0 where
  pub store : List SolAccountMeta
  pub accounts : List ℕ
  pub hashmap : List (Bytes × ℕ)

-- `hashmap.get`.
unfoldable pub lookup : Bytes → List (Bytes × ℕ) → Option ℕ
lookup key [] = none
lookup key ((k, i) ∷ rest) = if bytes_equal k key then some i else lookup key rest

-- A new object, pushed to the accounts.
unfoldable pub push : SolAccountMeta → Table → Table
push meta t = record {
  store = t.store ++ meta ∷ [];
  accounts = t.accounts ++ length t.store ∷ [];
  hashmap = t.hashmap;
}

-- "Upgrade privileges if needed".
unfoldable pub upgrade : SolAccountMeta → SolAccountMeta → SolAccountMeta
upgrade ix_account existing =
    let written =
      if ix_account.writable && not existing.writable
      then record existing { writable = true }
      else existing in
    if ix_account.signer && not written.signer then record written { signer = true } else written

module _ ⦃kit : Kit⦄ where
  unfoldable pub is_sync_native : SolInstruction → Bool
  is_sync_native ix =
      bytes_equal (kit.base58 ix.program) token_program_address_string
      && bytes_equal ix.ix_data (17 ∷ [])

  unfoldable pub sanitize_sync_native : SolInstruction → SolInstruction
  unfolding is_sync_native
  sanitize_sync_native ix =
      if not (is_sync_native ix)
      then ix
      else record { program = ix.program; accounts = take 1 ix.accounts; ix_data = ix.ix_data }

  -- A transfer of the system program.
  unfoldable pub is_transfer : SolInstruction → Bool
  is_transfer ix =
      bytes_equal (kit.base58 ix.program) system_program_address_string
      && bytes_equal (take 4 ix.ix_data) (2 ∷ 0 ∷ 0 ∷ 0 ∷ [])

  -- The pairs of `new Map(accounts.map((x, i) => …))`, from the index `i` on.
  unfoldable pub hashmap_from :
      List SolAccountMeta → List ℕ → ℕ → List (Bytes × ℕ) → Option (List (Bytes × ℕ))
  hashmap_from store [] i hashmap = some hashmap
  hashmap_from store (r ∷ rest) i hashmap = do
    meta ← get_elem? store r
    hashmap_from store rest (i + 1) ((kit.base58 meta.public_key, i) ∷ hashmap)

  -- `swigPdas.find(…)` and `setSigner(false)`.
  unfoldable pub unsign : List Bytes → SolAccountMeta → SolAccountMeta
  unsign swig_pdas meta =
      if any (λ pda. bytes_equal (kit.base58 pda) (kit.base58 meta.public_key)) swig_pdas
      then record meta { signer = false }
      else meta

  -- The place of an account that is known, or of a new one.
  unfoldable pub place : ℕ → SolAccountMeta → Option ℕ → Table → Option (Table × ℕ)
  unfolding upgrade
  place r meta (some i) t = do
    e ← get_elem? t.accounts i
    existing ← get_elem? t.store e
    some (record t { store = set t.store e (upgrade meta existing) }, i)
  place r meta none t = some (
    record {
      store = t.store;
      accounts = t.accounts ++ r ∷ [];
      hashmap = (kit.base58 meta.public_key, length t.accounts) ∷ t.hashmap;
    },
    length t.accounts,
  )

  -- The body of the loop over an instruction's accounts.
  unfoldable pub add_account : List Bytes → ℕ → Table → Option (Table × ℕ)
  unfolding unsign place lookup
  add_account swig_pdas r t = do
    meta ← get_elem? t.store r
    let ix_account = unsign swig_pdas meta
    place r ix_account (lookup (kit.base58 ix_account.public_key) t.hashmap)
        (record t { store = set t.store r ix_account })

  unfoldable pub add_accounts : List Bytes → List ℕ → Table → Option (Table × List ℕ)
  unfolding add_account
  add_accounts swig_pdas [] t = some (t, [])
  add_accounts swig_pdas (r ∷ rest) t = do
    (t₁, i) ← add_account swig_pdas r t
    (t₂, is) ← add_accounts swig_pdas rest t₁
    some (t₂, i ∷ is)

  -- The place of the Rent sysvar.
  unfoldable pub rent_index : Table → Table × ℕ
  unfolding lookup push readonly
  rent_index t =
      let rent = kit.from_base58 sysvar_rent_address_string in
      elim (lookup (kit.base58 rent) t.hashmap) [
        | some i ↦ (t, i)
        | none ↦ (
          push (readonly rent)
              (record t { hashmap = (kit.base58 rent, length t.accounts) ∷ t.hashmap }),
          length t.accounts,
        )
      ]

  unfoldable pub rent_accounts : Bool → Table → Table × List ℕ
  unfolding rent_index
  rent_accounts true t = ((rent_index t).0, (rent_index t).1 ∷ [])
  rent_accounts false t = (t, [])

  -- The place of the swig account; where it is unknown, the first.
  unfoldable pub swig_index : Bytes → Table → ℕ
  unfolding lookup
  swig_index swig_account t = elim (lookup (kit.base58 swig_account) t.hashmap) [
    | some i ↦ i
    | none ↦ 0
  ]

  -- The accounts behind the instruction's own: where the instruction before it was a transfer, the
  -- Rent sysvar for a SyncNative, and the swig account.
  unfoldable pub unbalanced : Bytes → Bool → Bool → Table → Table × List ℕ
  unfolding rent_accounts swig_index
  unbalanced swig_account false sync_native t = (t, [])
  unbalanced swig_account true sync_native t = (
    (rent_accounts sync_native t).0,
    (rent_accounts sync_native t).1 ++ swig_index swig_account (rent_accounts sync_native t).0 ∷ [],
  )

  -- The body of the loop over the instructions.
  unfoldable pub compact_one :
      Bytes → List Bytes → Bool → SolInstruction → Table → Option (Table × CompactInstruction)
  unfolding push readonly add_accounts unbalanced is_sync_native
  compact_one swig_account swig_pdas handle_unbalanced ix t = do
    (t₁, accts) ← add_accounts swig_pdas ix.accounts (push (readonly ix.program) t)
    let appended = unbalanced swig_account handle_unbalanced (is_sync_native ix) t₁
    some (
      appended.0,
      record {
        program_id_index = length t.accounts;
        accounts = accts ++ appended.1;
        ix_data = ix.ix_data;
      },
    )

  unfoldable pub compact_loop :
      Bytes
      → List Bytes
      → Bool
      → List SolInstruction
      → Table
      → Option (Table × List CompactInstruction)
  unfolding compact_one is_transfer
  compact_loop swig_account swig_pdas handle_unbalanced [] t = some (t, [])
  compact_loop swig_account swig_pdas handle_unbalanced (ix ∷ rest) t = do
    (t₁, compact) ← compact_one swig_account swig_pdas handle_unbalanced ix t
    (t₂, compact_ixs) ← compact_loop swig_account swig_pdas (is_transfer ix) rest t₁
    some (t₂, compact ∷ compact_ixs)

  -- `compactInstructions`, of the objects in the store: the table with the combined accounts, and the
  -- compact instructions. The call also appends `swigAccount` to the caller's `otherSwigPdas`.
  unfoldable pub compact_instructions :
      List SolAccountMeta
      → Bytes
      → List ℕ
      → List SolInstruction
      → List Bytes
      → Option (Table × List CompactInstruction)
  unfolding hashmap_from compact_loop sanitize_sync_native
  compact_instructions store swig_account accounts inner_instructions other_swig_pdas = do
    hashmap ← hashmap_from store accounts 0 []
    compact_loop swig_account (other_swig_pdas ++ swig_account ∷ []) false
        (map sanitize_sync_native inner_instructions)
        (record { store = store; accounts = accounts; hashmap = hashmap })
