-- ===== src/Instructions/Compact/Correct.antt =====
-- `compactInstructions` as a whole.
use swig_protocol_sdk.Common.{
  ℕ, ◌+◌, ◌≡◌, refl, false, Bool-cases, inl, inr, some, List, [], ◌∷◌, ◌++◌, map, take,
  append_assoc, Bytes, length, get_elem?, All, get_elem?-length, get_elem?-lt, length-append, arith,
}
use swig_protocol_sdk.Kit.{Kit}
use swig_protocol_sdk.Instructions.Compact.{
  SolAccountMeta, SolInstruction, Table, sanitize_sync_native, is_sync_native, hashmap_from,
  compact_instructions,
}
use swig_protocol_sdk.Coder.CompactInstructions.{CompactInstruction}
use swig_protocol_sdk.Instructions.Compact.Extends.{key_at, key_of, Known}
use swig_protocol_sdk.Instructions.Compact.Resolve.{Valid, HasKeys, Valid-HasKeys, StandForAll}
use swig_protocol_sdk.Instructions.Compact.Loop.{compact_loop-Whole}

module _ ⦃kit : Kit⦄ where
  -- The map that is made of the accounts is true.
  pub hashmap_from-Known :
      (t : Table) (front rs : List ℕ) (i : ℕ) (hashmap : List (Bytes × ℕ))
      → t.accounts ≡ front ++ rs
      → length front ≡ i
      → Valid t.store rs
      → Known t hashmap
      → (result : List (Bytes × ℕ)) × (hashmap_from t.store rs i hashmap ≡ some result)
        × Known t result
  unfolding hashmap_from
  hashmap_from-Known t front [] i hashmap e hi v known = (hashmap, refl, known)
  hashmap_from-Known t front (r ∷ rs) i hashmap e hi v known =
      let (meta, found) = get_elem?-lt t.store r v.0 in
      let at : get_elem? t.accounts i ≡ some r = rw (e, ← hi) (get_elem?-length front rs r) in
      let key : key_of t i ≡ some (kit.base58 meta.public_key) =
        rw (at, key_of, found, key_at) refl in
      let (result, made, true') =
        hashmap_from-Known t (front ++ r ∷ []) rs (i + 1)
          ((kit.base58 meta.public_key, i) ∷ hashmap) (rw (append_assoc front (r ∷ []) rs) e)
          (omega (arith, length-append front (r ∷ []))) v.1 (key, known) in
      (result, rw found made, true')

  pub sanitized :
      (store : List SolAccountMeta) (ixs : List SolInstruction)
      → All (λ ix. Valid store ix.accounts) ixs
      → All (λ ix. HasKeys store ix.accounts) (map sanitize_sync_native ixs)
  sanitized store [] v = tt
  sanitized store (ix ∷ ixs) v = (
    elim (Bool-cases (is_sync_native ix)) [
      | inl s ↦ unfold sanitize_sync_native in rw s (first_one store ix.accounts v.0)
      | inr s ↦ unfold sanitize_sync_native in rw s (Valid-HasKeys store ix.accounts v.0)
    ],
    sanitized store ixs v.1,
  )
    where
      first_one :
          (store : List SolAccountMeta) (rs : List ℕ) → Valid store rs → HasKeys store (take 1 rs)
      first_one store [] h = tt
      first_one store (r ∷ rs) h = Valid-HasKeys store (r ∷ []) (h.0, tt)

  -- Let all accounts be places in the store. Then `compactInstructions` succeeds, and the accounts
  -- that it was given keep their places at the front of the combined accounts. It gives one compact
  -- instruction for each inner instruction, in order, after a SyncNative has been cut down to its
  -- first account; its program index leads to that instruction's program, its data are the same,
  -- and its account indices lead, in order, to the keys of the instruction's accounts, with others
  -- behind them, where an account that the instruction has as writable is writable in the combined
  -- accounts.
  pub compact_instructions-StandForAll :
      (store : List SolAccountMeta) (swig_account : Bytes) (accounts : List ℕ)
      (ixs : List SolInstruction) (other_swig_pdas : List Bytes)
      → Valid store accounts
      → All (λ ix. Valid store ix.accounts) ixs
      → (t : Table) × (compact_ixs : List CompactInstruction) × (compact_instructions store
            swig_account accounts ixs other_swig_pdas
          ≡ some (t, compact_ixs))
        × ((more : List ℕ) × (t.accounts ≡ accounts ++ more))
        × StandForAll store t (map sanitize_sync_native ixs) compact_ixs
  unfolding compact_instructions
  compact_instructions-StandForAll store swig_account accounts ixs other_swig_pdas va vi =
      let start : Table = record { store = store; accounts = accounts; hashmap = [] } in
      let (hashmap, made, known) = hashmap_from-Known start [] accounts 0 [] refl refl va tt in
      let w =
        compact_loop-Whole swig_account (other_swig_pdas ++ swig_account ∷ []) false
          (map sanitize_sync_native ixs)
          (record { store = store; accounts = accounts; hashmap = hashmap })
          (sanitized store ixs vi) known in
      (
        w.after,
        w.compact_ixs,
        rw made (w.result_is),
        (w.extends.more, w.extends.accounts_kept),
        w.stand,
      )
