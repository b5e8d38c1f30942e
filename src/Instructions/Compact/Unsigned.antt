-- ===== src/Instructions/Compact/Unsigned.antt =====
-- The loops over the accounts and the instructions ask no address of the wallet to sign.
use swig_protocol_sdk.Common.{
  ℕ, ◌≡◌, refl, Bool, true, false, Option-cases, inl, inr, some, List, [], ◌∷◌, ◌++◌, map, Bytes,
  length, All, All-append, map-All, get_elem?-length, arith,
}
use swig_protocol_sdk.Kit.{Kit}
use swig_protocol_sdk.Instructions.Consts.{sysvar_rent_address_string}
use swig_protocol_sdk.Instructions.Compact.{
  SolAccountMeta, SolInstruction, Table, lookup, readonly, push, add_accounts, is_sync_native,
  sanitize_sync_native, is_transfer, rent_index, rent_accounts, unbalanced, compact_one,
  compact_loop, compact_instructions,
}
use swig_protocol_sdk.Coder.CompactInstructions.{CompactInstruction}
use swig_protocol_sdk.Instructions.Compact.Extends.{Extends-push, Known}
use swig_protocol_sdk.Instructions.Compact.Place.{add_account-Placed}
use swig_protocol_sdk.Instructions.Compact.Resolve.{
  Valid, HasKeys, HasKeys-Extends, add_accounts-Added,
}
use swig_protocol_sdk.Instructions.Compact.Loop.{compact_one-One, All-HasKeys-Extends, Known-pushed}
use swig_protocol_sdk.Instructions.Compact.Correct.{hashmap_from-Known, sanitized}
use swig_protocol_sdk.Instructions.Compact.Signers.{
  pda_signs_at, Unsigned, UnsignedResult, signs_append, add_account-Unsigned,
}

module _ ⦃kit : Kit⦄ (swig_pdas : List Bytes) where
  add_accounts-Unsigned :
      (rs : List ℕ) (t : Table)
      → HasKeys t.store rs
      → Known t t.hashmap
      → Unsigned swig_pdas t
      → UnsignedResult swig_pdas (add_accounts swig_pdas rs t)
  unfolding add_accounts
  add_accounts-Unsigned [] t h known u = u
  add_accounts-Unsigned (r ∷ rs) t h known u =
      let p = add_account-Placed swig_pdas r t h.0.1 known in
      let first = rw (p.result_is) at (add_account-Unsigned swig_pdas r t known u) in
      let rest =
        add_accounts-Unsigned rs p.after (HasKeys-Extends rs p.extends h.1) p.known first in
      let a = add_accounts-Added swig_pdas rs p.after (HasKeys-Extends rs p.extends h.1) p.known in
      rw (p.result_is, a.result_is) (rw (a.result_is) at rest)

  push-Unsigned :
      (key : Bytes) (t : Table) → Unsigned swig_pdas t → Unsigned swig_pdas (push (readonly key) t)
  unfolding push readonly
  push-Unsigned key t u =
      let new = readonly key in
      All-append (λ r. pda_signs_at swig_pdas (t.store ++ new ∷ []) r ≡ false) t.accounts
        (length t.store ∷ [])
        (map-All (λ r. pda_signs_at swig_pdas t.store r ≡ false)
          (λ r. pda_signs_at swig_pdas (t.store ++ new ∷ []) r ≡ false) t.accounts
          (λ r h. signs_append swig_pdas t.store new r refl h) u)
        (ground (arith, get_elem?-length t.store [] new), tt)

  rent_index-Unsigned : (t : Table) → Unsigned swig_pdas t → Unsigned swig_pdas (rent_index t).0
  unfolding rent_index
  rent_index-Unsigned t u =
      elim (Option-cases
        (lookup (kit.base58 (kit.from_base58 sysvar_rent_address_string)) t.hashmap)) [
          | inl e ↦
              rw (e, rent_index)
                (push-Unsigned (kit.from_base58 sysvar_rent_address_string)
                  (record t {
                    hashmap =
                        (kit.base58 (kit.from_base58 sysvar_rent_address_string), length t.accounts)
                        ∷ t.hashmap;
                  })
                  u)
          | inr (i, e) ↦ rw (e, rent_index) u
        ]

  unbalanced-Unsigned :
      (swig_account : Bytes) (handle_unbalanced sync_native : Bool) (t : Table)
      → Unsigned swig_pdas t
      → Unsigned swig_pdas (unbalanced swig_account handle_unbalanced sync_native t).0
  unfolding unbalanced rent_accounts
  unbalanced-Unsigned swig_account false sync_native t u = u
  unbalanced-Unsigned swig_account true false t u = u
  unbalanced-Unsigned swig_account true true t u = rent_index-Unsigned t u

  compact_one-Unsigned :
      (swig_account : Bytes) (handle_unbalanced : Bool) (ix : SolInstruction) (t : Table)
      → HasKeys t.store ix.accounts
      → Known t t.hashmap
      → Unsigned swig_pdas t
      → UnsignedResult swig_pdas (compact_one swig_account swig_pdas handle_unbalanced ix t)
  unfolding compact_one
  compact_one-Unsigned swig_account handle_unbalanced ix t h known u =
      let program = readonly ix.program in
      let hk = HasKeys-Extends ix.accounts (Extends-push program t) h in
      let kn = Known-pushed program t known in
      let a = add_accounts-Added swig_pdas ix.accounts (push program t) hk kn in
      let ua =
        rw (a.result_is) at (
          add_accounts-Unsigned ix.accounts (push program t) hk kn
            (push-Unsigned ix.program t u)) in
      rw (a.result_is)
        (unbalanced-Unsigned swig_account handle_unbalanced (is_sync_native ix) a.after ua)

  compact_loop-Unsigned :
      (swig_account : Bytes) (handle_unbalanced : Bool) (ixs : List SolInstruction) (t : Table)
      → All (λ ix. HasKeys t.store ix.accounts) ixs
      → Known t t.hashmap
      → Unsigned swig_pdas t
      → UnsignedResult swig_pdas (compact_loop swig_account swig_pdas handle_unbalanced ixs t)
  unfolding compact_loop
  compact_loop-Unsigned swig_account handle_unbalanced [] t h known u = u
  compact_loop-Unsigned swig_account handle_unbalanced (ix ∷ ixs) t h known u =
      let o = compact_one-One swig_account swig_pdas handle_unbalanced ix t h.0 known in
      let uo =
        rw (o.result_is) at
          (compact_one-Unsigned swig_account handle_unbalanced ix t h.0 known u) in
      let rest =
        compact_loop-Unsigned swig_account (is_transfer ix) ixs o.after
          (All-HasKeys-Extends ixs o.extends h.1) o.known uo in
      elim (Option-cases (compact_loop swig_account swig_pdas (is_transfer ix) ixs o.after)) [
        | inl e ↦ rw (o.result_is, e) tt
        | inr (result, e) ↦ rw (o.result_is, e) (rw e at rest)
      ]

module _ ⦃kit : Kit⦄ where
  -- Let all accounts be places in the store, and let none of the accounts that
  -- `compactInstructions` is given be a signer whose key is that of the swig account or of one of the
  -- other addresses of the wallet. Then none of the combined accounts is, whatever the inner
  -- instructions ask for.
  pub compact_instructions-Unsigned :
      (store : List SolAccountMeta) (swig_account : Bytes) (accounts : List ℕ)
      (ixs : List SolInstruction) (other_swig_pdas : List Bytes) (t : Table)
      (compact_ixs : List CompactInstruction)
      → Valid store accounts
      → All (λ ix. Valid store ix.accounts) ixs
      → All (λ r. pda_signs_at (other_swig_pdas ++ swig_account ∷ []) store r ≡ false) accounts
      → compact_instructions store swig_account accounts ixs other_swig_pdas ≡ some (t, compact_ixs)
      → All (λ r. pda_signs_at (other_swig_pdas ++ swig_account ∷ []) t.store r ≡ false) t.accounts
  unfolding compact_instructions
  compact_instructions-Unsigned store swig_account accounts ixs other_swig_pdas t compact_ixs va vi
        u e =
      let start : Table = record { store = store; accounts = accounts; hashmap = [] } in
      let (hashmap, made, known) = hashmap_from-Known start [] accounts 0 [] refl refl va tt in
      let run : compact_loop swig_account (other_swig_pdas ++ swig_account ∷ []) false
            (map sanitize_sync_native ixs)
            (record { store = store; accounts = accounts; hashmap = hashmap })
          ≡ some (t, compact_ixs) =
        rw made at e in
      rw run at (
        compact_loop-Unsigned (other_swig_pdas ++ swig_account ∷ []) swig_account false
          (map sanitize_sync_native ixs)
          (record { store = store; accounts = accounts; hashmap = hashmap })
          (sanitized store ixs vi) known u)
