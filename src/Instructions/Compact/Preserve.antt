-- ===== src/Instructions/Compact/Preserve.antt =====
-- A property of tables that the steps of the compaction keep is kept by the whole loop.
use swig_protocol_sdk.Common.{
  ℕ, Bool, true, false, Bool-cases, Option-cases, inl, inr, Option, none, some, List, [], ◌∷◌,
  Bytes, All, map, take, length,
}
use swig_protocol_sdk.Kit.{Kit}
use swig_protocol_sdk.Instructions.Consts.{sysvar_rent_address_string}
use swig_protocol_sdk.Instructions.Compact.{
  SolInstruction, Table, lookup, readonly, push, add_account, add_accounts, rent_index,
  rent_accounts, unbalanced, is_sync_native, sanitize_sync_native, is_transfer, compact_one,
  compact_loop,
}

-- The property of a table that comes with a result.
abbrev pub After : (Table → Type 0) → {A : Type 0} → Option (Table × A) → Type 0
After P none = Unit
After P (some (t, a)) = P t

-- What keeps `P`, where the inner instructions name places that meet `Ok` only.
pub record Kept ⦃kit : Kit⦄ (swig_pdas : List Bytes) (P : Table → Type 0) (Ok : ℕ → Type 0)
    : Type 0 where
  pub account : (r : ℕ) (t : Table) → Ok r → P t → After P (add_account swig_pdas r t)
  pub pushed : (key : Bytes) (t : Table) → P t → P (push (readonly key) t)
  pub hashed :
      (key : Bytes) (t : Table)
      → P t
      → P (record t { hashmap = (key, length t.accounts) ∷ t.hashmap })

module _ ⦃kit : Kit⦄ (swig_pdas : List Bytes) (P : Table → Type 0) (Ok : ℕ → Type 0)
    (keep : Kept swig_pdas P Ok) where
  pub add_accounts-After :
      (rs : List ℕ) (t : Table) → All Ok rs → P t → After P (add_accounts swig_pdas rs t)
  unfolding add_accounts
  add_accounts-After [] t ok h = h
  add_accounts-After (r ∷ rs) t ok h = elim (Option-cases (add_account swig_pdas r t)) [
    | inl e ↦ rw e tt
    | inr ((t₁, i), e) ↦
        let h₁ : P t₁ = rw e at (keep.account r t (ok.0) h) in
        elim (Option-cases (add_accounts swig_pdas rs t₁)) [
          | inl e' ↦ rw (e, e') tt
          | inr (result, e') ↦ rw (e, e') (rw e' at (add_accounts-After rs t₁ (ok.1) h₁))
        ]
  ]

  pub unbalanced-P :
      (swig_account : Bytes) (handle_unbalanced sync_native : Bool) (t : Table)
      → P t
      → P (unbalanced swig_account handle_unbalanced sync_native t).0
  unfolding unbalanced rent_accounts rent_index
  unbalanced-P swig_account false sync_native t h = h
  unbalanced-P swig_account true false t h = h
  unbalanced-P swig_account true true t h =
      let rent = kit.from_base58 sysvar_rent_address_string in
      elim (Option-cases (lookup (kit.base58 rent) t.hashmap)) [
        | inl e ↦ rw (e, rent_index) (keep.pushed rent _ (keep.hashed (kit.base58 rent) t h))
        | inr (i, e) ↦ rw (e, rent_index) h
      ]

  compact_one-After :
      (swig_account : Bytes) (handle_unbalanced : Bool) (ix : SolInstruction) (t : Table)
      → All Ok ix.accounts
      → P t
      → After P (compact_one swig_account swig_pdas handle_unbalanced ix t)
  unfolding compact_one
  compact_one-After swig_account handle_unbalanced ix t ok h =
      let start = push (readonly ix.program) t in
      elim (Option-cases (add_accounts swig_pdas ix.accounts start)) [
        | inl e ↦ rw e tt
        | inr ((t₁, is), e) ↦
            let h₁ : P t₁ =
              rw e at (add_accounts-After ix.accounts start ok (keep.pushed ix.program t h)) in
            rw e (unbalanced-P swig_account handle_unbalanced (is_sync_native ix) t₁ h₁)
      ]

  pub compact_loop-After :
      (swig_account : Bytes) (handle_unbalanced : Bool) (ixs : List SolInstruction) (t : Table)
      → All (λ ix. All Ok ix.accounts) ixs
      → P t
      → After P (compact_loop swig_account swig_pdas handle_unbalanced ixs t)
  unfolding compact_loop
  compact_loop-After swig_account handle_unbalanced [] t ok h = h
  compact_loop-After swig_account handle_unbalanced (ix ∷ ixs) t ok h =
      elim (Option-cases (compact_one swig_account swig_pdas handle_unbalanced ix t)) [
        | inl e ↦ rw e tt
        | inr ((t₁, c), e) ↦
            let h₁ : P t₁ =
              rw e at (compact_one-After swig_account handle_unbalanced ix t (ok.0) h) in
            elim (Option-cases (compact_loop swig_account swig_pdas (is_transfer ix) ixs t₁)) [
              | inl e' ↦ rw (e, e') tt
              | inr (result, e') ↦
                  rw (e, e')
                    (rw e' at (compact_loop-After swig_account (is_transfer ix) ixs t₁ (ok.1) h₁))
            ]
      ]

-- What holds of all places that instructions name holds after a SyncNative has been cut down.
pub sanitized-All :
    ⦃kit : Kit⦄ (Ok : ℕ → Type 0) (ixs : List SolInstruction)
    → All (λ ix. All Ok ix.accounts) ixs
    → All (λ ix. All Ok ix.accounts) (map sanitize_sync_native ixs)
sanitized-All Ok [] h = h
sanitized-All Ok (ix ∷ ixs) h = (
  elim (Bool-cases (is_sync_native ix)) [
    | inl s ↦ unfold sanitize_sync_native in rw s (first_one ix.accounts h.0)
    | inr s ↦ unfold sanitize_sync_native in rw s (h.0)
  ],
  sanitized-All Ok ixs h.1,
)
  where
    first_one : (rs : List ℕ) → All Ok rs → All Ok (take 1 rs)
    first_one [] a = tt
    first_one (r ∷ rs) a = (a.0, tt)
