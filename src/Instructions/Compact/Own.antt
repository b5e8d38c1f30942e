-- ===== src/Instructions/Compact/Own.antt =====
-- The accounts that `compactInstructions` is given: they stay in front and keep their keys, and one
-- that signs and is no object of an inner instruction still does.
use swig_protocol_sdk.Common.{
  ℕ, ◌<◌, ◌≡◌, ◌≢◌, refl, true, false, Option, some, List, [], ◌∷◌, ◌++◌, map, Bytes, length, All,
  arith,
}
use swig_protocol_sdk.Kit.{Kit}
use swig_protocol_sdk.Coder.CompactInstructions.{CompactInstruction}
use swig_protocol_sdk.Instructions.Compact.{
  SolAccountMeta, SolInstruction, Table, sanitize_sync_native, compact_instructions,
}
use swig_protocol_sdk.Instructions.Compact.Extends.{key_at}
use swig_protocol_sdk.Instructions.Compact.Resolve.{Valid}
use swig_protocol_sdk.Instructions.Compact.Loop.{compact_loop-Whole}
use swig_protocol_sdk.Instructions.Compact.Correct.{hashmap_from-Known, sanitized}
use swig_protocol_sdk.Instructions.Compact.Preserve.{compact_loop-After, sanitized-All}
use swig_protocol_sdk.Instructions.Compact.Signing.{signs_at, Signs, Kept-Signs}
use swig_protocol_sdk.Instructions.Compact.Stored.{Stored, Kept-Stored}

module _ ⦃kit : Kit⦄ where
  pub record OwnKept (store : List SolAccountMeta) (accounts : List ℕ) (q : ℕ)
      (result : Option (Table × List CompactInstruction)) : Type 0 where
    pub after : Table
    pub compact_ixs : List CompactInstruction
    pub result_is : result ≡ some (after, compact_ixs)
    pub more : List ℕ
    pub accounts_kept : after.accounts ≡ accounts ++ more
    pub stored : Valid after.store after.accounts
    pub key_kept : (k : Bytes) → key_at store q ≡ some k → key_at after.store q ≡ some k
    pub signs_kept : signs_at store q ≡ true → signs_at after.store q ≡ true

  pub compact_instructions-OwnKept :
      (store : List SolAccountMeta) (swig_account : Bytes) (accounts : List ℕ)
      (ixs : List SolInstruction) (other_swig_pdas : List Bytes) (q : ℕ)
      → Valid store accounts
      → All (λ ix. Valid store ix.accounts) ixs
      → All (λ ix. All (λ r. r ≢ q) ix.accounts) ixs
      → OwnKept store accounts q
          (compact_instructions store swig_account accounts ixs other_swig_pdas)
  unfolding compact_instructions
  compact_instructions-OwnKept store swig_account accounts ixs other_swig_pdas q va vi apart =
      let start : Table = record { store = store; accounts = accounts; hashmap = [] } in
      let (hashmap, made, known) = hashmap_from-Known start [] accounts 0 [] refl refl va tt in
      let pdas = other_swig_pdas ++ swig_account ∷ [] in
      let s : Table = record { store = store; accounts = accounts; hashmap = hashmap } in
      let clean = map sanitize_sync_native ixs in
      let w = compact_loop-Whole swig_account pdas false clean s (sanitized store ixs vi) known in
      let signing = λ (signs : signs_at store q ≡ true).
        compact_loop-After pdas (Signs q) (λ r. r ≢ q) (Kept-Signs pdas q) swig_account false clean
          s (sanitized-All (λ r. r ≢ q) ixs apart) signs in
      let storing =
        compact_loop-After pdas (Stored (length store)) (λ r. r < length store)
          (Kept-Stored pdas (length store)) swig_account false clean s
          (sanitized-All (λ r. r < length store) ixs vi) (omega arith, va) in
      record {
        after = w.after;
        compact_ixs = w.compact_ixs;
        result_is = rw made (w.result_is);
        more = w.extends.more;
        accounts_kept = w.extends.accounts_kept;
        stored = (rw (w.result_is) at storing).1;
        key_kept = λ k e. w.extends.keys_kept q k e;
        signs_kept = λ signs. rw (w.result_is) at (signing signs);
      }
