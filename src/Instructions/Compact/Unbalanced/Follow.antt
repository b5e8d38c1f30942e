-- ===== src/Instructions/Compact/Unbalanced/Follow.antt =====
-- What `compactInstructions` puts behind the accounts of each instruction, by the instruction before it.
use swig_protocol_sdk.Common.{
  ℕ, ◌≡◌, refl, ◌⊎◌, ◌↔◌, Bool, true, false, Bool-cases, inl, inr, Option, none, some, List, [],
  ◌∷◌, ◌++◌, map, Bytes, length, get_elem?, All, arith,
}
use swig_protocol_sdk.Kit.{Kit}
use swig_protocol_sdk.Coder.CompactInstructions.{CompactInstruction}
use swig_protocol_sdk.Instructions.Compact.{
  SolAccountMeta, SolInstruction, Table, readonly, push, unbalanced, is_transfer, is_sync_native,
  sanitize_sync_native, compact_one, compact_loop, compact_instructions,
}
use swig_protocol_sdk.Instructions.Compact.Extends.{
  key_at, Extends, Extends-refl, Extends-trans, Extends-push, Known,
}
use swig_protocol_sdk.Instructions.Compact.Resolve.{
  Valid, Resolved, HasKeys, HasKeys-Extends, add_accounts-Added,
}
use swig_protocol_sdk.Instructions.Compact.Loop.{
  unbalanced-Later, Known-pushed, All-HasKeys-Extends,
}
use swig_protocol_sdk.Instructions.Compact.Correct.{hashmap_from-Known, sanitized}
use swig_protocol_sdk.Instructions.Compact.Preserve.{add_accounts-After, unbalanced-P}
use swig_protocol_sdk.Instructions.Compact.Remembered.{
  Remembers, Kept-Remembers, hashmap_from-Remembers,
}
use swig_protocol_sdk.Instructions.Compact.Unbalanced.{
  rent_text, Leads, Leads-Extends, added_keys, unbalanced-Leads,
}
use swig_protocol_sdk.Instructions.Compact.Unbalanced.Kinds.{
  IsTransfer, IsSyncNative, is_transfer_iff, is_sync_native_iff,
}

Resolved-length :
    ⦃kit : Kit⦄ (store : List SolAccountMeta) (t : Table) (rs is : List ℕ)
    → Resolved store t rs is
    → length is ≡ length rs
Resolved-length store t [] [] h = refl
Resolved-length store t [] (i ∷ is) h = elim h [ ]
Resolved-length store t (r ∷ rs) [] h = elim h [ ]
Resolved-length store t (r ∷ rs) (i ∷ is) h = omega (arith, Resolved-length store t rs is h.2)

module _ ⦃kit : Kit⦄ (swig_account : Bytes) where
  -- What the indices `extra` lead to, behind the accounts of `ix`, where `previous` stands before it.
  abbrev pub Behind : Table → Option SolInstruction → SolInstruction → List ℕ → Type 0
  Behind t none ix extra = extra ≡ []
  Behind t (some before) ix extra =
      (IsTransfer before
        × IsSyncNative ix
        × Leads t extra (rent_text ∷ kit.base58 swig_account ∷ []))
      ⊎ (IsTransfer before × (¬ IsSyncNative ix) × Leads t extra (kit.base58 swig_account ∷ []))
      ⊎ ((¬ IsTransfer before) × (extra ≡ []))

  abbrev pub FollowAll :
      Table → Option SolInstruction → List SolInstruction → List CompactInstruction → Type 0
  FollowAll t previous [] [] = Unit
  FollowAll t previous [] (c ∷ cs) = ⊥
  FollowAll t previous (ix ∷ ixs) [] = ⊥
  FollowAll t previous (ix ∷ ixs) (c ∷ cs) =
      ((own : List ℕ) × (extra : List ℕ) × (c.accounts ≡ own ++ extra)
        × (length own ≡ length ix.accounts)
        × Behind t previous ix extra)
      × FollowAll t (some ix) ixs cs

  -- The code's flag says whether the instruction before is a transfer.
  abbrev flag_of : Option SolInstruction → Bool
  flag_of none = false
  flag_of (some before) = is_transfer before

  Leads-nil : (t : Table) (extra : List ℕ) → Leads t extra [] → extra ≡ []
  Leads-nil t [] h = refl
  Leads-nil t (i ∷ is) h = elim h [ ]

  Behind-Leads :
      (t : Table) (previous : Option SolInstruction) (ix : SolInstruction) (extra : List ℕ)
      → Leads t extra (added_keys swig_account (flag_of previous) (is_sync_native ix))
      → Behind t previous ix extra
  Behind-Leads t none ix extra h = Leads-nil t extra h
  Behind-Leads t (some before) ix extra h =
      let transfer = is_transfer_iff before in
      let sync = is_sync_native_iff ix in
      elim (Bool-cases (is_transfer before)) [
        | inl y ↦ elim (Bool-cases (is_sync_native ix)) [
          | inl z ↦ inl (transfer.0 y, sync.0 z, rw (y, z) at h)
          | inr z ↦ inr (inl (transfer.0 y, not_true _ _ sync z, rw (y, z) at h))
        ]
        | inr n ↦ inr (inr (not_true _ _ transfer n, Leads-nil t extra (rw n at h)))
      ]
    where
      not_true : (b : Bool) (P : Type 0) → (b ≡ true) ↔ P → b ≡ false → ¬ P
      not_true b P e n y = let b' = e.1 y in ground (arith, n, b')

  record Follows (s : Table) (ix : SolInstruction) (handle_unbalanced : Bool)
      (result : Option (Table × CompactInstruction)) : Type 0 where
    after : Table
    compact : CompactInstruction
    result_is : result ≡ some (after, compact)
    extends : Extends s after
    known : Known after after.hashmap
    remembers : Remembers (kit.base58 swig_account) after
    own : List ℕ
    extra : List ℕ
    split : compact.accounts ≡ own ++ extra
    own_length : length own ≡ length ix.accounts
    leads : Leads after extra (added_keys swig_account handle_unbalanced (is_sync_native ix))

  All-unit : (rs : List ℕ) → All (λ r. Unit {0}) rs
  All-unit [] = tt
  All-unit (r ∷ rs) = (tt, All-unit rs)

  compact_one-Follows :
      (swig_pdas : List Bytes) (handle_unbalanced : Bool) (ix : SolInstruction) (t : Table)
      → HasKeys t.store ix.accounts
      → Known t t.hashmap
      → Remembers (kit.base58 swig_account) t
      → Follows t ix handle_unbalanced (compact_one swig_account swig_pdas handle_unbalanced ix t)
  unfolding compact_one
  compact_one-Follows swig_pdas handle_unbalanced ix t h known rem =
      let key = kit.base58 swig_account in
      let start = push (readonly ix.program) t in
      let first = Extends-push (readonly ix.program) t in
      let kept = Kept-Remembers key swig_pdas in
      let a =
        add_accounts-Added swig_pdas ix.accounts start (HasKeys-Extends ix.accounts first h)
          (Known-pushed (readonly ix.program) t known) in
      let rem₁ : Remembers key a.after = rw (a.result_is) at (
        add_accounts-After swig_pdas (Remembers key) (λ r. Unit) kept ix.accounts start
          (All-unit ix.accounts) (unfold push in rem)) in
      let sync = is_sync_native ix in
      let later = unbalanced-Later swig_account handle_unbalanced sync a.after a.known in
      let appended = unbalanced swig_account handle_unbalanced sync a.after in
      record {
        after = appended.0;
        compact = record {
          program_id_index = length t.accounts;
          accounts = a.indices ++ appended.1;
          ix_data = ix.ix_data;
        };
        result_is = rw (a.result_is) refl;
        extends = Extends-trans first (Extends-trans a.extends later.extends);
        known = later.known;
        remembers =
            unbalanced-P swig_pdas (Remembers key) (λ r. Unit) kept swig_account handle_unbalanced
              sync a.after rem₁;
        own = a.indices;
        extra = appended.1;
        split = refl;
        own_length = Resolved-length start.store a.after ix.accounts a.indices a.resolved;
        leads = unbalanced-Leads swig_account handle_unbalanced sync a.after a.known rem₁;
      }

  record Followed (s : Table) (previous : Option SolInstruction) (ixs : List SolInstruction)
      (result : Option (Table × List CompactInstruction)) : Type 0 where
    after : Table
    compact_ixs : List CompactInstruction
    result_is : result ≡ some (after, compact_ixs)
    extends : Extends s after
    follow : FollowAll after previous ixs compact_ixs

  compact_loop-Followed :
      (swig_pdas : List Bytes) (previous : Option SolInstruction) (ixs : List SolInstruction)
      (t : Table)
      → All (λ ix. HasKeys t.store ix.accounts) ixs
      → Known t t.hashmap
      → Remembers (kit.base58 swig_account) t
      → Followed t previous ixs (compact_loop swig_account swig_pdas (flag_of previous) ixs t)
  unfolding compact_loop
  compact_loop-Followed swig_pdas previous [] t h known rem = record {
    after = t;
    compact_ixs = [];
    result_is = refl;
    extends = Extends-refl t;
    follow = tt;
  }
  compact_loop-Followed swig_pdas previous (ix ∷ ixs) t h known rem =
      let o = compact_one-Follows swig_pdas (flag_of previous) ix t h.0 known rem in
      let w =
        compact_loop-Followed swig_pdas (some ix) ixs o.after
          (All-HasKeys-Extends ixs o.extends h.1) o.known o.remembers in
      record {
        after = w.after;
        compact_ixs = o.compact ∷ w.compact_ixs;
        result_is = rw (o.result_is, w.result_is) refl;
        extends = Extends-trans o.extends w.extends;
        follow = (
          (
            o.own,
            o.extra,
            o.split,
            o.own_length,
            Behind-Leads w.after previous ix o.extra (Leads-Extends o.extra _ w.extends o.leads),
          ),
          w.follow,
        );
      }

  -- Let all accounts be places in the store, and let one of those given have the key of the swig
  -- account. Then compactInstructions succeeds with one compact instruction for each inner
  -- instruction, in order, after a SyncNative has been cut down to its first account. It has as
  -- many indices as the instruction has accounts, and behind them, if the instruction before it is
  -- a transfer (of the system program, with data that start with the bytes 2, 0, 0, 0): for a
  -- SyncNative (of the token program, with the byte 17 as data) one that leads to the Rent sysvar
  -- and one that leads to the swig account, and for any other instruction one that leads to the
  -- swig account. Otherwise, and for the first instruction, there are no more indices.
  pub compact_instructions-FollowAll :
      (store : List SolAccountMeta) (accounts : List ℕ) (ixs : List SolInstruction)
      (other_swig_pdas : List Bytes) (j r : ℕ)
      → Valid store accounts
      → All (λ ix. Valid store ix.accounts) ixs
      → get_elem? accounts j ≡ some r
      → key_at store r ≡ some (kit.base58 swig_account)
      → (t : Table) × (compact_ixs : List CompactInstruction) × (compact_instructions store
            swig_account accounts ixs other_swig_pdas
          ≡ some (t, compact_ixs))
        × FollowAll t none (map sanitize_sync_native ixs) compact_ixs
  unfolding compact_instructions
  compact_instructions-FollowAll store accounts ixs other_swig_pdas j r va vi at key =
      let start : Table = record { store = store; accounts = accounts; hashmap = [] } in
      let (hashmap, made, known) = hashmap_from-Known start [] accounts 0 [] refl refl va tt in
      let w =
        compact_loop-Followed (other_swig_pdas ++ swig_account ∷ []) none
          (map sanitize_sync_native ixs)
          (record { store = store; accounts = accounts; hashmap = hashmap })
          (sanitized store ixs vi) known
          (hashmap_from-Remembers (kit.base58 swig_account) store accounts 0 j r [] hashmap at key
            made) in
      (w.after, w.compact_ixs, rw made (w.result_is), w.follow)
