-- ===== src/Instructions/Compact/Loop.antt =====
-- The loop over the instructions.
use swig_protocol_sdk.Common.{
  ◌≡◌, refl, Bool, true, false, Option, some, List, [], ◌∷◌, ◌++◌, Bytes, length, All, Option-cases,
  inl, inr,
}
use swig_protocol_sdk.Kit.{Kit}
use swig_protocol_sdk.Instructions.Compact.{
  SolAccountMeta, SolInstruction, Table, lookup, readonly, push, is_sync_native, is_transfer,
  rent_index, rent_accounts, unbalanced, compact_one, compact_loop,
}
use swig_protocol_sdk.Coder.CompactInstructions.{CompactInstruction}
use swig_protocol_sdk.Instructions.Consts.{sysvar_rent_address_string}
use swig_protocol_sdk.Instructions.Compact.Extends.{
  Extends, Extends-refl, Extends-trans, Extends-push, key_of-Extends, Known,
}
use swig_protocol_sdk.Instructions.Compact.Resolve.{
  HasKeys, HasKeys-Extends, Resolved-earlier, Resolved-later, StandsFor, StandForAll,
  add_accounts-Added, push_key, push-Known,
}

module _ ⦃kit : Kit⦄ where
  -- A later table whose map is true.
  pub record Later (s t : Table) : Type 0 where
    pub extends : Extends s t
    pub known : Known t t.hashmap

  push_rent :
      (t : Table)
      → Known t t.hashmap
      → Later t (
          push (readonly (kit.from_base58 sysvar_rent_address_string)) (record t {
            hashmap =
                (kit.base58 (kit.from_base58 sysvar_rent_address_string), length t.accounts)
                ∷ t.hashmap;
          }))
  unfolding push readonly
  push_rent t known =
      let rent = readonly (kit.from_base58 sysvar_rent_address_string) in
      let f = Extends-push rent t in
      record {
        extends = record {
          more = f.more;
          accounts_kept = f.accounts_kept;
          keys_kept = f.keys_kept;
          writable_kept = f.writable_kept;
        };
        known = (push_key rent t, push-Known rent t known);
      }

  pub rent_index-Later : (t : Table) → Known t t.hashmap → Later t (rent_index t).0
  unfolding rent_index
  rent_index-Later t known =
      elim (Option-cases
        (lookup (kit.base58 (kit.from_base58 sysvar_rent_address_string)) t.hashmap)) [
          | inl e ↦ rw (e, rent_index) (push_rent t known)
          | inr (i, e) ↦ rw (e, rent_index) (record { extends = Extends-refl t; known = known })
        ]

  pub unbalanced-Later :
      (swig_account : Bytes) (handle_unbalanced sync_native : Bool) (t : Table)
      → Known t t.hashmap
      → Later t (unbalanced swig_account handle_unbalanced sync_native t).0
  unfolding unbalanced rent_accounts
  unbalanced-Later swig_account false sync_native t known = record {
    extends = Extends-refl t;
    known = known;
  }
  unbalanced-Later swig_account true false t known = record {
    extends = Extends-refl t;
    known = known;
  }
  unbalanced-Later swig_account true true t known = rent_index-Later t known

  pub Known-pushed :
      (meta : SolAccountMeta) (t : Table)
      → Known t t.hashmap
      → Known (push meta t) (push meta t).hashmap
  Known-pushed meta t known = unfold push in push-Known meta t known

  pub record One (s : Table) (ix : SolInstruction) (result : Option (Table × CompactInstruction))
      : Type 0 where
    pub after : Table
    pub compact : CompactInstruction
    pub result_is : result ≡ some (after, compact)
    pub extends : Extends s after
    pub known : Known after after.hashmap
    pub stands : StandsFor s.store after ix compact

  pub compact_one-One :
      (swig_account : Bytes) (swig_pdas : List Bytes) (handle_unbalanced : Bool)
      (ix : SolInstruction) (t : Table)
      → HasKeys t.store ix.accounts
      → Known t t.hashmap
      → One t ix (compact_one swig_account swig_pdas handle_unbalanced ix t)
  unfolding compact_one readonly
  compact_one-One swig_account swig_pdas handle_unbalanced ix t h known =
      let program = readonly ix.program in
      let first = Extends-push program t in
      let a =
        add_accounts-Added swig_pdas ix.accounts (push program t)
          (HasKeys-Extends ix.accounts first h) (Known-pushed program t known) in
      let later =
        unbalanced-Later swig_account handle_unbalanced (is_sync_native ix) a.after a.known in
      let appended = unbalanced swig_account handle_unbalanced (is_sync_native ix) a.after in
      record {
        after = appended.0;
        compact = record {
          program_id_index = length t.accounts;
          accounts = a.indices ++ appended.1;
          ix_data = ix.ix_data;
        };
        result_is = rw (a.result_is) refl;
        extends = Extends-trans first (Extends-trans a.extends later.extends);
        known = later.known;
        stands = (
          key_of-Extends (length t.accounts) (Extends-trans a.extends later.extends)
              (push_key program t),
          (
            a.indices,
            appended.1,
            refl,
            Resolved-later t.store ix.accounts a.indices h later.extends
                (Resolved-earlier a.after ix.accounts a.indices h first a.resolved),
          ),
          refl,
        );
      }

  StandForAll-earlier :
      {s t : Table} (u : Table) (ixs : List SolInstruction) (cs : List CompactInstruction)
      → All (λ ix. HasKeys s.store ix.accounts) ixs
      → Extends s t
      → StandForAll t.store u ixs cs
      → StandForAll s.store u ixs cs
  StandForAll-earlier u [] [] h f p = tt
  StandForAll-earlier u [] (c ∷ cs) h f p = elim p [ ]
  StandForAll-earlier u (ix ∷ ixs) [] h f p = elim p [ ]
  StandForAll-earlier u (ix ∷ ixs) (c ∷ cs) h f ((program, (is, extra, split, r), d), rest) = (
    (program, (is, extra, split, Resolved-earlier u ix.accounts is h.0 f r), d),
    StandForAll-earlier u ixs cs h.1 f rest,
  )

  StandsFor-later :
      (store : List SolAccountMeta) {t u : Table} (ix : SolInstruction) (c : CompactInstruction)
      → HasKeys store ix.accounts
      → Extends t u
      → StandsFor store t ix c
      → StandsFor store u ix c
  StandsFor-later store ix c h f (program, (is, extra, split, r), d) = (
    key_of-Extends c.program_id_index f program,
    (is, extra, split, Resolved-later store ix.accounts is h f r),
    d,
  )

  pub record Whole (s : Table) (ixs : List SolInstruction)
      (result : Option (Table × List CompactInstruction)) : Type 0 where
    pub after : Table
    pub compact_ixs : List CompactInstruction
    pub result_is : result ≡ some (after, compact_ixs)
    pub extends : Extends s after
    pub stand : StandForAll s.store after ixs compact_ixs

  pub All-HasKeys-Extends :
      {s t : Table} (ixs : List SolInstruction)
      → Extends s t
      → All (λ ix. HasKeys s.store ix.accounts) ixs
      → All (λ ix. HasKeys t.store ix.accounts) ixs
  All-HasKeys-Extends [] f h = tt
  All-HasKeys-Extends (ix ∷ ixs) f h =
      (HasKeys-Extends ix.accounts f h.0, All-HasKeys-Extends ixs f h.1)

  pub compact_loop-Whole :
      (swig_account : Bytes) (swig_pdas : List Bytes) (handle_unbalanced : Bool)
      (ixs : List SolInstruction) (t : Table)
      → All (λ ix. HasKeys t.store ix.accounts) ixs
      → Known t t.hashmap
      → Whole t ixs (compact_loop swig_account swig_pdas handle_unbalanced ixs t)
  unfolding compact_loop
  compact_loop-Whole swig_account swig_pdas handle_unbalanced [] t h known = record {
    after = t;
    compact_ixs = [];
    result_is = refl;
    extends = Extends-refl t;
    stand = tt;
  }
  compact_loop-Whole swig_account swig_pdas handle_unbalanced (ix ∷ ixs) t h known =
      let o = compact_one-One swig_account swig_pdas handle_unbalanced ix t h.0 known in
      let w =
        compact_loop-Whole swig_account swig_pdas (is_transfer ix) ixs o.after
          (All-HasKeys-Extends ixs o.extends h.1) o.known in
      record {
        after = w.after;
        compact_ixs = o.compact ∷ w.compact_ixs;
        result_is = rw (o.result_is, w.result_is) refl;
        extends = Extends-trans o.extends w.extends;
        stand = (
          StandsFor-later t.store ix o.compact h.0 w.extends o.stands,
          StandForAll-earlier w.after ixs w.compact_ixs h.1 o.extends w.stand,
        );
      }
