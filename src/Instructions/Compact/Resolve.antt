-- ===== src/Instructions/Compact/Resolve.antt =====
-- Every compact instruction names the accounts of the instruction that it stands for.
use swig_protocol_sdk.Common.{
  ℕ, ◌<◌, ◌≡◌, refl, sym, ◌∙◌, true, not, ◌||◌, Option, some, List, [], ◌∷◌, ◌++◌, Bytes, length,
  All, get_elem?-length, Bool-cases, inl, inr, arith, get_elem?-lt,
}
use swig_protocol_sdk.Kit.{Kit}
use swig_protocol_sdk.Instructions.Compact.{
  SolAccountMeta, SolInstruction, Table, push, add_accounts,
}
use swig_protocol_sdk.Coder.CompactInstructions.{CompactInstruction}
use swig_protocol_sdk.Instructions.Compact.Extends.{
  is_writable, writable_of, key_at, key_of, Extends, Extends-refl, Extends-trans, Extends-push,
  key_of-Extends, writable_of-Extends, Known, Known-Extends,
}
use swig_protocol_sdk.Instructions.Compact.Place.{add_account-Placed}

-- Places in the store.
abbrev pub Valid : List SolAccountMeta → List ℕ → Type 0
Valid store = All (λ r. r < length store)

module _ ⦃kit : Kit⦄ where
  -- Each index leads to a combined account with the key of the account, and to a writable one where
  -- the account is writable.
  abbrev pub Resolved : List SolAccountMeta → Table → List ℕ → List ℕ → Type 0
  Resolved store t [] [] = Unit
  Resolved store t [] (i ∷ is) = ⊥
  Resolved store t (r ∷ rs) [] = ⊥
  Resolved store t (r ∷ rs) (i ∷ is) =
      (key_of t i ≡ key_at store r)
      × ((not (is_writable store r) || writable_of t i) ≡ true)
      × Resolved store t rs is

  -- What a compact instruction says of the instruction `ix`: its program, its accounts in order with
  -- others behind them, and its data.
  abbrev pub StandsFor : List SolAccountMeta → Table → SolInstruction → CompactInstruction → Type 0
  StandsFor store t ix c =
      (key_of t c.program_id_index ≡ some (kit.base58 ix.program))
      × ((is : List ℕ) × (extra : List ℕ) × (c.accounts ≡ is ++ extra)
          × Resolved store t ix.accounts is)
      × (c.ix_data ≡ ix.ix_data)

  abbrev pub StandForAll :
      List SolAccountMeta → Table → List SolInstruction → List CompactInstruction → Type 0
  StandForAll store t [] [] = Unit
  StandForAll store t [] (c ∷ cs) = ⊥
  StandForAll store t (ix ∷ ixs) [] = ⊥
  StandForAll store t (ix ∷ ixs) (c ∷ cs) = StandsFor store t ix c × StandForAll store t ixs cs

  abbrev pub HasKeys : List SolAccountMeta → List ℕ → Type 0
  HasKeys store = All (λ r. (k : Bytes) × (key_at store r ≡ some k))

  pub Valid-HasKeys :
      (store : List SolAccountMeta) (rs : List ℕ) → Valid store rs → HasKeys store rs
  Valid-HasKeys store [] v = tt
  Valid-HasKeys store (r ∷ rs) v =
      let (meta, found) = get_elem?-lt store r v.0 in
      ((kit.base58 meta.public_key, rw (found, key_at) refl), Valid-HasKeys store rs v.1)

  pub HasKeys-Extends :
      {s t : Table} (rs : List ℕ) → Extends s t → HasKeys s.store rs → HasKeys t.store rs
  HasKeys-Extends [] f h = tt
  HasKeys-Extends (r ∷ rs) f h = ((h.0.0, f.keys_kept r h.0.0 h.0.1), HasKeys-Extends rs f h.1)

  -- Later tables resolve the same.
  pub Resolved-later :
      (store : List SolAccountMeta) {t u : Table} (rs is : List ℕ)
      → HasKeys store rs
      → Extends t u
      → Resolved store t rs is
      → Resolved store u rs is
  Resolved-later store [] [] h f p = tt
  Resolved-later store [] (i ∷ is) h f p = elim p [ ]
  Resolved-later store (r ∷ rs) [] h f p = elim p [ ]
  Resolved-later store {t} {u} (r ∷ rs) (i ∷ is) h f p = (
    key_of-Extends i f (p.0 ∙ h.0.1) ∙ sym (h.0.1),
    elim (Bool-cases (writable_of t i)) [
      | inl w ↦ ground (arith, writable_of-Extends i f w)
      | inr w ↦ ground (arith, w, p.1)
    ],
    Resolved-later store rs is h.1 f p.2,
  )

  -- What is resolved for later objects is so for the earlier ones.
  pub Resolved-earlier :
      {s t : Table} (u : Table) (rs is : List ℕ)
      → HasKeys s.store rs
      → Extends s t
      → Resolved t.store u rs is
      → Resolved s.store u rs is
  Resolved-earlier u [] [] h f p = tt
  Resolved-earlier u [] (i ∷ is) h f p = elim p [ ]
  Resolved-earlier u (r ∷ rs) [] h f p = elim p [ ]
  Resolved-earlier {s} {t} u (r ∷ rs) (i ∷ is) h f p = (
    p.0 ∙ f.keys_kept r h.0.0 h.0.1 ∙ sym (h.0.1),
    elim (Bool-cases (is_writable s.store r)) [
      | inl w ↦ ground (arith, f.writable_kept r w, p.1)
      | inr w ↦ ground (arith, w)
    ],
    Resolved-earlier u rs is h.1 f p.2,
  )

  pub record Added (s : Table) (rs : List ℕ) (result : Option (Table × List ℕ)) : Type 0 where
    pub after : Table
    pub indices : List ℕ
    pub result_is : result ≡ some (after, indices)
    pub extends : Extends s after
    pub known : Known after after.hashmap
    pub resolved : Resolved s.store after rs indices

  pub add_accounts-Added :
      (swig_pdas : List Bytes) (rs : List ℕ) (t : Table)
      → HasKeys t.store rs
      → Known t t.hashmap
      → Added t rs (add_accounts swig_pdas rs t)
  unfolding add_accounts
  add_accounts-Added swig_pdas [] t h known = record {
    after = t;
    indices = [];
    result_is = refl;
    extends = Extends-refl t;
    known = known;
    resolved = tt;
  }
  add_accounts-Added swig_pdas (r ∷ rs) t h known =
      let p = add_account-Placed swig_pdas r t h.0.1 known in
      let a = add_accounts-Added swig_pdas rs p.after (HasKeys-Extends rs p.extends h.1) p.known in
      record {
        after = a.after;
        indices = p.index ∷ a.indices;
        result_is = rw (p.result_is, a.result_is) refl;
        extends = Extends-trans p.extends a.extends;
        known = a.known;
        resolved = (
          key_of-Extends p.index a.extends p.key_kept ∙ sym (h.0.1),
          elim (Bool-cases (writable_of p.after p.index)) [
            | inl w ↦ ground (arith, writable_of-Extends p.index a.extends w)
            | inr w ↦ ground (arith, w, p.writable_kept)
          ],
          Resolved-earlier a.after rs a.indices h.1 p.extends a.resolved,
        );
      }

  pub push_key :
      (meta : SolAccountMeta) (t : Table)
      → key_of (push meta t) (length t.accounts) ≡ some (kit.base58 meta.public_key)
  unfolding push
  push_key meta t =
      rw
        (
          get_elem?-length t.accounts [] (length t.store),
          key_of,
          get_elem?-length t.store [] meta,
          key_at,
        )
        refl

  -- The map keeps true when an object is pushed.
  pub push-Known :
      (meta : SolAccountMeta) (t : Table) → Known t t.hashmap → Known (push meta t) t.hashmap
  push-Known meta t known = Known-Extends t.hashmap (Extends-push meta t) known
