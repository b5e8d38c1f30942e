-- ===== src/Instructions/Compact/Extends.antt =====
-- What the compaction of instructions never changes: the combined accounts only grow, no object
-- changes its key, and none that is writable stops being so.
use swig_protocol_sdk.Common.{
  ℕ, ◌≡◌, refl, sym, ◌∙◌, Bool, true, false, not, ◌||◌, Option, none, some, List, [], ◌∷◌, ◌++◌,
  append-nil, append_assoc, Bytes, length, get_elem?, set, All, get_elem?-append, get_elem?-set,
  bytes_equal, bytes_equal_iff, Bool-cases, inl, inr, Option-cases, arith, ==_iff,
}
use swig_protocol_sdk.Kit.{Kit}
use swig_protocol_sdk.Instructions.Compact.{SolAccountMeta, Table, lookup, push}

-- Whether the object at a place is writable.
abbrev pub is_writable : List SolAccountMeta → ℕ → Bool
is_writable store r = elim (get_elem? store r) [ none ↦ false | some meta ↦ meta.writable ]

-- Whether the combined account at an index is writable.
abbrev pub writable_of : Table → ℕ → Bool
writable_of t i = elim (get_elem? t.accounts i) [ none ↦ false | some r ↦ is_writable t.store r ]

module _ ⦃kit : Kit⦄ where
  -- The text of the key of the object at a place.
  abbrev pub key_at : List SolAccountMeta → ℕ → Option Bytes
  key_at store r = elim (get_elem? store r) [
    | none ↦ none
    | some meta ↦ some (kit.base58 meta.public_key)
  ]

  -- The text of the key of the combined account at an index.
  abbrev pub key_of : Table → ℕ → Option Bytes
  key_of t i = elim (get_elem? t.accounts i) [ none ↦ none | some r ↦ key_at t.store r ]

  pub record Extends (s t : Table) : Type 0 where
    pub more : List ℕ
    pub accounts_kept : t.accounts ≡ s.accounts ++ more
    pub keys_kept : (r : ℕ) (k : Bytes) → key_at s.store r ≡ some k → key_at t.store r ≡ some k
    pub writable_kept : (r : ℕ) → is_writable s.store r ≡ true → is_writable t.store r ≡ true

  pub Extends-refl : (t : Table) → Extends t t
  Extends-refl t = record {
    more = [];
    accounts_kept = sym (append-nil t.accounts);
    keys_kept = λ r k e. e;
    writable_kept = λ r e. e;
  }

  pub Extends-trans : {s t u : Table} → Extends s t → Extends t u → Extends s u
  Extends-trans {s} {t} {u} f g = record {
    more = f.more ++ g.more;
    accounts_kept = g.accounts_kept ∙ rw (f.accounts_kept) (append_assoc s.accounts f.more g.more);
    keys_kept = λ r k e. g.keys_kept r k (f.keys_kept r k e);
    writable_kept = λ r e. g.writable_kept r (f.writable_kept r e);
  }

  pub key_of-Extends :
      {s t : Table} (i : ℕ) {k : Bytes} → Extends s t → key_of s i ≡ some k → key_of t i ≡ some k
  key_of-Extends {s} {t} i {k} f e = elim (Option-cases (get_elem? s.accounts i)) [
    | inl missing ↦ absurd (ground (arith, missing, e))
    | inr (r, found) ↦
        let there : get_elem? t.accounts i ≡ some r =
          rw (f.accounts_kept) (get_elem?-append s.accounts f.more i found) in
        rw (there, key_of) (f.keys_kept r k (rw (found, key_of) at e))
  ]

  pub writable_of-Extends :
      {s t : Table} (i : ℕ) → Extends s t → writable_of s i ≡ true → writable_of t i ≡ true
  writable_of-Extends {s} {t} i f e = elim (Option-cases (get_elem? s.accounts i)) [
    | inl missing ↦ absurd (ground (arith, missing, e))
    | inr (r, found) ↦
        let there : get_elem? t.accounts i ≡ some r =
          rw (f.accounts_kept) (get_elem?-append s.accounts f.more i found) in
        rw (there, writable_of) (f.writable_kept r (rw (found, writable_of) at e))
  ]

  key_at-append :
      (store new : List SolAccountMeta) (r : ℕ) {k : Bytes}
      → key_at store r ≡ some k
      → key_at (store ++ new) r ≡ some k
  key_at-append store new r {k} e = elim (Option-cases (get_elem? store r)) [
    | inl missing ↦ absurd (ground (arith, missing, e))
    | inr (meta, found) ↦ rw (get_elem?-append store new r found, key_at) (rw (found, key_at) at e)
  ]

  is_writable-append :
      (store new : List SolAccountMeta) (r : ℕ)
      → is_writable store r ≡ true
      → is_writable (store ++ new) r ≡ true
  is_writable-append store new r e = elim (Option-cases (get_elem? store r)) [
    | inl missing ↦ absurd (ground (arith, missing, e))
    | inr (meta, found) ↦
        rw (get_elem?-append store new r found, is_writable) (rw (found, is_writable) at e)
  ]

  -- A new object at the end of both.
  pub Extends-push : (meta : SolAccountMeta) (t : Table) → Extends t (push meta t)
  unfolding push
  Extends-push meta t = record {
    more = length t.store ∷ [];
    accounts_kept = refl;
    keys_kept = λ r k e. key_at-append t.store (meta ∷ []) r e;
    writable_kept = λ r e. is_writable-append t.store (meta ∷ []) r e;
  }

  -- An object changed in place.
  pub Extends-set :
      (t : Table) (r : ℕ) (old new : SolAccountMeta)
      → get_elem? t.store r ≡ some old
      → new.public_key ≡ old.public_key
      → (not old.writable || new.writable) ≡ true
      → Extends t (record t { store = set t.store r new })
  Extends-set t r old new e same kept = record {
    more = [];
    accounts_kept = sym (append-nil t.accounts);
    keys_kept = λ q k h. ground (arith, get_elem?-set t.store r q new e, ==_iff r q, same, h, e);
    writable_kept = λ q h. ground (arith, get_elem?-set t.store r q new e, ==_iff r q, kept, h, e);
  }

  -- The keys in the map stand where it says.
  abbrev pub Known : Table → List (Bytes × ℕ) → Type 0
  Known t = All (λ p. key_of t p.1 ≡ some p.0)

  pub Known-Extends :
      {s t : Table} (hashmap : List (Bytes × ℕ)) → Extends s t → Known s hashmap → Known t hashmap
  Known-Extends [] f h = tt
  Known-Extends (p ∷ rest) f h = (key_of-Extends p.1 f h.0, Known-Extends rest f h.1)

  pub lookup-Known :
      (t : Table) (key : Bytes) (hashmap : List (Bytes × ℕ)) {i : ℕ}
      → Known t hashmap
      → lookup key hashmap ≡ some i
      → key_of t i ≡ some key
  unfolding lookup
  lookup-Known t key [] h e = cc
  lookup-Known t key ((k, j) ∷ rest) {i} h e = elim (Bool-cases (bytes_equal k key)) [
    | inl yes' ↦
        let same : k ≡ key = (bytes_equal_iff k key).0 yes' in
        let at : j ≡ i = ground (arith, yes', e) in rw (← same, ← at) (h.0)
    | inr no' ↦ lookup-Known t key rest h.1 (rw no' at e)
  ]
