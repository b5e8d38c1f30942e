-- ===== src/Instructions/Compact/Remembered.antt =====
-- A key that the map knows stays known, and the map knows the accounts that it is made of.
use swig_protocol_sdk.Common.{
  ℕ, zero, suc, ◌+◌, ◌≡◌, ◌≢◌, refl, Option-cases, inl, inr, Option, none, some, List, [], ◌∷◌,
  Bytes, length, get_elem?, set, bytes_equal_iff, arith,
}
use swig_protocol_sdk.Kit.{Kit}
use swig_protocol_sdk.Instructions.Compact.{
  SolAccountMeta, Table, lookup, push, unsign, place, add_account, hashmap_from,
}
use swig_protocol_sdk.Instructions.Compact.Extends.{key_at}
use swig_protocol_sdk.Instructions.Compact.Preserve.{After, Kept}

-- The map knows the key.
abbrev pub Remembers : Bytes → Table → Type 0
Remembers key t = lookup key t.hashmap ≢ none

lookup-cons :
    (key k : Bytes) (i : ℕ) (hashmap : List (Bytes × ℕ))
    → lookup key hashmap ≢ none
    → lookup key ((k, i) ∷ hashmap) ≢ none
unfolding lookup
lookup-cons key k i hashmap h e = h (ground (arith, e))

lookup-here :
    (key : Bytes) (i : ℕ) (hashmap : List (Bytes × ℕ)) → lookup key ((key, i) ∷ hashmap) ≢ none
unfolding lookup
lookup-here key i hashmap e = let same = (bytes_equal_iff key key).1 refl in ground (arith, e, same)

module _ ⦃kit : Kit⦄ where
  place-Remembers :
      (key : Bytes) (r : ℕ) (meta : SolAccountMeta) (o : Option ℕ) (t : Table)
      → Remembers key t
      → After (Remembers key) (place r meta o t)
  unfolding place
  place-Remembers key r meta none t h =
      lookup-cons key (kit.base58 meta.public_key) (length t.accounts) t.hashmap h
  place-Remembers key r meta (some i) t h = elim (Option-cases (get_elem? t.accounts i)) [
    | inl e ↦ rw e tt
    | inr (e, at) ↦ elim (Option-cases (get_elem? t.store e)) [
      | inl missing ↦ rw (at, missing) tt
      | inr (existing, there) ↦ rw (at, there) h
    ]
  ]

  add_account-Remembers :
      (key : Bytes) (swig_pdas : List Bytes) (r : ℕ) (t : Table)
      → Remembers key t
      → After (Remembers key) (add_account swig_pdas r t)
  unfolding add_account
  add_account-Remembers key swig_pdas r t h = elim (Option-cases (get_elem? t.store r)) [
    | inl missing ↦ rw missing tt
    | inr (meta, found) ↦
        let m = unsign swig_pdas meta in
        rw found (
          place-Remembers key r m (lookup (kit.base58 m.public_key) t.hashmap)
            (record t { store = set t.store r m }) h)
  ]

  pub Kept-Remembers :
      (key : Bytes) (swig_pdas : List Bytes) → Kept swig_pdas (Remembers key) (λ r. Unit)
  Kept-Remembers key swig_pdas = record {
    account = λ r t ok h. add_account-Remembers key swig_pdas r t h;
    pushed = λ k t h. unfold push in h;
    hashed = λ k t h. lookup-cons key k (length t.accounts) t.hashmap h;
  }

  hashmap_from-keeps :
      (key : Bytes) (store : List SolAccountMeta) (rs : List ℕ) (i : ℕ)
      (hashmap result : List (Bytes × ℕ))
      → lookup key hashmap ≢ none
      → hashmap_from store rs i hashmap ≡ some result
      → lookup key result ≢ none
  unfolding hashmap_from
  hashmap_from-keeps key store [] i hashmap result h e =
      let e' : hashmap ≡ result = ground (arith, e) in rw e' at h
  hashmap_from-keeps key store (r ∷ rs) i hashmap result h e =
      elim (Option-cases (get_elem? store r)) [
        | inl missing ↦ absurd (ground (arith, missing, e))
        | inr (meta, found) ↦
            hashmap_from-keeps key store rs (i + 1) ((kit.base58 meta.public_key, i) ∷ hashmap)
              result (lookup-cons key (kit.base58 meta.public_key) i hashmap h) (rw found at e)
      ]

  pub hashmap_from-Remembers :
      (key : Bytes) (store : List SolAccountMeta) (rs : List ℕ) (i j r : ℕ)
      (hashmap result : List (Bytes × ℕ))
      → get_elem? rs j ≡ some r
      → key_at store r ≡ some key
      → hashmap_from store rs i hashmap ≡ some result
      → lookup key result ≢ none
  unfolding hashmap_from
  hashmap_from-Remembers key store [] i j r hashmap result at k e = absurd (cc)
  hashmap_from-Remembers key store (q ∷ rs) i zero r hashmap result at k e =
      elim (Option-cases (get_elem? store q)) [
        | inl missing ↦ absurd (ground (arith, missing, e))
        | inr (meta, found) ↦
            let q_is : q ≡ r = ground (arith, at) in
            let k_is : kit.base58 meta.public_key ≡ key =
              ground (arith, rw (← q_is, found, key_at) at k) in
            hashmap_from-keeps key store rs (i + 1) ((kit.base58 meta.public_key, i) ∷ hashmap)
              result (rw k_is (lookup-here key i hashmap)) (rw found at e)
      ]
  hashmap_from-Remembers key store (q ∷ rs) i (suc j) r hashmap result at k e =
      elim (Option-cases (get_elem? store q)) [
        | inl missing ↦ absurd (ground (arith, missing, e))
        | inr (meta, found) ↦
            hashmap_from-Remembers key store rs (i + 1) j r
              ((kit.base58 meta.public_key, i) ∷ hashmap) result at k (rw found at e)
      ]
