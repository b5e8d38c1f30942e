-- ===== src/Instructions/Compact/Place.antt =====
-- The place that an instruction's account gets in the combined accounts.
use swig_protocol_sdk.Common.{
  ℕ, ◌≡◌, refl, ap, ◌∙◌, ==_refl, true, not, ◌||◌, Option, none, some, List, [], ◌∷◌, ◌++◌, Bytes,
  length, get_elem?, set, get_elem?-length, get_elem?-set, inl, inr, Option-cases, arith,
}
use swig_protocol_sdk.Kit.{Kit}
use swig_protocol_sdk.Instructions.Compact.{
  SolAccountMeta, Table, lookup, upgrade, unsign, place, add_account,
}
use swig_protocol_sdk.Instructions.Compact.Extends.{
  is_writable, writable_of, key_at, key_of, Extends, Extends-trans, Extends-set, key_of-Extends,
  Known, Known-Extends, lookup-Known,
}

pub upgrade_keeps :
    (a x : SolAccountMeta)
    → ((upgrade a x).public_key ≡ x.public_key)
      × ((not x.writable || (upgrade a x).writable) ≡ true)
      × ((not a.writable || (upgrade a x).writable) ≡ true)
unfolding upgrade
upgrade_keeps a x = ground arith

module _ ⦃kit : Kit⦄ where
  pub unsign_keeps :
      (swig_pdas : List Bytes) (meta : SolAccountMeta)
      → ((unsign swig_pdas meta).public_key ≡ meta.public_key)
        × ((unsign swig_pdas meta).writable ≡ meta.writable)
  unfolding unsign
  unsign_keeps swig_pdas meta = ground arith

  pub key_of-found :
      (t : Table) (i : ℕ) {k : Bytes}
      → key_of t i ≡ some k
      → (r : ℕ) × (meta : SolAccountMeta) × (get_elem? t.accounts i ≡ some r)
        × (get_elem? t.store r ≡ some meta)
  key_of-found t i e = elim (Option-cases (get_elem? t.accounts i)) [
    | inl missing ↦ absurd (ground (arith, missing, e))
    | inr (r, found) ↦ elim (Option-cases (get_elem? t.store r)) [
      | inl missing ↦ absurd (ground (arith, found, missing, e))
      | inr (meta, there) ↦ (r, meta, found, there)
    ]
  ]

  -- The account of place `r`, whose key is `key`, has got an index.
  pub record Placed (s : Table) (r : ℕ) (key : Bytes) (result : Option (Table × ℕ)) : Type 0 where
    pub after : Table
    pub index : ℕ
    pub result_is : result ≡ some (after, index)
    pub extends : Extends s after
    pub known : Known after after.hashmap
    pub key_kept : key_of after index ≡ some key
    pub writable_kept : (not (is_writable s.store r) || writable_of after index) ≡ true

  -- A new account.
  place_new :
      (r : ℕ) (meta : SolAccountMeta) (t : Table)
      → get_elem? t.store r ≡ some meta
      → Known t t.hashmap
      → Placed t r (kit.base58 meta.public_key) (place r meta none t)
  unfolding place
  place_new r meta t found known =
      let after : Table = record {
        store = t.store;
        accounts = t.accounts ++ r ∷ [];
        hashmap = (kit.base58 meta.public_key, length t.accounts) ∷ t.hashmap;
      } in
      let extends : Extends t after = record {
        more = r ∷ [];
        accounts_kept = refl;
        keys_kept = λ q k e. e;
        writable_kept = λ q e. e;
      } in
      let key : key_of after (length t.accounts) ≡ some (kit.base58 meta.public_key) =
        rw (get_elem?-length t.accounts [] r, key_of, found, key_at) refl in
      record {
        after = after;
        index = length t.accounts;
        result_is = refl;
        extends = extends;
        known = (key, Known-Extends t.hashmap extends known);
        key_kept = key;
        writable_kept = ground (arith, get_elem?-length t.accounts [] r, found);
      }

  -- An account that is known.
  place-Known :
      (r i : ℕ) (meta : SolAccountMeta) (t : Table)
      → get_elem? t.store r ≡ some meta
      → Known t t.hashmap
      → key_of t i ≡ some (kit.base58 meta.public_key)
      → Placed t r (kit.base58 meta.public_key) (place r meta (some i) t)
  unfolding place
  place-Known r i meta t found known key =
      let (e, existing, at, there) = key_of-found t i key in
      let (same, monotone, taken) = upgrade_keeps meta existing in
      let extends = Extends-set t e existing (upgrade meta existing) there same monotone in
      record {
        after = record t { store = set t.store e (upgrade meta existing) };
        index = i;
        result_is = rw (at, there) refl;
        extends = extends;
        known = Known-Extends t.hashmap extends known;
        key_kept = key_of-Extends i extends key;
        writable_kept = ground (
          arith,
          found,
          at,
          taken,
          get_elem?-set t.store e e (upgrade meta existing) there,
          ==_refl e,
        );
      }

  place_any :
      (r : ℕ) (meta : SolAccountMeta) (t : Table)
      → get_elem? t.store r ≡ some meta
      → Known t t.hashmap
      → Placed t r
          (kit.base58 meta.public_key)
          (place r meta (lookup (kit.base58 meta.public_key) t.hashmap) t)
  place_any r meta t found known =
      elim (Option-cases (lookup (kit.base58 meta.public_key) t.hashmap)) [
        | inl e ↦ rw e (place_new r meta t found known)
        | inr (i, e) ↦ rw e (
            place-Known r i meta t found known
              (lookup-Known t (kit.base58 meta.public_key) t.hashmap known e))
      ]

  pub add_account-Placed :
      (swig_pdas : List Bytes) (r : ℕ) (t : Table) {key : Bytes}
      → key_at t.store r ≡ some key
      → Known t t.hashmap
      → Placed t r key (add_account swig_pdas r t)
  unfolding add_account
  add_account-Placed swig_pdas r t {key} e known = elim (Option-cases (get_elem? t.store r)) [
    | inl missing ↦ absurd (ground (arith, missing, e))
    | inr (meta, found) ↦
        let m = unsign swig_pdas meta in
        let (same, writable) = unsign_keeps swig_pdas meta in
        let first : Extends t (record t { store = set t.store r m }) =
          Extends-set t r meta m found same (ground (arith, writable)) in
        let there : get_elem? (set t.store r m) r ≡ some m =
          ground (arith, get_elem?-set t.store r r m found, ==_refl r) in
        let p =
          place_any r m (record t { store = set t.store r m }) there
            (Known-Extends t.hashmap first known) in
        let text : kit.base58 m.public_key ≡ key = ground (arith, same, found, e) in
        record {
          after = p.after;
          index = p.index;
          result_is = rw found (p.result_is);
          extends = Extends-trans first p.extends;
          known = p.known;
          key_kept = p.key_kept ∙ ap some text;
          writable_kept = ground (arith, found, there, writable, p.writable_kept);
        }
  ]
