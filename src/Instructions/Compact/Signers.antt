-- ===== src/Instructions/Compact/Signers.antt =====
-- That an object with the key of an address of the wallet is no signer, step by step.
use swig_protocol_sdk.Common.{
  ℕ, zero, suc, ◌≡◌, refl, ap, ◌==◌, Bool, false, ◌&&◌, any, bytes_equal, Bool-cases, Option-cases,
  inl, inr, Option, none, some, List, [], ◌∷◌, ◌++◌, Bytes, get_elem?, set, All, All-append,
  map-All, get_elem?-All, get_elem?-set, arith, ==_refl,
}
use swig_protocol_sdk.Kit.{Kit}
use swig_protocol_sdk.Instructions.Compact.{
  SolAccountMeta, Table, lookup, upgrade, unsign, place, add_account,
}
use swig_protocol_sdk.Instructions.Compact.Extends.{
  Extends, Extends-set, Known, Known-Extends, lookup-Known,
}
use swig_protocol_sdk.Instructions.Compact.Place.{key_of-found, unsign_keeps}

module _ ⦃kit : Kit⦄ (swig_pdas : List Bytes) where
  -- Whether a meta has the key of one of the wallet's addresses, and is to sign.
  abbrev pub pda_signs : SolAccountMeta → Bool
  pda_signs meta =
      any (λ pda. bytes_equal (kit.base58 pda) (kit.base58 meta.public_key)) swig_pdas
      && meta.signer

  abbrev pub pda_signs_at : List SolAccountMeta → ℕ → Bool
  pda_signs_at store r = elim (get_elem? store r) [ none ↦ false | some meta ↦ pda_signs meta ]

  -- None of the combined accounts does.
  abbrev pub Unsigned : Table → Type 0
  Unsigned t = All (λ r. pda_signs_at t.store r ≡ false) t.accounts

  abbrev pub UnsignedResult : {A : Type 0} → Option (Table × A) → Type 0
  UnsignedResult none = Unit
  UnsignedResult (some (t, a)) = Unsigned t

  unsign_signs : (meta : SolAccountMeta) → pda_signs (unsign swig_pdas meta) ≡ false
  unfolding unsign
  unsign_signs meta = ground arith

  -- Equal texts.
  upgrade_signs :
      (meta existing : SolAccountMeta)
      → kit.base58 existing.public_key ≡ kit.base58 meta.public_key
      → pda_signs meta ≡ false
      → pda_signs existing ≡ false
      → pda_signs (upgrade meta existing) ≡ false
  unfolding upgrade
  upgrade_signs meta existing e h h' =
      let same = ap (λ text. any (λ pda. bytes_equal (kit.base58 pda) text) swig_pdas) e in
      ground (arith, same, h, h')

  signs_set :
      (store : List SolAccountMeta) (r q : ℕ) (new : SolAccountMeta) {old : SolAccountMeta}
      → get_elem? store r ≡ some old
      → pda_signs new ≡ false
      → pda_signs_at store q ≡ false
      → pda_signs_at (set store r new) q ≡ false
  signs_set store r q new e h h' = elim (Bool-cases (r == q)) [
    | inl same ↦ rw (get_elem?-set store r q new e, same, pda_signs_at) h
    | inr other ↦ rw (get_elem?-set store r q new e, other, pda_signs_at) h'
  ]

  pub signs_append :
      (store : List SolAccountMeta) (new : SolAccountMeta) (r : ℕ)
      → new.signer ≡ false
      → pda_signs_at store r ≡ false
      → pda_signs_at (store ++ new ∷ []) r ≡ false
  signs_append [] new zero h h' = ground (arith, h)
  signs_append [] new (suc r) h h' = refl
  signs_append (x ∷ store) new zero h h' = h'
  signs_append (x ∷ store) new (suc r) h h' = signs_append store new r h h'

  place-Unsigned :
      (r : ℕ) (meta : SolAccountMeta) (t : Table)
      → get_elem? t.store r ≡ some meta
      → pda_signs meta ≡ false
      → Known t t.hashmap
      → Unsigned t
      → UnsignedResult (place r meta (lookup (kit.base58 meta.public_key) t.hashmap) t)
  unfolding place
  place-Unsigned r meta t found h known u =
      elim (Option-cases (lookup (kit.base58 meta.public_key) t.hashmap)) [
        | inl e ↦ rw e (
            All-append (λ r. pda_signs_at t.store r ≡ false) t.accounts (r ∷ []) u
              (rw (found, pda_signs_at) h, tt))
        | inr (i, e) ↦
            let key = lookup-Known t (kit.base58 meta.public_key) t.hashmap known e in
            let (q, existing, at, there) = key_of-found t i key in
            let text : kit.base58 existing.public_key ≡ kit.base58 meta.public_key =
              ground (arith, key, at, there) in
            let old : pda_signs existing ≡ false =
              rw (there, pda_signs_at) at
                (get_elem?-All (λ r. pda_signs_at t.store r ≡ false) t.accounts i u at) in
            rw (e, at, there)
              (map-All (λ r. pda_signs_at t.store r ≡ false)
                (λ r. pda_signs_at (set t.store q (upgrade meta existing)) r ≡ false) t.accounts
                (λ p hp.
                  signs_set t.store q p (upgrade meta existing) there
                    (upgrade_signs meta existing text h old) hp)
                u)
      ]

  pub add_account-Unsigned :
      (r : ℕ) (t : Table)
      → Known t t.hashmap
      → Unsigned t
      → UnsignedResult (add_account swig_pdas r t)
  unfolding add_account
  add_account-Unsigned r t known u = elim (Option-cases (get_elem? t.store r)) [
    | inl missing ↦ rw missing tt
    | inr (meta, found) ↦
        let m = unsign swig_pdas meta in
        let (same, writable) = unsign_keeps swig_pdas meta in
        let first : Extends t (record t { store = set t.store r m }) =
          Extends-set t r meta m found same (ground (arith, writable)) in
        let there : get_elem? (set t.store r m) r ≡ some m =
          ground (arith, get_elem?-set t.store r r m found, ==_refl r) in
        rw found (
          place-Unsigned r m (record t { store = set t.store r m }) there (unsign_signs meta)
            (Known-Extends t.hashmap first known)
            (map-All (λ r. pda_signs_at t.store r ≡ false)
              (λ q. pda_signs_at (set t.store r m) q ≡ false) t.accounts
              (λ q hq. signs_set t.store r q m found (unsign_signs meta) hq) u))
  ]
