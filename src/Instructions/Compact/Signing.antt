-- ===== src/Instructions/Compact/Signing.antt =====
-- An object that no inner instruction names keeps signing.
use swig_protocol_sdk.Common.{
  ℕ, ◌≡◌, ◌≢◌, ◌==◌, ==_iff, Bool, true, false, Bool-cases, Option-cases, inl, inr, Option, none,
  some, List, [], ◌∷◌, ◌++◌, Bytes, get_elem?, set, get_elem?-append, get_elem?-set, arith,
}
use swig_protocol_sdk.Kit.{Kit}
use swig_protocol_sdk.Instructions.Compact.Preserve.{After, Kept}
use swig_protocol_sdk.Instructions.Compact.{
  SolAccountMeta, Table, lookup, readonly, push, upgrade, unsign, place, add_account,
}

-- Whether the object at a place is to sign.
abbrev pub signs_at : List SolAccountMeta → ℕ → Bool
signs_at store q = elim (get_elem? store q) [ none ↦ false | some meta ↦ meta.signer ]

signs-append :
    (store new : List SolAccountMeta) (q : ℕ)
    → signs_at store q ≡ true
    → signs_at (store ++ new) q ≡ true
signs-append store new q h = elim (Option-cases (get_elem? store q)) [
  | inl missing ↦ absurd (ground (arith, missing, h))
  | inr (meta, found) ↦
      rw (get_elem?-append store new q found, signs_at) (rw (found, signs_at) at h)
]

signs-set_other :
    (store : List SolAccountMeta) (r q : ℕ) (new : SolAccountMeta) {old : SolAccountMeta}
    → get_elem? store r ≡ some old
    → r ≢ q
    → signs_at store q ≡ true
    → signs_at (set store r new) q ≡ true
signs-set_other store r q new e ne h = elim (Bool-cases (r == q)) [
  | inl same ↦ absurd (ne ((==_iff r q).0 same))
  | inr other ↦ rw (get_elem?-set store r q new e, other, signs_at) h
]

signs-set_upgraded :
    (store : List SolAccountMeta) (r q : ℕ) (meta : SolAccountMeta) {old : SolAccountMeta}
    → get_elem? store r ≡ some old
    → signs_at store q ≡ true
    → signs_at (set store r (upgrade meta old)) q ≡ true
unfolding upgrade
signs-set_upgraded store r q meta {old} e h = elim (Bool-cases (r == q)) [
  | inl same ↦
      let k : r ≡ q = (==_iff r q).0 same in
      let s : old.signer ≡ true = ground (arith, k, e, h) in
      rw (get_elem?-set store r q (upgrade meta old) e, same, signs_at) (ground (arith, s))
  | inr other ↦ rw (get_elem?-set store r q (upgrade meta old) e, other, signs_at) h
]

-- The object at `q` still signs, where no inner instruction names it.
abbrev pub Signs : ℕ → Table → Type 0
Signs q t = signs_at t.store q ≡ true

module _ ⦃kit : Kit⦄ (swig_pdas : List Bytes) (q : ℕ) where
  place-Signs :
      (r : ℕ) (meta : SolAccountMeta) (o : Option ℕ) (t : Table)
      → Signs q t
      → After (Signs q) (place r meta o t)
  unfolding place
  place-Signs r meta none t h = h
  place-Signs r meta (some i) t h = elim (Option-cases (get_elem? t.accounts i)) [
    | inl e ↦ rw e tt
    | inr (e, at) ↦ elim (Option-cases (get_elem? t.store e)) [
      | inl missing ↦ rw (at, missing) tt
      | inr (existing, there) ↦ rw (at, there) (signs-set_upgraded t.store e q meta there h)
    ]
  ]

  add_account-Signs :
      (r : ℕ) (t : Table) → r ≢ q → Signs q t → After (Signs q) (add_account swig_pdas r t)
  unfolding add_account
  add_account-Signs r t ne h = elim (Option-cases (get_elem? t.store r)) [
    | inl missing ↦ rw missing tt
    | inr (meta, found) ↦ rw found (
        place-Signs r (unsign swig_pdas meta)
          (lookup (kit.base58 (unsign swig_pdas meta).public_key) t.hashmap)
          (record t { store = set t.store r (unsign swig_pdas meta) })
          (signs-set_other t.store r q (unsign swig_pdas meta) found ne h))
  ]

  pub Kept-Signs : Kept swig_pdas (Signs q) (λ r. r ≢ q)
  unfolding push
  Kept-Signs = record {
    account = add_account-Signs;
    pushed = λ key t h. signs-append t.store (readonly key ∷ []) q h;
    hashed = λ hashmap t h. h;
  }
