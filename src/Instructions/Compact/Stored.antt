-- ===== src/Instructions/Compact/Stored.antt =====
-- The combined accounts are places in the store.
use swig_protocol_sdk.Common.{
  ℕ, ◌≤◌, ◌<◌, Option-cases, inl, inr, Option, none, some, List, [], ◌∷◌, ◌++◌, Bytes, length,
  get_elem?, set, All-append, map-All, length-append, length-set, arith,
}
use swig_protocol_sdk.Kit.{Kit}
use swig_protocol_sdk.Instructions.Compact.{
  SolAccountMeta, Table, lookup, readonly, push, upgrade, unsign, place, add_account,
}
use swig_protocol_sdk.Instructions.Compact.Resolve.{Valid}
use swig_protocol_sdk.Instructions.Compact.Preserve.{After, Kept}

-- The store has at least `n` objects, and the accounts are among its objects.
abbrev pub Stored : ℕ → Table → Type 0
Stored n t = (n ≤ length t.store) × Valid t.store t.accounts

module _ ⦃kit : Kit⦄ (swig_pdas : List Bytes) (n : ℕ) where
  Valid-length :
      (store store' : List SolAccountMeta) (rs : List ℕ)
      → length store ≤ length store'
      → Valid store rs
      → Valid store' rs
  Valid-length store store' rs h v =
      map-All (λ r. r < length store) (λ r. r < length store') rs (λ r hr. omega (arith, h, hr)) v

  place-Stored :
      (r : ℕ) (meta : SolAccountMeta) (o : Option ℕ) (t : Table)
      → r < n
      → Stored n t
      → After (Stored n) (place r meta o t)
  unfolding place
  place-Stored r meta none t hr (large, v) = (
    large,
    All-append (λ r. r < length t.store) t.accounts (r ∷ []) v (omega (arith, hr, large), tt),
  )
  place-Stored r meta (some i) t hr (large, v) = elim (Option-cases (get_elem? t.accounts i)) [
    | inl e ↦ rw e tt
    | inr (e, at) ↦ elim (Option-cases (get_elem? t.store e)) [
      | inl missing ↦ rw (at, missing) tt
      | inr (existing, there) ↦
          let same = length-set t.store e (upgrade meta existing) in
          rw (at, there)
            (
              omega (arith, same, large),
              Valid-length t.store (set t.store e (upgrade meta existing)) t.accounts
                  (omega (arith, same)) v,
            )
    ]
  ]

  add_account-Stored :
      (r : ℕ) (t : Table) → r < n → Stored n t → After (Stored n) (add_account swig_pdas r t)
  unfolding add_account
  add_account-Stored r t hr (large, v) = elim (Option-cases (get_elem? t.store r)) [
    | inl missing ↦ rw missing tt
    | inr (meta, found) ↦
        let m = unsign swig_pdas meta in
        let same = length-set t.store r m in
        rw found (
          place-Stored r m (lookup (kit.base58 m.public_key) t.hashmap)
            (record t { store = set t.store r m }) hr
            (
              omega (arith, same, large),
              Valid-length t.store (set t.store r m) t.accounts (omega (arith, same)) v,
            ))
  ]

  push-Stored : (key : Bytes) (t : Table) → Stored n t → Stored n (push (readonly key) t)
  unfolding push
  push-Stored key t (large, v) =
      let more = length-append t.store (readonly key ∷ []) in
      let store = t.store ++ readonly key ∷ [] in
      (
        omega (arith, more, large),
        All-append (λ r. r < length store) t.accounts (length t.store ∷ [])
            (Valid-length t.store store t.accounts (omega (arith, more)) v)
            (omega (arith, more), tt),
      )

  pub Kept-Stored : Kept swig_pdas (Stored n) (λ r. r < n)
  Kept-Stored = record {
    account = add_account-Stored;
    pushed = push-Stored;
    hashed = λ hashmap t h. h;
  }
