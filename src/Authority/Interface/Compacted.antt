-- ===== src/Authority/Interface/Compacted.antt =====
-- The instruction's own accounts among the combined accounts of `compactInstructions`.
use swig_protocol_sdk.Common.{
  ℕ, zero, suc, ◌+◌, ◌≤◌, ◌<◌, ◌≡◌, ◌≢◌, refl, ap, ◌∙◌, true, Option, some, Option-cases, inl, inr,
  List, [], ◌∷◌, ◌++◌, Bytes, length, get_elem?, get_elem?-append, get_elem?-lt, All, map-All,
  length-append, arith,
}
use swig_protocol_sdk.Kit.{Kit}
use swig_protocol_sdk.Coder.CompactInstructions.{CompactInstruction}
use swig_protocol_sdk.Instructions.Compact.{SolAccountMeta, SolInstruction}
use swig_protocol_sdk.Instructions.Compact.Extends.{key_at}
use swig_protocol_sdk.Instructions.Compact.Resolve.{Valid}
use swig_protocol_sdk.Instructions.Compact.Signing.{signs_at}
use swig_protocol_sdk.Instructions.Compact.Own.{compact_instructions-OwnKept}
use swig_protocol_sdk.Authority.Interface.{places, resolve, compact}

get_elem?-places : (from n i : ℕ) → i < n → get_elem? (places from n) i ≡ some (from + i)
unfolding places
get_elem?-places from zero i h = absurd (omega arith)
get_elem?-places from (suc n) zero h = ap some (omega arith)
get_elem?-places from (suc n) (suc i) h =
    get_elem?-places (from + 1) n i (omega arith) ∙ ap some (omega arith)

places-Valid : (m from n : ℕ) → from + n ≤ m → All (λ r. r < m) (places from n)
unfolding places
places-Valid m from zero h = tt
places-Valid m from (suc n) h = (omega arith, places-Valid m (from + 1) n (omega arith))

get_elem?-skip {ℓ} :
    {A : Type ℓ} (xs ys : List A) (i : ℕ) → get_elem? (xs ++ ys) (length xs + i) ≡ get_elem? ys i
get_elem?-skip [] ys i = ap (get_elem? ys) (omega arith)
get_elem?-skip (x ∷ xs) ys i =
    let e : suc (length xs) + i ≡ suc (length xs + i) = omega arith in rw e (get_elem?-skip xs ys i)

-- Places in the store have objects.
resolve-Valid :
    (store : List SolAccountMeta) (rs : List ℕ)
    → Valid store rs
    → (metas : List SolAccountMeta) × (resolve store rs ≡ some metas)
      × ((i r : ℕ) → get_elem? rs i ≡ some r → get_elem? metas i ≡ get_elem? store r)
unfolding resolve
resolve-Valid store [] v = ([], refl, λ i r e. cc)
resolve-Valid store (r ∷ rs) v =
    let (meta, found) = get_elem?-lt store r (v.0) in
    let (metas, made, same) = resolve-Valid store rs (v.1) in
    (meta ∷ metas, rw (found, made), at meta found metas same)
  where
    at :
        (meta : SolAccountMeta)
        → get_elem? store r ≡ some meta
        → (metas : List SolAccountMeta)
        → ((i q : ℕ) → get_elem? rs i ≡ some q → get_elem? metas i ≡ get_elem? store q)
        → (i q : ℕ) → get_elem? (r ∷ rs) i ≡ some q
        → get_elem? (meta ∷ metas) i ≡ get_elem? store q
    at meta found metas same zero q e = cc
    at meta found metas same (suc i) q e = same i q e

module _ ⦃kit : Kit⦄ where
  -- One of the own accounts.
  pub record OwnAt (i : ℕ) (meta : SolAccountMeta)
      (result : Option (List SolAccountMeta × List CompactInstruction)) : Type 0 where
    pub accounts : List SolAccountMeta
    pub compact_ixs : List CompactInstruction
    pub result_is : result ≡ some (accounts, compact_ixs)
    pub found : SolAccountMeta
    pub at : get_elem? accounts i ≡ some found
    pub same_key : kit.base58 found.public_key ≡ kit.base58 meta.public_key
    pub signs : meta.signer ≡ true → found.signer ≡ true

  pub compact-OwnAt :
      (store : List SolAccountMeta) (swig : Bytes) (own : List SolAccountMeta)
      (inner : List SolInstruction) (pdas : List Bytes) (i : ℕ) (meta : SolAccountMeta)
      → i < length own
      → get_elem? own i ≡ some meta
      → All (λ ix. Valid store ix.accounts) inner
      → OwnAt i meta (compact store swig own inner pdas)
  unfolding compact
  compact-OwnAt store swig own inner pdas i meta hi e v =
      let all = store ++ own in
      let q = length store + i in
      let total = length-append store own in
      let here : get_elem? all q ≡ some meta = rw (get_elem?-skip store own i) e in
      let k =
        compact_instructions-OwnKept all swig (places (length store) (length own)) inner pdas q
          (places-Valid (length all) (length store) (length own) (omega (arith, total)))
          (wider all (omega (arith, total)) inner v) (apart q (omega arith) inner v) in
      let (accounts, made, same) = resolve-Valid k.after.store k.after.accounts k.stored in
      let place : get_elem? k.after.accounts i ≡ some q = rw (k.accounts_kept) (
        get_elem?-append (places (length store) (length own)) k.more i
          (get_elem?-places (length store) (length own) i hi)) in
      let key : key_at k.after.store q ≡ some (kit.base58 meta.public_key) =
        k.key_kept (kit.base58 meta.public_key) (rw (here, key_at)) in
      elim (Option-cases (get_elem? k.after.store q)) [
        | inl missing ↦ absurd (ground (arith, missing, key))
        | inr (m, there) ↦ record {
          accounts = accounts;
          compact_ixs = k.compact_ixs;
          result_is = rw (k.result_is, made);
          found = m;
          at = same i q place ∙ there;
          same_key = ground (arith, there, key);
          signs = λ s. rw (there, signs_at) at (k.signs_kept (rw (here, signs_at) s));
        }
      ]
    where
      wider :
          (all : List SolAccountMeta)
          → length store ≤ length all
          → (ixs : List SolInstruction) → All (λ ix. Valid store ix.accounts) ixs
          → All (λ ix. Valid all ix.accounts) ixs
      wider all h ixs v =
          map-All (λ ix. Valid store ix.accounts) (λ ix. Valid all ix.accounts) ixs
            (λ ix hv.
              map-All (λ r. r < length store) (λ r. r < length all) ix.accounts
                (λ r hr. omega (arith, h, hr)) hv)
            v

      apart :
          (q : ℕ)
          → length store ≤ q
          → (ixs : List SolInstruction) → All (λ ix. Valid store ix.accounts) ixs
          → All (λ ix. All (λ r. r ≢ q) ix.accounts) ixs
      apart q h ixs v =
          map-All (λ ix. Valid store ix.accounts) (λ ix. All (λ r. r ≢ q) ix.accounts) ixs
            (λ ix hv.
              map-All (λ r. r < length store) (λ r. r ≢ q) ix.accounts
                (λ r hr e. omega (arith, h, hr, e)) hv)
            v
