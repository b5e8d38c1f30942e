-- ===== src/Instructions/Compact/Unbalanced.antt =====
-- What is put behind the accounts of an instruction that follows a transfer.
pub mod Kinds
pub mod Follow
use swig_protocol_sdk.Common.{
  ℕ, ◌≡◌, refl, true, false, Bool, Option-cases, inl, inr, some, List, [], ◌∷◌, Bytes, length,
}
use swig_protocol_sdk.Kit.{Kit}
use swig_protocol_sdk.Instructions.Consts.{sysvar_rent_address_string}
use swig_protocol_sdk.Instructions.Compact.{
  Table, lookup, readonly, push, rent_index, rent_accounts, swig_index, unbalanced,
}
use swig_protocol_sdk.Instructions.Compact.Extends.{
  key_of, Extends, key_of-Extends, Known, lookup-Known,
}
use swig_protocol_sdk.Instructions.Compact.Resolve.{push_key}
use swig_protocol_sdk.Instructions.Compact.Loop.{unbalanced-Later}
use swig_protocol_sdk.Instructions.Compact.Remembered.{Remembers, Kept-Remembers}
use swig_protocol_sdk.Instructions.Compact.Preserve.{unbalanced-P}

module _ ⦃kit : Kit⦄ where
  -- The text of the Rent sysvar, as the code makes it.
  abbrev pub rent_text : Bytes
  rent_text = kit.base58 (kit.from_base58 sysvar_rent_address_string)

  -- The indices lead, in order, to accounts with the keys.
  abbrev pub Leads : Table → List ℕ → List Bytes → Type 0
  Leads t [] [] = Unit
  Leads t [] (k ∷ ks) = ⊥
  Leads t (i ∷ is) [] = ⊥
  Leads t (i ∷ is) (k ∷ ks) = (key_of t i ≡ some k) × Leads t is ks

  pub Leads-Extends :
      {s t : Table} (is : List ℕ) (ks : List Bytes) → Extends s t → Leads s is ks → Leads t is ks
  Leads-Extends [] [] f h = tt
  Leads-Extends [] (k ∷ ks) f h = elim h [ ]
  Leads-Extends (i ∷ is) [] f h = elim h [ ]
  Leads-Extends (i ∷ is) (k ∷ ks) f h = (key_of-Extends i f h.0, Leads-Extends is ks f h.1)

  -- The keys behind the accounts, by what the code tests.
  abbrev pub added_keys : Bytes → Bool → Bool → List Bytes
  added_keys swig_account false sync_native = []
  added_keys swig_account true true = rent_text ∷ kit.base58 swig_account ∷ []
  added_keys swig_account true false = kit.base58 swig_account ∷ []

  rent_index_key :
      (t : Table) → Known t t.hashmap → key_of (rent_index t).0 (rent_index t).1 ≡ some rent_text
  unfolding rent_index
  rent_index_key t known = elim (Option-cases (lookup rent_text t.hashmap)) [
    | inl e ↦
        rw (e, rent_index)
          (unfold readonly in
            push_key (readonly (kit.from_base58 sysvar_rent_address_string))
              (record t { hashmap = (rent_text, length t.accounts) ∷ t.hashmap }))
    | inr (i, e) ↦ rw (e, rent_index) (lookup-Known t rent_text t.hashmap known e)
  ]

  swig_index_key :
      (swig_account : Bytes) (t : Table)
      → Known t t.hashmap
      → Remembers (kit.base58 swig_account) t
      → key_of t (swig_index swig_account t) ≡ some (kit.base58 swig_account)
  unfolding swig_index
  swig_index_key swig_account t known h =
      elim (Option-cases (lookup (kit.base58 swig_account) t.hashmap)) [
        | inl e ↦ absurd (h e)
        | inr (i, e) ↦
            rw (e, swig_index) (lookup-Known t (kit.base58 swig_account) t.hashmap known e)
      ]

  pub unbalanced-Leads :
      (swig_account : Bytes) (handle_unbalanced sync_native : Bool) (t : Table)
      → Known t t.hashmap
      → Remembers (kit.base58 swig_account) t
      → Leads
          (unbalanced swig_account handle_unbalanced sync_native t).0
          (unbalanced swig_account handle_unbalanced sync_native t).1
          (added_keys swig_account handle_unbalanced sync_native)
  unfolding unbalanced rent_accounts
  unbalanced-Leads swig_account false sync_native t known h = tt
  unbalanced-Leads swig_account true false t known h = (swig_index_key swig_account t known h, tt)
  unbalanced-Leads swig_account true true t known h =
      let after = (rent_index t).0 in
      let key = kit.base58 swig_account in
      let known' = (unbalanced-Later swig_account true true t known).known in
      let h' =
        unbalanced-P [] (Remembers key) (λ r. Unit) (Kept-Remembers key []) swig_account true true t
          h in
      (rent_index_key t known, (swig_index_key swig_account after known' h', tt))
