-- ===== src/Coder/AccountsPayload/Injective.antt =====
-- The bytes that are signed for a list of accounts determine the list.
use swig_protocol_sdk.Common.{
  ◌≡◌, ◌≢◌, refl, sym, ap, ◌∙◌, Option, none, some, List, [], ◌∷◌, ◌++◌, append_assoc, Bytes,
  length, length-append, zeros, All, arith,
}
use swig_protocol_sdk.Kit.{Kit, Reader, ◌>>=◌, pure, Encodes}
use swig_protocol_sdk.Kit.Laws.{Encodes-then, Encodes-last, Encodes-fixed, Encodes-bool}
use swig_protocol_sdk.Coder.AccountsPayload.{
  AccountMetaLike, write_account_payload, write_accounts_payload,
}

abbrev first_of : Option (AccountMetaLike × Bytes) → AccountMetaLike → AccountMetaLike
first_of none d = d
first_of (some (x, rest)) d = x

abbrev rest_of : Option (AccountMetaLike × Bytes) → Bytes
rest_of none = []
rest_of (some (x, rest)) = rest

module _ ⦃kit : Kit⦄ where
  abbrev read_account : Reader AccountMetaLike
  read_account = do
    pubkey ← kit.read_fixed 32
    is_writable ← kit.read_bool
    is_signer ← kit.read_bool
    _ ← kit.read_fixed 6
    pure (record { pubkey = pubkey; is_writable = is_writable; is_signer = is_signer })

  Encodes-account :
      (x : AccountMetaLike)
      → length x.pubkey ≡ 32
      → Encodes (some (write_account_payload x)) 40 read_account x
  unfolding write_account_payload
  Encodes-account x h =
      let a = kit.write_fixed 32 x.pubkey in
      let b = kit.write_bool x.is_writable in
      let c = kit.write_bool x.is_signer in
      let d = kit.write_fixed 6 (zeros 6) in
      let e : Encodes (some (a ++ (b ++ (c ++ d)))) 40 read_account x =
        Encodes-then _ (Encodes-fixed 32 x.pubkey h) (
          Encodes-then _ (Encodes-bool x.is_writable) (
            Encodes-then _ (Encodes-bool x.is_signer)
              (Encodes-last _ (Encodes-fixed 6 (zeros 6) refl)))) in
      rw (append_assoc (a ++ b) c d, append_assoc a b (c ++ d)) e

  read_account-write :
      (x : AccountMetaLike) (rest : Bytes)
      → length x.pubkey ≡ 32
      → read_account (write_account_payload x ++ rest) ≡ some (x, rest)
  read_account-write x rest h =
      let e = Encodes-account x h in
      let same : write_account_payload x ≡ e.bytes = cc (e.written) in rw same (e.reads rest)

  longer :
      (x : AccountMetaLike) (xs : List AccountMetaLike)
      → length x.pubkey ≡ 32
      → write_accounts_payload (x ∷ xs) ≢ []
  unfolding write_accounts_payload
  longer x xs h e =
      let k = Encodes-account x h in
      let same : write_account_payload x ≡ k.bytes = cc (k.written) in
      omega (
        arith,
        ap length e,
        length-append (write_account_payload x) (write_accounts_payload xs),
        ap length same,
        k.width,
      )

  -- For accounts with keys of 32 bytes, the bytes that are signed determine the accounts: two
  -- lists with the same bytes are the same, with their keys, their order and their flags.
  pub write_accounts_payload-injective :
      (xs ys : List AccountMetaLike)
      → All (λ x. length x.pubkey ≡ 32) xs
      → All (λ x. length x.pubkey ≡ 32) ys
      → write_accounts_payload xs ≡ write_accounts_payload ys
      → xs ≡ ys
  unfolding write_accounts_payload
  write_accounts_payload-injective [] [] h k e = refl
  write_accounts_payload-injective [] (y ∷ ys) h k e = absurd (longer y ys k.0 (sym e))
  write_accounts_payload-injective (x ∷ xs) [] h k e = absurd (longer x xs h.0 e)
  write_accounts_payload-injective (x ∷ xs) (y ∷ ys) h k e =
      let same : some (x, write_accounts_payload xs) ≡ some (y, write_accounts_payload ys) =
        sym (read_account-write x (write_accounts_payload xs) h.0)
        ∙ ap read_account e
        ∙ read_account-write y (write_accounts_payload ys) k.0 in
      let first : x ≡ y = ap (λ o. first_of o x) same in
      let rest : write_accounts_payload xs ≡ write_accounts_payload ys = ap (λ o. rest_of o) same in
      let tail = write_accounts_payload-injective xs ys h.1 k.1 rest in
      ap (λ z. z ∷ xs) first ∙ ap (λ zs. y ∷ zs) tail
