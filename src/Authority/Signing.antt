-- ===== src/Authority/Signing.antt =====
-- What secp256k1.ts and secp256r1.ts of lib/src/authority/instructions share: the guard at the start of
-- every method, and the message that is hashed.
pub mod Covers
use swig_protocol_sdk.Common.{
  ◌≡◌, refl, ap, ◌∙◌, length, >>=-eq-some, ◌⊎◌, inl, inr, Option-cases, ℕ, true, Option, none, some,
  List, [], ◌∷◌, ◌++◌, map, Bytes, bytes_equal, if◌then◌else◌, ◌>>=◌,
}
use swig_protocol_sdk.Kit.{Kit}
use swig_protocol_sdk.Kit.LittleEndian.{le_digits}
use swig_protocol_sdk.Coder.AccountsPayload.{AccountMetaLike, write_accounts_payload}
use swig_protocol_sdk.Instructions.Keys.{sol_public_key}
use swig_protocol_sdk.Instructions.Compact.{SolAccountMeta}
use swig_protocol_sdk.Authority.Interface.{SigningResult, InstructionDataOptions}

-- What the code uses of the package @noble/hashes: the hashes, and `toBytes` of the text that
-- `bytesToHex` gives.
pub record Hashes : Type 0 where
  pub sha256 : Bytes → Bytes
  pub keccak_256 : Bytes → Bytes
  pub hex_text : Bytes → Bytes

pub record SigningOptions : Type 0 where
  pub signing_fn : Bytes → SigningResult
  pub current_slot : ℕ
  pub odometer : Option ℕ

-- `if (!options?.signingFn || options?.currentSlot === undefined) throw`
unfoldable pub require_signing : InstructionDataOptions → Option SigningOptions
require_signing options = do
  signing_fn ← options.signing_fn
  current_slot ← options.current_slot
  some
      (record { signing_fn = signing_fn; current_slot = current_slot; odometer = options.odometer })

-- `DataView` keeps the lowest bytes of a number.
unfoldable pub slot_bytes : SigningOptions → Bytes
unfolding le_digits
slot_bytes options = le_digits 8 options.current_slot

unfoldable pub odometer_bytes : SigningOptions → Bytes
unfolding le_digits
odometer_bytes options = le_digits 4 (elim options.odometer [ none ↦ 1 | some odometer ↦ odometer ])

pub length-slot_bytes : (options : SigningOptions) → length (slot_bytes options) ≡ 8
unfolding slot_bytes le_digits
length-slot_bytes options = refl

pub length-odometer_bytes : (options : SigningOptions) → length (odometer_bytes options) ≡ 4
unfolding odometer_bytes le_digits
length-odometer_bytes options = refl

pub require_signing-fn :
    (options : InstructionDataOptions) (signing : SigningOptions)
    → require_signing options ≡ some signing
    → options.signing_fn ≡ some signing.signing_fn
unfolding require_signing
require_signing-fn options signing e =
    let (f, is, e₁) = >>=-eq-some options.signing_fn _ e in
    let (slot, _, e₂) = >>=-eq-some options.current_slot _ e₁ in
    let k : f ≡ signing.signing_fn = cc in is ∙ ap some k

pub require_signing-refuses :
    (options : InstructionDataOptions)
    → (options.signing_fn ≡ none) ⊎ (options.current_slot ≡ none)
    → require_signing options ≡ none
unfolding require_signing
require_signing-refuses options (inl e) = rw e refl
require_signing-refuses options (inr e) = elim (Option-cases options.signing_fn) [
  | inl f ↦ rw f refl
  | inr (g, f) ↦ rw (f, e) refl
]

-- `toWeb3AccountMeta`, with the key as bytes.
unfoldable pub account_meta_like : SolAccountMeta → AccountMetaLike
account_meta_like acct = record {
  pubkey = acct.public_key;
  is_writable = acct.writable;
  is_signer = acct.signer;
}

module _ ⦃kit : Kit⦄ where
  unfoldable pub message_bytes : Bytes → List SolAccountMeta → SigningOptions → Bytes
  unfolding account_meta_like slot_bytes odometer_bytes write_accounts_payload
  message_bytes data_payload account_metas options =
      data_payload
      ++ write_accounts_payload (map account_meta_like account_metas)
      ++ slot_bytes options
      ++ odometer_bytes options

  -- The first account with the key becomes a signer.
  unfoldable pub set_signer : Bytes → List SolAccountMeta → List SolAccountMeta
  set_signer key [] = []
  set_signer key (m ∷ ms) =
      let rest = set_signer key ms in
      if bytes_equal (kit.base58 m.public_key) key
      then record m { signer = true } ∷ ms
      else m ∷ rest

  -- The block of `signV2Instruction` that marks the payer of the fee.
  unfoldable pub mark_fee_payer : Option Bytes → List SolAccountMeta → Option (List SolAccountMeta)
  unfolding set_signer sol_public_key
  mark_fee_payer none metas = some metas
  mark_fee_payer (some payer) metas = do
    key ← sol_public_key payer
    some (set_signer (kit.base58 key) metas)
