-- ===== src/Authority/Secp256k1/Covered.antt =====
-- What the signature covers in an instruction that `signed_instruction` gives, for any message and
-- payload of secp256k1.ts.
use swig_protocol_sdk.Common.{
  ℕ, ◌+◌, ◌≡◌, sym, ap, ◌∙◌, Bool, true, Option, none, some, List, ◌++◌, map, Bytes, length, arith,
  length-append, ◌>>=◌, >>=-eq-some,
}
use swig_protocol_sdk.Kit.{Kit}
use swig_protocol_sdk.Coder.AccountsPayload.{write_accounts_payload}
use swig_protocol_sdk.Instructions.Compact.{SolAccountMeta}
use swig_protocol_sdk.Instructions.SwigInstruction.{
  BuiltInstruction, SwigInstructionArgs, SwigInstructionContext, build,
}
use swig_protocol_sdk.Instructions.SwigInstruction.Payload.{payload_of}
use swig_protocol_sdk.Authority.Interface.{SigningResult, InstructionDataOptions}
use swig_protocol_sdk.Authority.Signing.{
  length-slot_bytes, length-odometer_bytes, Hashes, SigningOptions, require_signing, slot_bytes,
  odometer_bytes, message_bytes, account_meta_like,
}
use swig_protocol_sdk.Authority.Signing.Covers.{
  signed_of, header_of, names_size, build-Covers, Shape,
}
use swig_protocol_sdk.Authority.Secp256k1.Payload.{prepare_secp_payload, signed_instruction}

module _ ⦃kit : Kit⦄ (hashes : Hashes) where
  -- The data of `ix` are a header of the width, the signed bytes, and the slot, the odometer and the
  -- signature of the signed bytes with the accounts of `ix`, the slot and the odometer.
  pub record Signed (options : InstructionDataOptions) (width : ℕ) (ix : BuiltInstruction)
      : Type 0 where
    pub signing : SigningOptions
    pub signing_is : require_signing options ≡ some signing
    pub before : Bytes
    pub before_width : length before ≡ width
    pub signed : Bytes
    pub result : SigningResult
    pub result_is :
        result
        ≡ signing.signing_fn (
            hashes.hex_text (
              hashes.sha256 (
                signed
                ++ write_accounts_payload (map account_meta_like ix.accounts)
                ++ slot_bytes signing
                ++ odometer_bytes signing)))
    pub data_is :
        ix.ix_data
        ≡ before
          ++ signed
          ++ (slot_bytes signing
              ++ odometer_bytes signing
              ++ result.signature
              ++ result.signing_prefix)

  -- The parts of a call that gives an instruction.
  signed_instruction-parts :
      (options : InstructionDataOptions) (metas : List SolAccountMeta) (message : Option Bytes)
      (args : Bytes → SwigInstructionArgs) (pre post : List BuiltInstruction)
      (c : SwigInstructionContext)
      → signed_instruction hashes options metas message args pre post ≡ some c
      → (signing : SigningOptions) × (require_signing options ≡ some signing)
        × ((m : Bytes) × (message ≡ some m)
            × (build metas (args (prepare_secp_payload hashes m metas signing)) pre post ≡ some c))
  unfolding signed_instruction
  signed_instruction-parts options metas message args pre post c e =
      let (signing, s, e₁) = >>=-eq-some (require_signing options) _ e in
      (signing, s, >>=-eq-some message _ e₁)

  length-prepare_secp_payload :
      (m : Bytes) (metas : List SolAccountMeta) (signing : SigningOptions)
      → ((h : Bytes)
          → length (signing.signing_fn h).signature + length (signing.signing_fn h).signing_prefix
            ≡ 65)
      → length (prepare_secp_payload hashes m metas signing) ≡ 77
  unfolding prepare_secp_payload
  length-prepare_secp_payload m metas signing fits =
      let r =
        signing.signing_fn (hashes.hex_text (hashes.sha256 (message_bytes m metas signing))) in
      omega (
        arith,
        length-append (slot_bytes signing ++ odometer_bytes signing ++ r.signature)
            r.signing_prefix,
        length-append (slot_bytes signing ++ odometer_bytes signing) r.signature,
        length-append (slot_bytes signing) (odometer_bytes signing),
        length-slot_bytes signing,
        length-odometer_bytes signing,
        fits (hashes.hex_text (hashes.sha256 (message_bytes m metas signing))),
      )

  Signed-built :
      (options : InstructionDataOptions) (metas : List SolAccountMeta) (args : SwigInstructionArgs)
      (pre post : List BuiltInstruction) (m : Bytes) (signing : SigningOptions)
      (c : SwigInstructionContext)
      → require_signing options ≡ some signing
      → payload_of args ≡ prepare_secp_payload hashes m metas signing
      → signed_of 77 args ≡ some m
      → (names_size args ≡ true
          → (h : Bytes)
          → length (signing.signing_fn h).signature + length (signing.signing_fn h).signing_prefix
            ≡ 65)
      → build metas args pre post ≡ some c
      → Signed options (header_of args) c.swig_instruction
  unfolding prepare_secp_payload message_bytes
  Signed-built options metas args pre post m signing c s own covered fits e =
      let (before, n, is, accounts, _, _) =
        build-Covers 77 metas args m pre post c
          (λ h. ap length own ∙ length-prepare_secp_payload m metas signing (fits h)) covered e in
      record {
        signing = signing;
        signing_is = s;
        before = before;
        before_width = n;
        signed = m;
        result =
            signing.signing_fn (hashes.hex_text (hashes.sha256 (message_bytes m metas signing)));
        result_is =
            ap
              (λ ms.
                signing.signing_fn (hashes.hex_text (hashes.sha256 (message_bytes m ms signing))))
              (sym accounts);
        data_is = is ∙ ap (λ q. before ++ m ++ q) own;
      }

  -- The instruction, where a call gives one.
  pub record GivesSigned (options : InstructionDataOptions) (width : ℕ)
      (result : Option SwigInstructionContext) : Type 0 where
    pub gives :
        (c : SwigInstructionContext) → result ≡ some c → Signed options width c.swig_instruction

  pub GivesSigned-bind :
      {options : InstructionDataOptions} {width : ℕ} {A : Type 0} (m : Option A)
      (f : A → Option SwigInstructionContext)
      → ((a : A) → GivesSigned options width (f a))
      → GivesSigned options width (m >>= f)
  GivesSigned-bind none f h = record { gives = λ c e. cc }
  GivesSigned-bind (some a) f h = h a

  pub signed_instruction-GivesSigned :
      (options : InstructionDataOptions) (metas : List SolAccountMeta) (message : Option Bytes)
      (args : Bytes → SwigInstructionArgs) (pre post : List BuiltInstruction) (width : ℕ)
      (named : Bool)
      → Shape 77 message args width named
      → (named ≡ true
          → (signing : SigningOptions) → require_signing options ≡ some signing
          → (h : Bytes)
          → length (signing.signing_fn h).signature + length (signing.signing_fn h).signing_prefix
            ≡ 65)
      → GivesSigned options width (signed_instruction hashes options metas message args pre post)
  signed_instruction-GivesSigned options metas message args pre post width named shape fits =
      record {
        gives = λ c e.
            let (signing, s, (m, made, built)) =
              signed_instruction-parts options metas message args pre post c e in
            let p = prepare_secp_payload hashes m metas signing in
            let (own, covered, header, names) = shape p in
            rw header at (
              Signed-built options metas (args p) pre post m signing c s own (covered ∙ made)
                (λ h. fits (sym names ∙ h) signing s) built);
      }
