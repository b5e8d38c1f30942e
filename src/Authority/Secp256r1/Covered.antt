-- ===== src/Authority/Secp256r1/Covered.antt =====
-- What the signature covers in an instruction that `signed_instruction` gives, for any message and
-- payload of secp256r1.ts.
use swig_protocol_sdk.Common.{
  ℕ, zeros, get_elem?, ◌%◌, ◌≡◌, sym, ap, ◌∙◌, Bool, true, Option, none, some, List, [], ◌∷◌, ◌++◌,
  map, Bytes, length, ◌>>=◌, >>=-eq-some,
}
use swig_protocol_sdk.Kit.{Kit}
use swig_protocol_sdk.Instructions.Consts.{instructions_sysvar_string, secp256r1_program_string}
use swig_protocol_sdk.Coder.Secp256r1Signature.{write_secp256r1_signature}
use swig_protocol_sdk.Coder.AccountsPayload.{write_accounts_payload}
use swig_protocol_sdk.Instructions.Compact.{SolAccountMeta}
use swig_protocol_sdk.Instructions.SwigInstruction.{
  BuiltInstruction, SwigInstructionArgs, SwigInstructionContext, build,
}
use swig_protocol_sdk.Instructions.SwigInstruction.Payload.{payload_of}
use swig_protocol_sdk.Authority.Interface.{InstructionDataOptions}
use swig_protocol_sdk.Authority.Signing.{
  Hashes, SigningOptions, require_signing, slot_bytes, odometer_bytes, message_bytes,
  account_meta_like,
}
use swig_protocol_sdk.Authority.Signing.Covers.{
  signed_of, header_of, names_size, build-Covers, Shape,
}
use swig_protocol_sdk.Authority.Secp256r1.Payload.{prepare_secp256r1_payload, signed_instruction}
use swig_protocol_sdk.Authority.Secp256r1.Prepared.{
  Prepared, find_sysvar_index-at, prepare_secp256r1_payload-Prepared, length-payload,
}

module _ ⦃kit : Kit⦄ (hashes : Hashes) where
  -- The data of the instruction of `c` are a header of the width, the signed bytes and the payload; the
  -- last instruction in front of it has the precompile verify the signature by the key; and the payload
  -- holds the slot, the odometer, and the index of the account of the instructions.
  pub record Signed (options : InstructionDataOptions) (public_key : Bytes)
      (pre : List BuiltInstruction) (width : ℕ) (c : SwigInstructionContext) : Type 0 where
    pub signing : SigningOptions
    pub signing_is : require_signing options ≡ some signing
    pub before : Bytes
    pub before_width : length before ≡ width
    pub signed : Bytes
    pub message_hash : Bytes
    pub message_hash_is :
        message_hash
        ≡ hashes.keccak_256 (
            signed
            ++ write_accounts_payload (map account_meta_like c.swig_instruction.accounts)
            ++ slot_bytes signing
            ++ odometer_bytes signing)
    pub index : ℕ
    pub sysvar : SolAccountMeta
    pub at : get_elem? c.swig_instruction.accounts index ≡ some sysvar
    pub is_sysvar : kit.base58 sysvar.public_key ≡ instructions_sysvar_string
    pub data_is :
        c.swig_instruction.ix_data
        ≡ before
          ++ signed
          ++ (slot_bytes signing
              ++ odometer_bytes signing
              ++ (index % 256) ∷ zeros 4
              ++ (signing.signing_fn message_hash).signing_prefix)
    pub verification : Bytes
    pub verification_is :
        write_secp256r1_signature (record {
          public_key = public_key;
          message = elim (signing.signing_fn message_hash).message [
            | none ↦ message_hash
            | some m ↦ m
          ];
          signature = (signing.signing_fn message_hash).signature;
        })
        ≡ some verification
    pub pre_is :
        c.pre_instructions
        ≡ pre
          ++ record {
            program = kit.from_base58 secp256r1_program_string;
            accounts = [];
            ix_data = verification;
          }
            ∷ []

  Signed-built :
      (options : InstructionDataOptions) (public_key : Bytes) (metas : List SolAccountMeta)
      (args : SwigInstructionArgs) (pre post : List BuiltInstruction) (m payload : Bytes)
      (verify : BuiltInstruction) (signing : SigningOptions) (c : SwigInstructionContext)
      → require_signing options ≡ some signing
      → Prepared hashes m metas public_key signing payload verify
      → payload_of args ≡ payload
      → signed_of 17 args ≡ some m
      → (names_size args ≡ true → (h : Bytes) → (signing.signing_fn h).signing_prefix ≡ [])
      → build metas args (pre ++ verify ∷ []) post ≡ some c
      → Signed options public_key pre (header_of args) c
  unfolding message_bytes
  Signed-built options public_key metas args pre post m payload verify signing c s k own covered
        fits e =
      let (before, n, is, accounts, first, _) =
        build-Covers 17 metas args m (pre ++ verify ∷ []) post c
          (λ h. ap length own ∙ length-payload hashes k (fits h)) covered e in
      let (sysvar, at, key) = find_sysvar_index-at hashes metas k.index k.found in
      record {
        signing = signing;
        signing_is = s;
        before = before;
        before_width = n;
        signed = m;
        message_hash = k.message_hash;
        message_hash_is =
            k.message_hash_is
            ∙ ap (λ ms. hashes.keccak_256 (message_bytes m ms signing)) (sym accounts);
        index = k.index;
        sysvar = sysvar;
        at = ap (λ ms. get_elem? ms k.index) accounts ∙ at;
        is_sysvar = key;
        data_is = is ∙ ap (λ q. before ++ m ++ q) (own ∙ k.payload_is);
        verification = k.verification;
        verification_is = k.verification_is;
        pre_is = first ∙ ap (λ v. pre ++ v ∷ []) k.verify_is;
      }

  -- The parts of a call that gives an instruction.
  signed_instruction-parts :
      (public_key : Bytes) (options : InstructionDataOptions) (metas : List SolAccountMeta)
      (message : Option Bytes) (args : Bytes → SwigInstructionArgs)
      (pre post : List BuiltInstruction) (c : SwigInstructionContext)
      → signed_instruction hashes public_key options metas message args pre post ≡ some c
      → (signing : SigningOptions) × (require_signing options ≡ some signing)
        × ((m : Bytes) × (message ≡ some m)
            × ((made : Bytes × BuiltInstruction) × (prepare_secp256r1_payload hashes m metas
                    public_key signing
                  ≡ some made)
                × (build metas (args made.0) (pre ++ made.1 ∷ []) post ≡ some c)))
  unfolding signed_instruction
  signed_instruction-parts public_key options metas message args pre post c e =
      let (signing, s, e₁) = >>=-eq-some (require_signing options) _ e in
      let (m, is, e₂) = >>=-eq-some message _ e₁ in
      (
        signing,
        s,
        (m, is, >>=-eq-some (prepare_secp256r1_payload hashes m metas public_key signing) _ e₂),
      )

  -- The instruction, where a call gives one.
  pub record GivesSigned (options : InstructionDataOptions) (public_key : Bytes)
      (pre : List BuiltInstruction) (width : ℕ) (result : Option SwigInstructionContext)
      : Type 0 where
    pub gives :
        (c : SwigInstructionContext) → result ≡ some c → Signed options public_key pre width c

  pub GivesSigned-bind :
      {options : InstructionDataOptions} {public_key : Bytes} {pre : List BuiltInstruction}
      {width : ℕ} {A : Type 0} (m : Option A) (f : A → Option SwigInstructionContext)
      → ((a : A) → GivesSigned options public_key pre width (f a))
      → GivesSigned options public_key pre width (m >>= f)
  GivesSigned-bind none f h = record { gives = λ c e. cc }
  GivesSigned-bind (some a) f h = h a

  pub signed_instruction-GivesSigned :
      (public_key : Bytes) (options : InstructionDataOptions) (metas : List SolAccountMeta)
      (message : Option Bytes) (args : Bytes → SwigInstructionArgs)
      (pre post : List BuiltInstruction) (width : ℕ) (named : Bool)
      → Shape 17 message args width named
      → (named ≡ true
          → (signing : SigningOptions) → require_signing options ≡ some signing
          → (h : Bytes) → (signing.signing_fn h).signing_prefix ≡ [])
      → GivesSigned options public_key pre width
          (signed_instruction hashes public_key options metas message args pre post)
  signed_instruction-GivesSigned public_key options metas message args pre post width named shape
        fits =
      record {
        gives = λ c e.
            let (signing, s, (m, made, ((payload, verify), prepared, built))) =
              signed_instruction-parts public_key options metas message args pre post c e in
            let k =
              prepare_secp256r1_payload-Prepared hashes m metas public_key signing payload verify
                prepared in
            let (own, covered, header, names) = shape payload in
            rw header at (
              Signed-built options public_key metas (args payload) pre post m payload verify signing
                c s k own (covered ∙ made) (λ h. fits (sym names ∙ h) signing s) built);
      }
