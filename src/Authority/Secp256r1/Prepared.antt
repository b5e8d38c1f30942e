-- ===== src/Authority/Secp256r1/Prepared.antt =====
-- The parts of the payload of a Secp256r1 authority, and the account of the instructions.
use swig_protocol_sdk.Common.{
  ℕ, suc, zeros, get_elem?, bytes_equal, bytes_equal_iff, Bool-cases, inl, inr, ◌%◌, ◌+◌, ◌≡◌, refl,
  ap, ◌∙◌, none, some, List, [], ◌∷◌, ◌++◌, Bytes, length, arith, length-append, ◌>>=◌, >>=-eq-some,
}
use swig_protocol_sdk.Kit.{Kit}
use swig_protocol_sdk.Instructions.Consts.{instructions_sysvar_string, secp256r1_program_string}
use swig_protocol_sdk.Coder.Secp256r1Signature.{write_secp256r1_signature}
use swig_protocol_sdk.Instructions.Compact.{SolAccountMeta}
use swig_protocol_sdk.Instructions.SwigInstruction.{BuiltInstruction}
use swig_protocol_sdk.Authority.Signing.{
  length-slot_bytes, length-odometer_bytes, Hashes, SigningOptions, slot_bytes, odometer_bytes,
  message_bytes,
}
use swig_protocol_sdk.Authority.Secp256r1.Payload.{find_sysvar_index, prepare_secp256r1_payload}

module _ ⦃kit : Kit⦄ (hashes : Hashes) where
  pub find_sysvar_index-at :
      (metas : List SolAccountMeta) (i : ℕ)
      → find_sysvar_index metas ≡ some i
      → (m : SolAccountMeta) × (get_elem? metas i ≡ some m)
        × (kit.base58 m.public_key ≡ instructions_sysvar_string)
  unfolding find_sysvar_index
  find_sysvar_index-at [] i e = cc
  find_sysvar_index-at (m ∷ ms) i e =
      elim (Bool-cases (bytes_equal (kit.base58 m.public_key) instructions_sysvar_string)) [
        | inl h ↦
            let k : some 0 ≡ some i = rw h at e in
            let z : 0 ≡ i = cc in
            rw (← z)
              (m, refl, (bytes_equal_iff (kit.base58 m.public_key) instructions_sysvar_string).0 h)
        | inr h ↦
            let k : (find_sysvar_index ms >>= λ j. some (j + 1)) ≡ some i = rw h at e in
            let (j, is, e₁) = >>=-eq-some (find_sysvar_index ms) _ k in
            let y : j + 1 ≡ i = cc in
            let z : suc j ≡ i = omega (arith, y) in rw (← z) (find_sysvar_index-at ms j is)
      ]

  -- The parts of a payload.
  pub record Prepared (m : Bytes) (metas : List SolAccountMeta) (public_key : Bytes)
      (signing : SigningOptions) (payload : Bytes) (verify : BuiltInstruction) : Type 0 where
    pub message_hash : Bytes
    pub message_hash_is : message_hash ≡ hashes.keccak_256 (message_bytes m metas signing)
    pub index : ℕ
    pub found : find_sysvar_index metas ≡ some index
    pub payload_is :
        payload
        ≡ slot_bytes signing
          ++ odometer_bytes signing
          ++ (index % 256) ∷ zeros 4
          ++ (signing.signing_fn message_hash).signing_prefix
    pub verification : Bytes
    pub verification_is :
        write_secp256r1_signature (record {
          public_key = public_key;
          message = elim (signing.signing_fn message_hash).message [
            | none ↦ message_hash
            | some m ↦ m
          ];
          signature = (signing.signing_fn message_hash).signature;
        })
        ≡ some verification
    pub verify_is : verify ≡ record {
      program = kit.from_base58 secp256r1_program_string;
      accounts = [];
      ix_data = verification;
    }

  pub prepare_secp256r1_payload-Prepared :
      (m : Bytes) (metas : List SolAccountMeta) (public_key : Bytes) (signing : SigningOptions)
      (payload : Bytes) (verify : BuiltInstruction)
      → prepare_secp256r1_payload hashes m metas public_key signing ≡ some (payload, verify)
      → Prepared m metas public_key signing payload verify
  unfolding prepare_secp256r1_payload
  prepare_secp256r1_payload-Prepared m metas public_key signing payload verify e =
      let (index, found, e₁) = >>=-eq-some (find_sysvar_index metas) _ e in
      let (verification, is, e₂) = >>=-eq-some (write_secp256r1_signature _) _ e₁ in
      record {
        message_hash = hashes.keccak_256 (message_bytes m metas signing);
        message_hash_is = refl;
        index = index;
        found = found;
        payload_is = cc;
        verification = verification;
        verification_is = is;
        verify_is = cc;
      }

  pub length-payload :
      {m : Bytes} {metas : List SolAccountMeta} {public_key : Bytes} {signing : SigningOptions}
      {payload : Bytes} {verify : BuiltInstruction}
      → Prepared m metas public_key signing payload verify
      → ((h : Bytes) → (signing.signing_fn h).signing_prefix ≡ [])
      → length payload ≡ 17
  length-payload {signing} k fits =
      let prefix = (signing.signing_fn k.message_hash).signing_prefix in
      ap length k.payload_is
      ∙ omega (
        arith,
        length-append (slot_bytes signing ++ odometer_bytes signing ++ (k.index % 256) ∷ zeros 4)
            prefix,
        length-append (slot_bytes signing ++ odometer_bytes signing) ((k.index % 256) ∷ zeros 4),
        length-append (slot_bytes signing) (odometer_bytes signing),
        length-slot_bytes signing,
        length-odometer_bytes signing,
        ap length (fits k.message_hash),
      )
