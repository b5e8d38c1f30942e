-- ===== src/Authority/Secp256r1/Payload.antt =====
-- lib/src/authority/instructions/secp256r1.ts: the payload, and what the methods share.
use swig_protocol_sdk.Common.{
  ℕ, false, ◌+◌, ◌%◌, zeros, Option, none, some, List, [], ◌∷◌, ◌++◌, Bytes, bytes_equal,
  if◌then◌else◌, ◌>>=◌,
}
use swig_protocol_sdk.Kit.{Kit}
use swig_protocol_sdk.Coder.Secp256r1Signature.{write_secp256r1_signature}
use swig_protocol_sdk.Instructions.Consts.{instructions_sysvar_string, secp256r1_program_string}
use swig_protocol_sdk.Instructions.Compact.{SolAccountMeta}
use swig_protocol_sdk.Instructions.SwigInstruction.{
  BuiltInstruction, SwigInstructionArgs, SwigInstructionContext, build,
}
use swig_protocol_sdk.Authority.Interface.{InstructionDataOptions}
use swig_protocol_sdk.Authority.Signing.{
  Hashes, SigningOptions, require_signing, slot_bytes, odometer_bytes, message_bytes,
}

-- 8 (slot) + 4 (counter) + 1 (instruction index) + 4 (padding)
unfoldable pub secp256r1_authority_payload_size : ℕ
secp256r1_authority_payload_size = 17

module _ ⦃kit : Kit⦄ where
  unfoldable pub instructions_sysvar : SolAccountMeta
  instructions_sysvar = record {
    public_key = kit.from_base58 instructions_sysvar_string;
    writable = false;
    signer = false;
  }

  -- `findIndex`, of the account of the instructions.
  unfoldable pub find_sysvar_index : List SolAccountMeta → Option ℕ
  find_sysvar_index [] = none
  find_sysvar_index (m ∷ ms) =
      let rest = find_sysvar_index ms in
      if bytes_equal (kit.base58 m.public_key) instructions_sysvar_string
      then some 0
      else (do i ← rest; some (i + 1))

module _ ⦃kit : Kit⦄ (hashes : Hashes) where
  -- The payload and `sigVerifyIx`.
  unfoldable pub prepare_secp256r1_payload :
      Bytes → List SolAccountMeta → Bytes → SigningOptions → Option (Bytes × BuiltInstruction)
  unfolding message_bytes slot_bytes odometer_bytes find_sysvar_index write_secp256r1_signature
  prepare_secp256r1_payload data_payload account_metas public_key options =
      let message_hash = hashes.keccak_256 (message_bytes data_payload account_metas options) in
      let r = options.signing_fn message_hash in
      let signed_message : Bytes = elim r.message [ none ↦ message_hash | some m ↦ m ] in
      do
        index ← find_sysvar_index account_metas
        inst_data ←
            write_secp256r1_signature (record {
              public_key = public_key;
              message = signed_message;
              signature = r.signature;
            })
        some (
          slot_bytes options
              ++ odometer_bytes options
              ++ (index % 256) ∷ zeros 4
              ++ r.signing_prefix,
          record {
            program = kit.from_base58 secp256r1_program_string;
            accounts = [];
            ix_data = inst_data;
          },
        )

  -- What the methods share: the guard, the message, the payload, and the instruction with it.
  unfoldable pub signed_instruction :
      Bytes
      → InstructionDataOptions
      → List SolAccountMeta
      → Option Bytes
      → (Bytes → SwigInstructionArgs)
      → List BuiltInstruction
      → List BuiltInstruction
      → Option SwigInstructionContext
  unfolding require_signing prepare_secp256r1_payload build
  signed_instruction public_key options metas message args pre_instructions post_instructions = do
    signing ← require_signing options
    data_payload ← message
    (payload, sig_verify_ix) ← prepare_secp256r1_payload data_payload metas public_key signing
    build metas (args payload) (pre_instructions ++ sig_verify_ix ∷ []) post_instructions
