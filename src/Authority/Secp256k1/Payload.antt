-- ===== src/Authority/Secp256k1/Payload.antt =====
-- lib/src/authority/instructions/secp256k1.ts: the payload, and what the methods share.
use swig_protocol_sdk.Common.{ℕ, Option, List, ◌++◌, Bytes, ◌>>=◌}
use swig_protocol_sdk.Kit.{Kit}
use swig_protocol_sdk.Instructions.Compact.{SolAccountMeta}
use swig_protocol_sdk.Instructions.SwigInstruction.{
  BuiltInstruction, SwigInstructionArgs, SwigInstructionContext, build,
}
use swig_protocol_sdk.Authority.Interface.{InstructionDataOptions}
use swig_protocol_sdk.Authority.Signing.{
  Hashes, SigningOptions, require_signing, slot_bytes, odometer_bytes, message_bytes,
}

-- 8 (slot) + 4 (counter) + 65 (signature)
unfoldable pub secp_authority_payload_size : ℕ
secp_authority_payload_size = 77

module _ ⦃kit : Kit⦄ (hashes : Hashes) where
  unfoldable pub prepare_secp_payload : Bytes → List SolAccountMeta → SigningOptions → Bytes
  unfolding message_bytes slot_bytes odometer_bytes
  prepare_secp_payload data_payload account_metas options =
      let message = message_bytes data_payload account_metas options in
      let r = options.signing_fn (hashes.hex_text (hashes.sha256 message)) in
      slot_bytes options ++ odometer_bytes options ++ r.signature ++ r.signing_prefix

  -- What the methods share: the guard, the message, the payload, and the instruction with it.
  unfoldable pub signed_instruction :
      InstructionDataOptions
      → List SolAccountMeta
      → Option Bytes
      → (Bytes → SwigInstructionArgs)
      → List BuiltInstruction
      → List BuiltInstruction
      → Option SwigInstructionContext
  unfolding require_signing prepare_secp_payload build
  signed_instruction options metas message args pre_instructions post_instructions = do
    signing ← require_signing options
    data_payload ← message
    build metas (args (prepare_secp_payload data_payload metas signing)) pre_instructions
        post_instructions
