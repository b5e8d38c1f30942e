-- ===== src/Authority/Secp256k1/Authorities.antt =====
-- lib/src/authority/instructions/secp256k1.ts: the methods that change the roles, and the one that starts a session.
use swig_protocol_sdk.Common.{Option, [], Bytes}
use swig_protocol_sdk.Kit.{Kit}
use swig_protocol_sdk.Coder.Instructions.Authority.{
  AddAuthorityInstructionDataArgs, RemoveAuthorityInstructionDataArgs,
  UpdateAuthorityInstructionDataArgs, write_add_authority_payload, write_remove_authority_payload,
  write_update_authority_payload,
}
use swig_protocol_sdk.Coder.Instructions.Session.{
  CreateSessionInstructionDataArgs, write_create_session_payload,
}
use swig_protocol_sdk.Instructions.Metas.{
  add_authority_metas, remove_authority_metas, update_authority_metas,
  create_session_metas_with_system_program,
}
use swig_protocol_sdk.Instructions.SwigInstruction.{SwigInstructionArgs, SwigInstructionContext}
use swig_protocol_sdk.Authority.Interface.{InstructionDataOptions}
use swig_protocol_sdk.Authority.Signing.{Hashes}
use swig_protocol_sdk.Authority.Secp256k1.Payload.{signed_instruction, secp_authority_payload_size}

module _ ⦃kit : Kit⦄ (hashes : Hashes) where
  unfoldable pub add_authority_v1_instruction :
      Bytes
      → Bytes
      → AddAuthorityInstructionDataArgs
      → InstructionDataOptions
      → Option SwigInstructionContext
  unfolding add_authority_metas write_add_authority_payload
  add_authority_v1_instruction swig payer x options =
      signed_instruction hashes options (add_authority_metas swig payer)
        (write_add_authority_payload x)
        (λ payload. SwigInstructionArgs.add_authority (record x { authority_payload = payload })) []
        []

  unfoldable pub remove_authority_v1_instruction :
      Bytes
      → Bytes
      → RemoveAuthorityInstructionDataArgs
      → InstructionDataOptions
      → Option SwigInstructionContext
  unfolding remove_authority_metas write_remove_authority_payload secp_authority_payload_size
  remove_authority_v1_instruction swig payer x options =
      signed_instruction hashes options (remove_authority_metas swig payer)
        (write_remove_authority_payload secp_authority_payload_size x)
        (λ payload. SwigInstructionArgs.remove_authority (record x { authority_payload = payload }))
        [] []

  unfoldable pub update_authority_v1_instruction :
      Bytes
      → Bytes
      → UpdateAuthorityInstructionDataArgs
      → InstructionDataOptions
      → Option SwigInstructionContext
  unfolding update_authority_metas write_update_authority_payload
  update_authority_v1_instruction swig payer x options =
      signed_instruction hashes options (update_authority_metas swig payer)
        (write_update_authority_payload x)
        (λ payload. SwigInstructionArgs.update_authority (record x { authority_payload = payload }))
        [] []

  unfoldable pub create_session_v1_instruction :
      Bytes
      → Bytes
      → CreateSessionInstructionDataArgs
      → InstructionDataOptions
      → Option SwigInstructionContext
  unfolding create_session_metas_with_system_program write_create_session_payload
  create_session_v1_instruction swig payer x options =
      signed_instruction hashes options (create_session_metas_with_system_program swig payer [])
        (write_create_session_payload x)
        (λ payload. SwigInstructionArgs.create_session (record x { authority_payload = payload }))
        [] []
