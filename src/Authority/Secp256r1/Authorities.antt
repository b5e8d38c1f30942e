-- ===== src/Authority/Secp256r1/Authorities.antt =====
-- lib/src/authority/instructions/secp256r1.ts: the methods that change the roles, and the one that starts a session.
use swig_protocol_sdk.Common.{Option, [], ◌∷◌, Bytes}
use swig_protocol_sdk.Kit.{Kit}
use swig_protocol_sdk.Coder.Instructions.Authority.{
  AddAuthorityInstructionDataArgs, RemoveAuthorityInstructionDataArgs,
  UpdateAuthorityInstructionDataArgs, write_add_authority_payload, write_remove_authority_payload,
  write_update_authority_payload,
}
use swig_protocol_sdk.Coder.Instructions.Session.{
  CreateSessionInstructionDataArgs, write_create_session_payload,
}
use swig_protocol_sdk.Instructions.Metas.{
  add_authority_metas_with_system_program, remove_authority_metas_with_system_program,
  update_authority_metas_with_system_program, create_session_metas_with_system_program,
}
use swig_protocol_sdk.Instructions.SwigInstruction.{SwigInstructionArgs, SwigInstructionContext}
use swig_protocol_sdk.Authority.Interface.{InstructionDataOptions}
use swig_protocol_sdk.Authority.Signing.{Hashes}
use swig_protocol_sdk.Authority.Secp256r1.Payload.{
  signed_instruction, secp256r1_authority_payload_size, instructions_sysvar,
}

module _ ⦃kit : Kit⦄ (hashes : Hashes) where
  unfoldable pub add_authority_v1_instruction :
      Bytes
      → Bytes
      → Bytes
      → AddAuthorityInstructionDataArgs
      → InstructionDataOptions
      → Option SwigInstructionContext
  unfolding add_authority_metas_with_system_program write_add_authority_payload instructions_sysvar
  add_authority_v1_instruction public_key swig payer x options =
      signed_instruction hashes public_key options
        (add_authority_metas_with_system_program swig payer (instructions_sysvar ∷ []))
        (write_add_authority_payload x)
        (λ payload. SwigInstructionArgs.add_authority (record x { authority_payload = payload })) []
        []

  unfoldable pub remove_authority_v1_instruction :
      Bytes
      → Bytes
      → Bytes
      → RemoveAuthorityInstructionDataArgs
      → InstructionDataOptions
      → Option SwigInstructionContext
  unfolding remove_authority_metas_with_system_program write_remove_authority_payload
      instructions_sysvar secp256r1_authority_payload_size
  remove_authority_v1_instruction public_key swig payer x options =
      signed_instruction hashes public_key options
        (remove_authority_metas_with_system_program swig payer (instructions_sysvar ∷ []))
        (write_remove_authority_payload secp256r1_authority_payload_size x)
        (λ payload. SwigInstructionArgs.remove_authority (record x { authority_payload = payload }))
        [] []

  unfoldable pub update_authority_v1_instruction :
      Bytes
      → Bytes
      → Bytes
      → UpdateAuthorityInstructionDataArgs
      → InstructionDataOptions
      → Option SwigInstructionContext
  unfolding update_authority_metas_with_system_program write_update_authority_payload
      instructions_sysvar
  update_authority_v1_instruction public_key swig payer x options =
      signed_instruction hashes public_key options
        (update_authority_metas_with_system_program swig payer (instructions_sysvar ∷ []))
        (write_update_authority_payload x)
        (λ payload. SwigInstructionArgs.update_authority (record x { authority_payload = payload }))
        [] []

  unfoldable pub create_session_v1_instruction :
      Bytes
      → Bytes
      → Bytes
      → CreateSessionInstructionDataArgs
      → InstructionDataOptions
      → Option SwigInstructionContext
  unfolding create_session_metas_with_system_program write_create_session_payload
      instructions_sysvar
  create_session_v1_instruction public_key swig payer x options =
      signed_instruction hashes public_key options
        (create_session_metas_with_system_program swig payer (instructions_sysvar ∷ []))
        (write_create_session_payload x)
        (λ payload. SwigInstructionArgs.create_session (record x { authority_payload = payload }))
        [] []
