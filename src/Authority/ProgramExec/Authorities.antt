-- ===== src/Authority/ProgramExec/Authorities.antt =====
-- lib/src/authority/instructions/programexec.ts: the methods that change the roles, and the one that starts a session.
use swig_protocol_sdk.Common.{Option, [], Bytes}
use swig_protocol_sdk.Kit.{Kit}
use swig_protocol_sdk.Coder.Instructions.Authority.{
  AddAuthorityInstructionDataArgs, RemoveAuthorityInstructionDataArgs,
  UpdateAuthorityInstructionDataArgs,
}
use swig_protocol_sdk.Coder.Instructions.Session.{CreateSessionInstructionDataArgs}
use swig_protocol_sdk.Instructions.Metas.{
  create_session_metas, add_authority_metas, remove_authority_metas, update_authority_metas,
}
use swig_protocol_sdk.Instructions.SwigInstruction.{SwigInstructionArgs, SwigInstructionContext}
use swig_protocol_sdk.Authority.Interface.{InstructionDataOptions}
use swig_protocol_sdk.Authority.ProgramExec.Preceding.{program_instruction}

module _ ⦃kit : Kit⦄ where
  unfoldable pub add_authority_v1_instruction :
      Bytes
      → Bytes
      → Bytes
      → AddAuthorityInstructionDataArgs
      → InstructionDataOptions
      → Option SwigInstructionContext
  unfolding add_authority_metas
  add_authority_v1_instruction authority_data swig payer x options =
      program_instruction authority_data swig payer options (add_authority_metas swig payer) []
        (λ payload. SwigInstructionArgs.add_authority (record x { authority_payload = payload }))

  unfoldable pub remove_authority_v1_instruction :
      Bytes
      → Bytes
      → Bytes
      → RemoveAuthorityInstructionDataArgs
      → InstructionDataOptions
      → Option SwigInstructionContext
  unfolding remove_authority_metas
  remove_authority_v1_instruction authority_data swig payer x options =
      program_instruction authority_data swig payer options (remove_authority_metas swig payer) []
        (λ payload. SwigInstructionArgs.remove_authority (record x { authority_payload = payload }))

  unfoldable pub update_authority_v1_instruction :
      Bytes
      → Bytes
      → Bytes
      → UpdateAuthorityInstructionDataArgs
      → InstructionDataOptions
      → Option SwigInstructionContext
  unfolding update_authority_metas
  update_authority_v1_instruction authority_data swig payer x options =
      program_instruction authority_data swig payer options (update_authority_metas swig payer) []
        (λ payload. SwigInstructionArgs.update_authority (record x { authority_payload = payload }))

  unfoldable pub create_session_v1_instruction :
      Bytes
      → Bytes
      → Bytes
      → CreateSessionInstructionDataArgs
      → InstructionDataOptions
      → Option SwigInstructionContext
  unfolding create_session_metas
  create_session_v1_instruction authority_data swig payer x options =
      program_instruction authority_data swig payer options (create_session_metas swig payer) []
        (λ payload. SwigInstructionArgs.create_session (record x { authority_payload = payload }))
