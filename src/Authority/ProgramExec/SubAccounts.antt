-- ===== src/Authority/ProgramExec/SubAccounts.antt =====
-- lib/src/authority/instructions/programexec.ts: the methods on accounts of a role.
use swig_protocol_sdk.Common.{Option, [], Bytes}
use swig_protocol_sdk.Kit.{Kit}
use swig_protocol_sdk.Coder.Instructions.SubAccount.{
  SubAccountCreateInstructionDataArgs, SubAccountWithdrawInstructionDataArgs,
  SubAccountToggleInstructionDataArgs,
}
use swig_protocol_sdk.Instructions.Metas.{
  sub_account_withdraw_sol_metas, sub_account_withdraw_token_metas, sub_account_create_metas,
  sub_account_toggle_metas,
}
use swig_protocol_sdk.Instructions.SwigInstruction.{SwigInstructionArgs, SwigInstructionContext}
use swig_protocol_sdk.Authority.Interface.{InstructionDataOptions}
use swig_protocol_sdk.Authority.ProgramExec.Preceding.{program_instruction}

module _ ⦃kit : Kit⦄ where
  unfoldable pub sub_account_create_v1_instruction :
      Bytes
      → Bytes
      → Bytes
      → Bytes
      → SubAccountCreateInstructionDataArgs
      → InstructionDataOptions
      → Option SwigInstructionContext
  unfolding sub_account_create_metas
  sub_account_create_v1_instruction authority_data swig payer sub x options =
      program_instruction authority_data swig payer options
        (sub_account_create_metas swig payer sub) []
        (λ payload.
          SwigInstructionArgs.sub_account_create (record x { authority_payload = payload }))

  unfoldable pub sub_account_toggle_v1_instruction :
      Bytes
      → Bytes
      → Bytes
      → Bytes
      → SubAccountToggleInstructionDataArgs
      → InstructionDataOptions
      → Option SwigInstructionContext
  unfolding sub_account_toggle_metas
  sub_account_toggle_v1_instruction authority_data swig payer sub x options =
      program_instruction authority_data swig payer options
        (sub_account_toggle_metas swig payer sub) []
        (λ payload.
          SwigInstructionArgs.sub_account_toggle (record x { authority_payload = payload }))

  unfoldable pub sub_account_withdraw_v1_sol_instruction :
      Bytes
      → Bytes
      → Bytes
      → Bytes
      → Bytes
      → SubAccountWithdrawInstructionDataArgs
      → InstructionDataOptions
      → Option SwigInstructionContext
  unfolding sub_account_withdraw_sol_metas
  sub_account_withdraw_v1_sol_instruction authority_data swig payer sub system x options =
      program_instruction authority_data swig payer options
        (sub_account_withdraw_sol_metas swig payer sub system) []
        (λ payload.
          SwigInstructionArgs.sub_account_withdraw (record x { authority_payload = payload }))

  unfoldable pub sub_account_withdraw_v1_token_instruction :
      Bytes
      → Bytes
      → Bytes
      → Bytes
      → Bytes
      → Bytes
      → Bytes
      → Bytes
      → SubAccountWithdrawInstructionDataArgs
      → InstructionDataOptions
      → Option SwigInstructionContext
  unfolding sub_account_withdraw_token_metas
  sub_account_withdraw_v1_token_instruction authority_data swig payer sub system sub_token
        swig_token program x options =
      program_instruction authority_data swig payer options
        (sub_account_withdraw_token_metas swig payer sub system sub_token swig_token program) []
        (λ payload.
          SwigInstructionArgs.sub_account_withdraw (record x { authority_payload = payload }))
