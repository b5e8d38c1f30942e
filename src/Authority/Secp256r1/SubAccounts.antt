-- ===== src/Authority/Secp256r1/SubAccounts.antt =====
-- lib/src/authority/instructions/secp256r1.ts: the methods on accounts of a role.
use swig_protocol_sdk.Common.{Option, some, [], ◌∷◌, Bytes}
use swig_protocol_sdk.Kit.{Kit}
use swig_protocol_sdk.Coder.Instructions.SubAccount.{
  SubAccountCreateInstructionDataArgs, SubAccountWithdrawInstructionDataArgs,
  SubAccountToggleInstructionDataArgs, write_sub_account_create_payload,
  write_sub_account_withdraw_payload, write_sub_account_toggle_payload,
}
use swig_protocol_sdk.Instructions.Metas.{
  with_authority_context, sub_account_withdraw_sol_metas, sub_account_withdraw_token_metas,
  sub_account_create_metas_with_system_program, sub_account_toggle_metas_with_system_program,
}
use swig_protocol_sdk.Instructions.SwigInstruction.{SwigInstructionArgs, SwigInstructionContext}
use swig_protocol_sdk.Authority.Interface.{InstructionDataOptions}
use swig_protocol_sdk.Authority.Signing.{Hashes}
use swig_protocol_sdk.Authority.Secp256r1.Payload.{signed_instruction, instructions_sysvar}

module _ ⦃kit : Kit⦄ (hashes : Hashes) where
  unfoldable pub sub_account_create_v1_instruction :
      Bytes
      → Bytes
      → Bytes
      → Bytes
      → SubAccountCreateInstructionDataArgs
      → InstructionDataOptions
      → Option SwigInstructionContext
  unfolding sub_account_create_metas_with_system_program write_sub_account_create_payload
      instructions_sysvar
  sub_account_create_v1_instruction public_key swig payer sub x options =
      signed_instruction hashes public_key options
        (sub_account_create_metas_with_system_program swig payer sub (instructions_sysvar ∷ []))
        (write_sub_account_create_payload x)
        (λ payload.
          SwigInstructionArgs.sub_account_create (record x { authority_payload = payload }))
        [] []

  unfoldable pub sub_account_toggle_v1_instruction :
      Bytes
      → Bytes
      → Bytes
      → Bytes
      → SubAccountToggleInstructionDataArgs
      → InstructionDataOptions
      → Option SwigInstructionContext
  unfolding sub_account_toggle_metas_with_system_program write_sub_account_toggle_payload
      instructions_sysvar
  sub_account_toggle_v1_instruction public_key swig payer sub x options =
      signed_instruction hashes public_key options
        (sub_account_toggle_metas_with_system_program swig payer sub (instructions_sysvar ∷ []))
        (write_sub_account_toggle_payload x)
        (λ payload.
          SwigInstructionArgs.sub_account_toggle (record x { authority_payload = payload }))
        [] []

  unfoldable pub sub_account_withdraw_v1_sol_instruction :
      Bytes
      → Bytes
      → Bytes
      → Bytes
      → Bytes
      → SubAccountWithdrawInstructionDataArgs
      → InstructionDataOptions
      → Option SwigInstructionContext
  unfolding sub_account_withdraw_sol_metas with_authority_context write_sub_account_withdraw_payload
      instructions_sysvar
  sub_account_withdraw_v1_sol_instruction public_key swig payer sub system x options =
      let (metas, _) =
        with_authority_context (sub_account_withdraw_sol_metas swig payer sub system)
          (some instructions_sysvar) in
      signed_instruction hashes public_key options metas (write_sub_account_withdraw_payload x)
        (λ payload.
          SwigInstructionArgs.sub_account_withdraw (record x { authority_payload = payload }))
        [] []

  unfoldable pub sub_account_withdraw_v1_token_instruction :
      Bytes
      → Bytes
      → Bytes
      → Bytes
      → Bytes
      → Bytes
      → Bytes
      → Bytes
      → SubAccountWithdrawInstructionDataArgs
      → InstructionDataOptions
      → Option SwigInstructionContext
  unfolding sub_account_withdraw_token_metas with_authority_context
      write_sub_account_withdraw_payload instructions_sysvar
  sub_account_withdraw_v1_token_instruction public_key swig payer sub system sub_token swig_token
        program x options =
      let (metas, _) =
        with_authority_context
          (sub_account_withdraw_token_metas swig payer sub system sub_token swig_token program)
          (some instructions_sysvar) in
      signed_instruction hashes public_key options metas (write_sub_account_withdraw_payload x)
        (λ payload.
          SwigInstructionArgs.sub_account_withdraw (record x { authority_payload = payload }))
        [] []
