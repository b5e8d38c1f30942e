-- ===== src/Authority/Secp256k1/SubAccounts.antt =====
-- lib/src/authority/instructions/secp256k1.ts: the methods on accounts of a role.
use swig_protocol_sdk.Common.{Option, none, [], Bytes}
use swig_protocol_sdk.Kit.{Kit}
use swig_protocol_sdk.Coder.Instructions.SubAccount.{
  SubAccountCreateInstructionDataArgs, SubAccountWithdrawInstructionDataArgs,
  SubAccountToggleInstructionDataArgs, write_sub_account_create_payload,
  write_sub_account_withdraw_payload, write_sub_account_toggle_payload,
}
use swig_protocol_sdk.Instructions.Metas.{
  with_authority_context, sub_account_withdraw_sol_metas, sub_account_withdraw_token_metas,
  sub_account_create_metas, sub_account_toggle_metas,
}
use swig_protocol_sdk.Instructions.SwigInstruction.{SwigInstructionArgs, SwigInstructionContext}
use swig_protocol_sdk.Authority.Interface.{InstructionDataOptions}
use swig_protocol_sdk.Authority.Signing.{Hashes}
use swig_protocol_sdk.Authority.Secp256k1.Payload.{signed_instruction}

module _ ⦃kit : Kit⦄ (hashes : Hashes) where
  unfoldable pub sub_account_create_v1_instruction :
      Bytes
      → Bytes
      → Bytes
      → SubAccountCreateInstructionDataArgs
      → InstructionDataOptions
      → Option SwigInstructionContext
  unfolding sub_account_create_metas write_sub_account_create_payload
  sub_account_create_v1_instruction swig payer sub x options =
      signed_instruction hashes options (sub_account_create_metas swig payer sub)
        (write_sub_account_create_payload x)
        (λ payload.
          SwigInstructionArgs.sub_account_create (record x { authority_payload = payload }))
        [] []

  unfoldable pub sub_account_toggle_v1_instruction :
      Bytes
      → Bytes
      → Bytes
      → SubAccountToggleInstructionDataArgs
      → InstructionDataOptions
      → Option SwigInstructionContext
  unfolding sub_account_toggle_metas write_sub_account_toggle_payload
  sub_account_toggle_v1_instruction swig payer sub x options =
      signed_instruction hashes options (sub_account_toggle_metas swig payer sub)
        (write_sub_account_toggle_payload x)
        (λ payload.
          SwigInstructionArgs.sub_account_toggle (record x { authority_payload = payload }))
        [] []

  unfoldable pub sub_account_withdraw_v1_sol_instruction :
      Bytes
      → Bytes
      → Bytes
      → Bytes
      → SubAccountWithdrawInstructionDataArgs
      → InstructionDataOptions
      → Option SwigInstructionContext
  unfolding sub_account_withdraw_sol_metas with_authority_context write_sub_account_withdraw_payload
  sub_account_withdraw_v1_sol_instruction swig payer sub system x options =
      let (metas, _) =
        with_authority_context (sub_account_withdraw_sol_metas swig payer sub system) none in
      signed_instruction hashes options metas (write_sub_account_withdraw_payload x)
        (λ payload.
          SwigInstructionArgs.sub_account_withdraw (record x { authority_payload = payload }))
        [] []

  unfoldable pub sub_account_withdraw_v1_token_instruction :
      Bytes
      → Bytes
      → Bytes
      → Bytes
      → Bytes
      → Bytes
      → Bytes
      → SubAccountWithdrawInstructionDataArgs
      → InstructionDataOptions
      → Option SwigInstructionContext
  unfolding sub_account_withdraw_token_metas with_authority_context
      write_sub_account_withdraw_payload
  sub_account_withdraw_v1_token_instruction swig payer sub system sub_token swig_token program x
        options =
      let (metas, _) =
        with_authority_context
          (sub_account_withdraw_token_metas swig payer sub system sub_token swig_token program)
          none in
      signed_instruction hashes options metas (write_sub_account_withdraw_payload x)
        (λ payload.
          SwigInstructionArgs.sub_account_withdraw (record x { authority_payload = payload }))
        [] []
