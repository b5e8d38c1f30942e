-- ===== src/Authority/ProgramExec/Methods.antt =====
-- lib/src/authority/instructions/programexec.ts, `ProgramExecInstruction`, with one clause per method.
use swig_protocol_sdk.Common.{Option, List, Bytes}
use swig_protocol_sdk.Kit.{Kit}
use swig_protocol_sdk.Instructions.Compact.{SolAccountMeta}
use swig_protocol_sdk.Instructions.SwigInstruction.{SwigInstructionContext}
use swig_protocol_sdk.Authority.Interface.{InstructionDataOptions, AuthorityInstruction}
use swig_protocol_sdk.Authority.ProgramExec.Authorities.{
  add_authority_v1_instruction, remove_authority_v1_instruction, update_authority_v1_instruction,
  create_session_v1_instruction,
}
use swig_protocol_sdk.Authority.ProgramExec.Sign.{
  sign_v1_instruction, sign_v2_instruction, sub_account_sign_v1_instruction,
}
use swig_protocol_sdk.Authority.ProgramExec.SubAccounts.{
  sub_account_create_v1_instruction, sub_account_toggle_v1_instruction,
  sub_account_withdraw_v1_sol_instruction, sub_account_withdraw_v1_token_instruction,
}
use swig_protocol_sdk.Authority.ProgramExec.Assets.{
  transfer_assets_v1_instruction, close_swig_v1_instruction, close_token_account_v1_instruction,
  add_authorization_lock_v1_instruction, remove_authorization_lock_v1_instruction,
}

module _ ⦃kit : Kit⦄ (store : List SolAccountMeta) where
  -- The methods, as one function.
  unfoldable pub program_exec_instruction :
      Bytes → InstructionDataOptions → AuthorityInstruction → Option SwigInstructionContext
  unfolding add_authority_v1_instruction remove_authority_v1_instruction
      update_authority_v1_instruction sign_v1_instruction sign_v2_instruction
      create_session_v1_instruction sub_account_create_v1_instruction
      sub_account_sign_v1_instruction sub_account_withdraw_v1_sol_instruction
      sub_account_withdraw_v1_token_instruction sub_account_toggle_v1_instruction
      transfer_assets_v1_instruction close_swig_v1_instruction close_token_account_v1_instruction
      add_authorization_lock_v1_instruction remove_authorization_lock_v1_instruction
  program_exec_instruction authority_data options
        (AuthorityInstruction.add_authority swig payer x) =
      add_authority_v1_instruction authority_data swig payer x options
  program_exec_instruction authority_data options
        (AuthorityInstruction.remove_authority swig payer x) =
      remove_authority_v1_instruction authority_data swig payer x options
  program_exec_instruction authority_data options
        (AuthorityInstruction.update_authority swig payer x) =
      update_authority_v1_instruction authority_data swig payer x options
  program_exec_instruction authority_data options
        (AuthorityInstruction.sign_v1 swig payer role_id inner) =
      sign_v1_instruction store authority_data swig payer role_id inner options
  program_exec_instruction authority_data options
        (AuthorityInstruction.sign_v2 swig system role_id inner) =
      sign_v2_instruction store authority_data swig system role_id inner options
  program_exec_instruction authority_data options
        (AuthorityInstruction.create_session swig payer x) =
      create_session_v1_instruction authority_data swig payer x options
  program_exec_instruction authority_data options
        (AuthorityInstruction.sub_account_create swig payer sub x) =
      sub_account_create_v1_instruction authority_data swig payer sub x options
  program_exec_instruction authority_data options
        (AuthorityInstruction.sub_account_sign swig sub role_id inner) =
      sub_account_sign_v1_instruction store authority_data swig sub role_id inner options
  program_exec_instruction authority_data options
        (AuthorityInstruction.sub_account_withdraw_sol swig payer sub system x) =
      sub_account_withdraw_v1_sol_instruction authority_data swig payer sub system x options
  program_exec_instruction authority_data options
        (AuthorityInstruction.sub_account_withdraw_token swig payer sub system sub_token swig_token
          program x) =
      sub_account_withdraw_v1_token_instruction authority_data swig payer sub system sub_token
        swig_token program x options
  program_exec_instruction authority_data options
        (AuthorityInstruction.sub_account_toggle swig payer sub x) =
      sub_account_toggle_v1_instruction authority_data swig payer sub x options
  program_exec_instruction authority_data options
        (AuthorityInstruction.transfer_assets swig payer system x) =
      transfer_assets_v1_instruction authority_data swig payer system x options
  program_exec_instruction authority_data options
        (AuthorityInstruction.close_swig swig system destination x) =
      close_swig_v1_instruction authority_data swig system destination x options
  program_exec_instruction authority_data options
        (AuthorityInstruction.close_token_account swig system destination program token_accounts
          x) =
      close_token_account_v1_instruction authority_data swig system destination program
        token_accounts x options
  program_exec_instruction authority_data options
        (AuthorityInstruction.add_authorization_lock swig payer system asset mint x) =
      add_authorization_lock_v1_instruction authority_data swig payer system asset mint x options
  program_exec_instruction authority_data options
        (AuthorityInstruction.remove_authorization_lock swig payer system rent_claimer x) =
      remove_authorization_lock_v1_instruction authority_data swig payer system rent_claimer x
        options
