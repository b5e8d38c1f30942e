-- ===== src/Authority/ProgramExec/Requests.antt =====
-- Every instruction of an authority that is a program comes with the checked one in front.
use swig_protocol_sdk.Common.{◌≡◌, refl, some, List, [], ◌∷◌, Bytes, All, arith}
use swig_protocol_sdk.Kit.{Kit}
use swig_protocol_sdk.Instructions.Compact.{SolAccountMeta}
use swig_protocol_sdk.Instructions.Compact.Resolve.{Valid}
use swig_protocol_sdk.Instructions.Metas.{sign_v1_metas, sign_v2_metas, sub_account_sign_metas}
use swig_protocol_sdk.Instructions.SwigInstruction.{SwigInstructionContext}
use swig_protocol_sdk.Authority.Interface.{InstructionDataOptions, AuthorityInstruction}
use swig_protocol_sdk.Authority.Interface.Compacted.{compact-OwnAt}
use swig_protocol_sdk.Authority.Ed25519.Authorised.{inner_of}
use swig_protocol_sdk.Authority.ProgramExec.Preceding.{instructions_sysvar_meta}
use swig_protocol_sdk.Authority.ProgramExec.Authorities.{
  add_authority_v1_instruction, remove_authority_v1_instruction, update_authority_v1_instruction,
  create_session_v1_instruction,
}
use swig_protocol_sdk.Authority.ProgramExec.Sign.{
  sign_v1_instruction, sign_v2_instruction, sub_account_sign_v1_instruction,
}
use swig_protocol_sdk.Authority.ProgramExec.SubAccounts.{
  sub_account_create_v1_instruction, sub_account_toggle_v1_instruction,
  sub_account_withdraw_v1_sol_instruction, sub_account_withdraw_v1_token_instruction,
}
use swig_protocol_sdk.Authority.ProgramExec.Assets.{
  transfer_assets_v1_instruction, close_swig_v1_instruction, close_token_account_v1_instruction,
  add_authorization_lock_v1_instruction, remove_authorization_lock_v1_instruction,
}
use swig_protocol_sdk.Authority.ProgramExec.Methods.{program_exec_instruction}
use swig_protocol_sdk.Authority.ProgramExec.Checked.{
  Checked, GivesChecked, program_instruction-GivesChecked, program_sign_instruction-GivesChecked,
}

-- The wallet of a request.
abbrev pub swig_of : AuthorityInstruction → Bytes
swig_of (AuthorityInstruction.add_authority swig payer x) = swig
swig_of (AuthorityInstruction.remove_authority swig payer x) = swig
swig_of (AuthorityInstruction.update_authority swig payer x) = swig
swig_of (AuthorityInstruction.sign_v1 swig payer role_id inner) = swig
swig_of (AuthorityInstruction.sign_v2 swig system role_id inner) = swig
swig_of (AuthorityInstruction.create_session swig payer x) = swig
swig_of (AuthorityInstruction.sub_account_create swig payer sub x) = swig
swig_of (AuthorityInstruction.sub_account_sign swig sub role_id inner) = swig
swig_of (AuthorityInstruction.sub_account_withdraw_sol swig payer sub system x) = swig
swig_of
      (AuthorityInstruction.sub_account_withdraw_token swig payer sub system sub_token swig_token
        program x) =
    swig
swig_of (AuthorityInstruction.sub_account_toggle swig payer sub x) = swig
swig_of (AuthorityInstruction.transfer_assets swig payer system x) = swig
swig_of (AuthorityInstruction.close_swig swig system destination x) = swig
swig_of
      (AuthorityInstruction.close_token_account swig system destination program token_accounts x) =
    swig
swig_of (AuthorityInstruction.add_authorization_lock swig payer system asset mint x) = swig
swig_of (AuthorityInstruction.remove_authorization_lock swig payer system rent_claimer x) = swig

-- The account that the instruction in front has to name beside the wallet.
abbrev pub second_of : AuthorityInstruction → Bytes
second_of (AuthorityInstruction.add_authority swig payer x) = payer
second_of (AuthorityInstruction.remove_authority swig payer x) = payer
second_of (AuthorityInstruction.update_authority swig payer x) = payer
second_of (AuthorityInstruction.sign_v1 swig payer role_id inner) = payer
second_of (AuthorityInstruction.sign_v2 swig system role_id inner) = system
second_of (AuthorityInstruction.create_session swig payer x) = payer
second_of (AuthorityInstruction.sub_account_create swig payer sub x) = payer
second_of (AuthorityInstruction.sub_account_sign swig sub role_id inner) = sub
second_of (AuthorityInstruction.sub_account_withdraw_sol swig payer sub system x) = payer
second_of
      (AuthorityInstruction.sub_account_withdraw_token swig payer sub system sub_token swig_token
        program x) =
    payer
second_of (AuthorityInstruction.sub_account_toggle swig payer sub x) = payer
second_of (AuthorityInstruction.transfer_assets swig payer system x) = payer
second_of (AuthorityInstruction.close_swig swig system destination x) = destination
second_of
      (AuthorityInstruction.close_token_account swig system destination program token_accounts x) =
    destination
second_of (AuthorityInstruction.add_authorization_lock swig payer system asset mint x) = system
second_of (AuthorityInstruction.remove_authorization_lock swig payer system rent_claimer x) = system

module _ ⦃kit : Kit⦄ where
  program_exec_instruction-GivesChecked :
      (store : List SolAccountMeta) (authority_data : Bytes) (options : InstructionDataOptions)
      (request : AuthorityInstruction)
      → All (λ ix. Valid store ix.accounts) (inner_of request)
      → GivesChecked authority_data
          (swig_of request)
          (second_of request)
          options
          (program_exec_instruction store authority_data options request)
  unfolding program_exec_instruction add_authority_v1_instruction remove_authority_v1_instruction
      update_authority_v1_instruction create_session_v1_instruction sign_v1_instruction
      sign_v2_instruction sub_account_sign_v1_instruction sub_account_create_v1_instruction
      sub_account_toggle_v1_instruction sub_account_withdraw_v1_sol_instruction
      sub_account_withdraw_v1_token_instruction transfer_assets_v1_instruction
      close_swig_v1_instruction close_token_account_v1_instruction
      add_authorization_lock_v1_instruction remove_authorization_lock_v1_instruction sign_v1_metas
      sign_v2_metas sub_account_sign_metas
  program_exec_instruction-GivesChecked store authority_data options
        (AuthorityInstruction.sign_v1 swig payer role_id inner) v =
      program_sign_instruction-GivesChecked authority_data swig payer options 2
        (compact-OwnAt store swig _ inner [] 2 instructions_sysvar_meta (omega arith) refl v) _
        (λ cs p. refl)
  program_exec_instruction-GivesChecked store authority_data options
        (AuthorityInstruction.sign_v2 swig system role_id inner) v =
      program_sign_instruction-GivesChecked authority_data swig system options 2
        (compact-OwnAt store swig _ inner (system ∷ []) 2 instructions_sysvar_meta (omega arith)
          refl v)
        _ (λ cs p. refl)
  program_exec_instruction-GivesChecked store authority_data options
        (AuthorityInstruction.sub_account_sign swig sub role_id inner) v =
      program_sign_instruction-GivesChecked authority_data swig sub options 3
        (compact-OwnAt store swig _ inner (sub ∷ []) 3 instructions_sysvar_meta (omega arith) refl
          v)
        _ (λ cs p. refl)
  program_exec_instruction-GivesChecked store authority_data options
        (AuthorityInstruction.add_authority swig payer x) v =
      program_instruction-GivesChecked authority_data swig payer options _ _ _ (λ p. refl)
  program_exec_instruction-GivesChecked store authority_data options
        (AuthorityInstruction.remove_authority swig payer x) v =
      program_instruction-GivesChecked authority_data swig payer options _ _ _ (λ p. refl)
  program_exec_instruction-GivesChecked store authority_data options
        (AuthorityInstruction.update_authority swig payer x) v =
      program_instruction-GivesChecked authority_data swig payer options _ _ _ (λ p. refl)
  program_exec_instruction-GivesChecked store authority_data options
        (AuthorityInstruction.create_session swig payer x) v =
      program_instruction-GivesChecked authority_data swig payer options _ _ _ (λ p. refl)
  program_exec_instruction-GivesChecked store authority_data options
        (AuthorityInstruction.sub_account_create swig payer sub x) v =
      program_instruction-GivesChecked authority_data swig payer options _ _ _ (λ p. refl)
  program_exec_instruction-GivesChecked store authority_data options
        (AuthorityInstruction.sub_account_withdraw_sol swig payer sub system x) v =
      program_instruction-GivesChecked authority_data swig payer options _ _ _ (λ p. refl)
  program_exec_instruction-GivesChecked store authority_data options
        (AuthorityInstruction.sub_account_withdraw_token swig payer sub system sub_token swig_token
          program x)
        v =
      program_instruction-GivesChecked authority_data swig payer options _ _ _ (λ p. refl)
  program_exec_instruction-GivesChecked store authority_data options
        (AuthorityInstruction.sub_account_toggle swig payer sub x) v =
      program_instruction-GivesChecked authority_data swig payer options _ _ _ (λ p. refl)
  program_exec_instruction-GivesChecked store authority_data options
        (AuthorityInstruction.transfer_assets swig payer system x) v =
      program_instruction-GivesChecked authority_data swig payer options _ _ _ (λ p. refl)
  program_exec_instruction-GivesChecked store authority_data options
        (AuthorityInstruction.close_swig swig system destination x) v =
      program_instruction-GivesChecked authority_data swig destination options _ _ _ (λ p. refl)
  program_exec_instruction-GivesChecked store authority_data options
        (AuthorityInstruction.close_token_account swig system destination program token_accounts x)
        v =
      program_instruction-GivesChecked authority_data swig destination options _ _ _ (λ p. refl)
  program_exec_instruction-GivesChecked store authority_data options
        (AuthorityInstruction.add_authorization_lock swig payer system asset mint x) v =
      program_instruction-GivesChecked authority_data swig system options _ _ _ (λ p. refl)
  program_exec_instruction-GivesChecked store authority_data options
        (AuthorityInstruction.remove_authorization_lock swig payer system rent_claimer x) v =
      program_instruction-GivesChecked authority_data swig system options _ _ _ (λ p. refl)

  -- Let the accounts of inner instructions be places in the store, and let a method of
  -- ProgramExecInstruction give an instruction. Then exactly one instruction comes in front of it:
  -- it runs the program of the authority's data, its data start with the prefix there, cut to its
  -- length, and its accounts have the wallet and the payer (or the account that stands for it in
  -- that method). The instructions behind are those of the options, and the data end in one
  -- number, the index of an account with the key of the sysvar of the instructions.
  pub program_exec_instruction-Checked :
      (store : List SolAccountMeta) (authority_data : Bytes) (options : InstructionDataOptions)
      (request : AuthorityInstruction)
      → All (λ ix. Valid store ix.accounts) (inner_of request)
      → (c : SwigInstructionContext)
      → program_exec_instruction store authority_data options request ≡ some c
      → Checked authority_data (swig_of request) (second_of request) options c
  program_exec_instruction-Checked store authority_data options request v =
      (program_exec_instruction-GivesChecked store authority_data options request v).gives
