-- ===== src/Authority/Secp256r1/Methods.antt =====
-- lib/src/authority/instructions/secp256r1.ts, `Secp256r1Instruction`, with one clause per method.
use swig_protocol_sdk.Common.{Option, List, Bytes}
use swig_protocol_sdk.Kit.{Kit}
use swig_protocol_sdk.Instructions.Compact.{SolAccountMeta}
use swig_protocol_sdk.Instructions.SwigInstruction.{SwigInstructionContext}
use swig_protocol_sdk.Authority.Interface.{InstructionDataOptions, AuthorityInstruction}
use swig_protocol_sdk.Authority.Signing.{Hashes}
use swig_protocol_sdk.Authority.Secp256r1.Authorities.{
  add_authority_v1_instruction, remove_authority_v1_instruction, update_authority_v1_instruction,
  create_session_v1_instruction,
}
use swig_protocol_sdk.Authority.Secp256r1.Sign.{
  sign_v1_instruction, sign_v2_instruction, sub_account_sign_v1_instruction,
}
use swig_protocol_sdk.Authority.Secp256r1.SubAccounts.{
  sub_account_create_v1_instruction, sub_account_toggle_v1_instruction,
  sub_account_withdraw_v1_sol_instruction, sub_account_withdraw_v1_token_instruction,
}
use swig_protocol_sdk.Authority.Secp256r1.Assets.{
  transfer_assets_v1_instruction, close_swig_v1_instruction, close_token_account_v1_instruction,
  add_authorization_lock_v1_instruction, remove_authorization_lock_v1_instruction,
}

module _ ⦃kit : Kit⦄ (hashes : Hashes) (store : List SolAccountMeta) where
  -- The methods, as one function.
  unfoldable pub secp256r1_instruction :
      Bytes → InstructionDataOptions → AuthorityInstruction → Option SwigInstructionContext
  unfolding add_authority_v1_instruction remove_authority_v1_instruction
      update_authority_v1_instruction sign_v1_instruction sign_v2_instruction
      create_session_v1_instruction sub_account_create_v1_instruction
      sub_account_sign_v1_instruction sub_account_withdraw_v1_sol_instruction
      sub_account_withdraw_v1_token_instruction sub_account_toggle_v1_instruction
      transfer_assets_v1_instruction close_swig_v1_instruction close_token_account_v1_instruction
      add_authorization_lock_v1_instruction remove_authorization_lock_v1_instruction
  secp256r1_instruction public_key options (AuthorityInstruction.add_authority swig payer x) =
      add_authority_v1_instruction hashes public_key swig payer x options
  secp256r1_instruction public_key options (AuthorityInstruction.remove_authority swig payer x) =
      remove_authority_v1_instruction hashes public_key swig payer x options
  secp256r1_instruction public_key options (AuthorityInstruction.update_authority swig payer x) =
      update_authority_v1_instruction hashes public_key swig payer x options
  secp256r1_instruction public_key options (AuthorityInstruction.sign_v1 swig payer role_id inner) =
      sign_v1_instruction hashes store public_key swig payer role_id inner options
  secp256r1_instruction public_key options
        (AuthorityInstruction.sign_v2 swig system role_id inner) =
      sign_v2_instruction hashes store public_key swig system role_id inner options
  secp256r1_instruction public_key options (AuthorityInstruction.create_session swig payer x) =
      create_session_v1_instruction hashes public_key swig payer x options
  secp256r1_instruction public_key options
        (AuthorityInstruction.sub_account_create swig payer sub x) =
      sub_account_create_v1_instruction hashes public_key swig payer sub x options
  secp256r1_instruction public_key options
        (AuthorityInstruction.sub_account_sign swig sub role_id inner) =
      sub_account_sign_v1_instruction hashes store public_key swig sub role_id inner options
  secp256r1_instruction public_key options
        (AuthorityInstruction.sub_account_withdraw_sol swig payer sub system x) =
      sub_account_withdraw_v1_sol_instruction hashes public_key swig payer sub system x options
  secp256r1_instruction public_key options
        (AuthorityInstruction.sub_account_withdraw_token swig payer sub system sub_token swig_token
          program x) =
      sub_account_withdraw_v1_token_instruction hashes public_key swig payer sub system sub_token
        swig_token program x options
  secp256r1_instruction public_key options
        (AuthorityInstruction.sub_account_toggle swig payer sub x) =
      sub_account_toggle_v1_instruction hashes public_key swig payer sub x options
  secp256r1_instruction public_key options
        (AuthorityInstruction.transfer_assets swig payer system x) =
      transfer_assets_v1_instruction hashes public_key swig payer system x options
  secp256r1_instruction public_key options
        (AuthorityInstruction.close_swig swig system destination x) =
      close_swig_v1_instruction hashes public_key swig system destination x options
  secp256r1_instruction public_key options
        (AuthorityInstruction.close_token_account swig system destination program token_accounts
          x) =
      close_token_account_v1_instruction hashes public_key swig system destination program
        token_accounts x options
  secp256r1_instruction public_key options
        (AuthorityInstruction.add_authorization_lock swig payer system asset mint x) =
      add_authorization_lock_v1_instruction hashes public_key swig payer system asset mint x options
  secp256r1_instruction public_key options
        (AuthorityInstruction.remove_authorization_lock swig payer system rent_claimer x) =
      remove_authorization_lock_v1_instruction hashes public_key swig payer system rent_claimer x
        options
