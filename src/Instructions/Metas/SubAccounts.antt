-- ===== src/Instructions/Metas/SubAccounts.antt =====
-- The accounts of the instructions on sub-accounts, of solana/typescript/packages/lib/src/instructions.
use swig_protocol_sdk.Common.{ℕ, List, [], ◌∷◌, ◌++◌, Bytes}
use swig_protocol_sdk.Kit.{Kit}
use swig_protocol_sdk.Instructions.Compact.{SolAccountMeta}
use swig_protocol_sdk.Instructions.Metas.Role.{
  AccountRole, from_kit_account_meta, with_authority, system_program,
}

module _ ⦃kit : Kit⦄ where
  unfoldable pub sub_account_create_metas : Bytes → Bytes → Bytes → List SolAccountMeta
  unfolding from_kit_account_meta system_program
  sub_account_create_metas swig payer sub_account =
      from_kit_account_meta swig AccountRole.writable
      ∷ from_kit_account_meta payer AccountRole.writable_signer
      ∷ from_kit_account_meta sub_account AccountRole.writable
      ∷ from_kit_account_meta system_program AccountRole.readonly
      ∷ []

  unfoldable pub sub_account_create_metas_with_authority :
      Bytes → Bytes → Bytes → Bytes → List SolAccountMeta × ℕ
  unfolding sub_account_create_metas with_authority
  sub_account_create_metas_with_authority swig payer sub_account authority =
      with_authority (sub_account_create_metas swig payer sub_account) authority

  unfoldable pub sub_account_create_metas_with_system_program :
      Bytes → Bytes → Bytes → List SolAccountMeta → List SolAccountMeta
  unfolding sub_account_create_metas
  sub_account_create_metas_with_system_program swig payer sub_account other_metas =
      sub_account_create_metas swig payer sub_account ++ other_metas

  unfoldable pub sub_account_sign_metas : Bytes → Bytes → List SolAccountMeta
  unfolding from_kit_account_meta system_program
  sub_account_sign_metas swig sub_account =
      from_kit_account_meta swig AccountRole.writable
      ∷ from_kit_account_meta sub_account AccountRole.writable
      ∷ from_kit_account_meta system_program AccountRole.readonly
      ∷ []

  unfoldable pub sub_account_sign_metas_with_authority :
      Bytes → Bytes → Bytes → List SolAccountMeta × ℕ
  unfolding sub_account_sign_metas with_authority
  sub_account_sign_metas_with_authority swig sub_account authority =
      with_authority (sub_account_sign_metas swig sub_account) authority

  unfoldable pub sub_account_sign_metas_with_system_program :
      Bytes → Bytes → List SolAccountMeta → List SolAccountMeta
  unfolding sub_account_sign_metas
  sub_account_sign_metas_with_system_program swig sub_account other_metas =
      sub_account_sign_metas swig sub_account ++ other_metas

  unfoldable pub sub_account_toggle_metas : Bytes → Bytes → Bytes → List SolAccountMeta
  unfolding from_kit_account_meta
  sub_account_toggle_metas swig payer sub_account =
      from_kit_account_meta swig AccountRole.writable
      ∷ from_kit_account_meta payer AccountRole.writable_signer
      ∷ from_kit_account_meta sub_account AccountRole.writable
      ∷ []

  unfoldable pub sub_account_toggle_metas_with_authority :
      Bytes → Bytes → Bytes → Bytes → List SolAccountMeta × ℕ
  unfolding sub_account_toggle_metas with_authority
  sub_account_toggle_metas_with_authority swig payer sub_account authority =
      with_authority (sub_account_toggle_metas swig payer sub_account) authority

  unfoldable pub sub_account_toggle_metas_with_system_program :
      Bytes → Bytes → Bytes → List SolAccountMeta → List SolAccountMeta
  unfolding sub_account_toggle_metas from_kit_account_meta system_program
  sub_account_toggle_metas_with_system_program swig payer sub_account other_metas =
      sub_account_toggle_metas swig payer sub_account
      ++ from_kit_account_meta system_program AccountRole.readonly ∷ other_metas

  unfoldable pub sub_account_withdraw_sol_metas :
      Bytes → Bytes → Bytes → Bytes → List SolAccountMeta
  unfolding from_kit_account_meta system_program
  sub_account_withdraw_sol_metas swig payer sub_account swig_system_address =
      from_kit_account_meta swig AccountRole.writable
      ∷ from_kit_account_meta payer AccountRole.writable_signer
      ∷ from_kit_account_meta sub_account AccountRole.writable
      ∷ from_kit_account_meta swig_system_address AccountRole.writable
      ∷ from_kit_account_meta system_program AccountRole.readonly
      ∷ []

  unfoldable pub sub_account_withdraw_token_metas :
      Bytes → Bytes → Bytes → Bytes → Bytes → Bytes → Bytes → List SolAccountMeta
  unfolding from_kit_account_meta system_program
  sub_account_withdraw_token_metas swig payer sub_account swig_system_address sub_account_token
        swig_token token_program =
      from_kit_account_meta swig AccountRole.writable
      ∷ from_kit_account_meta payer AccountRole.writable_signer
      ∷ from_kit_account_meta sub_account AccountRole.writable
      ∷ from_kit_account_meta swig_system_address AccountRole.writable
      ∷ from_kit_account_meta system_program AccountRole.readonly
      ∷ from_kit_account_meta sub_account_token AccountRole.writable
      ∷ from_kit_account_meta swig_token AccountRole.writable
      ∷ from_kit_account_meta token_program AccountRole.readonly
      ∷ []
