-- ===== src/Instructions/Metas/Sign.antt =====
-- The accounts of signV1.ts, signV2.ts and createSessionV1.ts of
-- solana/typescript/packages/lib/src/instructions.
use swig_protocol_sdk.Common.{ℕ, List, [], ◌∷◌, ◌++◌, Bytes}
use swig_protocol_sdk.Kit.{Kit}
use swig_protocol_sdk.Instructions.Compact.{SolAccountMeta}
use swig_protocol_sdk.Instructions.Metas.Role.{
  AccountRole, from_kit_account_meta, with_authority, system_program,
}

module _ ⦃kit : Kit⦄ where
  unfoldable pub sign_v1_metas : Bytes → Bytes → List SolAccountMeta
  unfolding from_kit_account_meta
  sign_v1_metas swig payer =
      from_kit_account_meta swig AccountRole.writable
      ∷ from_kit_account_meta payer AccountRole.writable_signer
      ∷ []

  unfoldable pub sign_v1_metas_with_authority : Bytes → Bytes → Bytes → List SolAccountMeta × ℕ
  unfolding sign_v1_metas with_authority
  sign_v1_metas_with_authority swig payer authority =
      with_authority (sign_v1_metas swig payer) authority

  unfoldable pub sign_v1_metas_with_system_program :
      Bytes → Bytes → List SolAccountMeta → List SolAccountMeta
  unfolding sign_v1_metas from_kit_account_meta system_program
  sign_v1_metas_with_system_program swig payer other_metas =
      sign_v1_metas swig payer
      ++ from_kit_account_meta system_program AccountRole.readonly ∷ other_metas

  unfoldable pub sign_v2_metas : Bytes → Bytes → List SolAccountMeta
  unfolding from_kit_account_meta
  sign_v2_metas swig swig_system_address =
      from_kit_account_meta swig AccountRole.writable
      ∷ from_kit_account_meta swig_system_address AccountRole.writable
      ∷ []

  unfoldable pub sign_v2_metas_with_authority : Bytes → Bytes → Bytes → List SolAccountMeta × ℕ
  unfolding sign_v2_metas with_authority
  sign_v2_metas_with_authority swig swig_system_address authority =
      with_authority (sign_v2_metas swig swig_system_address) authority

  unfoldable pub sign_v2_metas_with_system_program :
      Bytes → Bytes → List SolAccountMeta → List SolAccountMeta
  unfolding sign_v2_metas from_kit_account_meta system_program
  sign_v2_metas_with_system_program swig swig_system_address other_metas =
      sign_v2_metas swig swig_system_address
      ++ from_kit_account_meta system_program AccountRole.readonly ∷ other_metas

  unfoldable pub create_session_metas : Bytes → Bytes → List SolAccountMeta
  unfolding from_kit_account_meta
  create_session_metas swig payer =
      from_kit_account_meta swig AccountRole.writable
      ∷ from_kit_account_meta payer AccountRole.writable_signer
      ∷ []

  unfoldable pub create_session_metas_with_authority :
      Bytes → Bytes → Bytes → List SolAccountMeta × ℕ
  unfolding create_session_metas with_authority
  create_session_metas_with_authority swig payer authority =
      with_authority (create_session_metas swig payer) authority

  unfoldable pub create_session_metas_with_system_program :
      Bytes → Bytes → List SolAccountMeta → List SolAccountMeta
  unfolding create_session_metas from_kit_account_meta system_program
  create_session_metas_with_system_program swig payer other_metas =
      create_session_metas swig payer
      ++ from_kit_account_meta system_program AccountRole.readonly ∷ other_metas
