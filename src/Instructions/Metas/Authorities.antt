-- ===== src/Instructions/Metas/Authorities.antt =====
-- The accounts of the instructions on authorities and sessions: createV1.ts, addAuthorityV1.ts,
-- removeAuthorityV1.ts, updateAuthorityV1.ts of solana/typescript/packages/lib/src/instructions.
use swig_protocol_sdk.Common.{ℕ, List, [], ◌∷◌, ◌++◌, Bytes}
use swig_protocol_sdk.Kit.{Kit}
use swig_protocol_sdk.Instructions.Compact.{SolAccountMeta}
use swig_protocol_sdk.Instructions.Metas.Role.{
  AccountRole, from_kit_account_meta, with_authority, system_program,
}

module _ ⦃kit : Kit⦄ where
  unfoldable pub create_v1_metas : Bytes → Bytes → Bytes → List SolAccountMeta
  unfolding from_kit_account_meta system_program
  create_v1_metas swig payer swig_system_address =
      from_kit_account_meta swig AccountRole.writable
      ∷ from_kit_account_meta payer AccountRole.writable_signer
      ∷ from_kit_account_meta swig_system_address AccountRole.writable
      ∷ from_kit_account_meta system_program AccountRole.readonly
      ∷ []

  unfoldable pub add_authority_metas : Bytes → Bytes → List SolAccountMeta
  unfolding from_kit_account_meta system_program
  add_authority_metas swig payer =
      from_kit_account_meta swig AccountRole.writable
      ∷ from_kit_account_meta payer AccountRole.writable_signer
      ∷ from_kit_account_meta system_program AccountRole.readonly
      ∷ []

  unfoldable pub add_authority_metas_with_authority :
      Bytes → Bytes → Bytes → List SolAccountMeta × ℕ
  unfolding add_authority_metas with_authority
  add_authority_metas_with_authority swig payer authority =
      with_authority (add_authority_metas swig payer) authority

  unfoldable pub add_authority_metas_with_system_program :
      Bytes → Bytes → List SolAccountMeta → List SolAccountMeta
  unfolding add_authority_metas
  add_authority_metas_with_system_program swig payer other_metas =
      add_authority_metas swig payer ++ other_metas

  unfoldable pub remove_authority_metas : Bytes → Bytes → List SolAccountMeta
  unfolding from_kit_account_meta system_program
  remove_authority_metas swig payer =
      from_kit_account_meta swig AccountRole.writable
      ∷ from_kit_account_meta payer AccountRole.writable_signer
      ∷ from_kit_account_meta system_program AccountRole.readonly
      ∷ []

  unfoldable pub remove_authority_metas_with_authority :
      Bytes → Bytes → Bytes → List SolAccountMeta × ℕ
  unfolding remove_authority_metas with_authority
  remove_authority_metas_with_authority swig payer authority =
      with_authority (remove_authority_metas swig payer) authority

  unfoldable pub remove_authority_metas_with_system_program :
      Bytes → Bytes → List SolAccountMeta → List SolAccountMeta
  unfolding remove_authority_metas
  remove_authority_metas_with_system_program swig payer other_metas =
      remove_authority_metas swig payer ++ other_metas

  unfoldable pub update_authority_metas : Bytes → Bytes → List SolAccountMeta
  unfolding from_kit_account_meta system_program
  update_authority_metas swig payer =
      from_kit_account_meta swig AccountRole.writable
      ∷ from_kit_account_meta payer AccountRole.writable_signer
      ∷ from_kit_account_meta system_program AccountRole.readonly
      ∷ []

  unfoldable pub update_authority_metas_with_authority :
      Bytes → Bytes → Bytes → List SolAccountMeta × ℕ
  unfolding update_authority_metas with_authority
  update_authority_metas_with_authority swig payer authority =
      with_authority (update_authority_metas swig payer) authority

  unfoldable pub update_authority_metas_with_system_program :
      Bytes → Bytes → List SolAccountMeta → List SolAccountMeta
  unfolding update_authority_metas
  update_authority_metas_with_system_program swig payer other_metas =
      update_authority_metas swig payer ++ other_metas
