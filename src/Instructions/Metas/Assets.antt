-- ===== src/Instructions/Metas/Assets.antt =====
-- The accounts of transferAssetsV1.ts, closeSwigV1.ts and closeTokenAccountV1.ts of
-- solana/typescript/packages/lib/src/instructions.
use swig_protocol_sdk.Common.{ℕ, List, [], ◌∷◌, ◌++◌, Bytes}
use swig_protocol_sdk.Kit.{Kit}
use swig_protocol_sdk.Instructions.Compact.{SolAccountMeta}
use swig_protocol_sdk.Instructions.Metas.Role.{
  AccountRole, from_kit_account_meta, with_authority, system_program,
}

module _ ⦃kit : Kit⦄ where
  unfoldable pub transfer_assets_metas : Bytes → Bytes → Bytes → List SolAccountMeta
  unfolding from_kit_account_meta system_program
  transfer_assets_metas swig payer swig_system_address =
      from_kit_account_meta swig AccountRole.writable
      ∷ from_kit_account_meta swig_system_address AccountRole.writable
      ∷ from_kit_account_meta payer AccountRole.writable_signer
      ∷ from_kit_account_meta system_program AccountRole.readonly
      ∷ []

  unfoldable pub transfer_assets_metas_with_authority :
      Bytes → Bytes → Bytes → Bytes → List SolAccountMeta × ℕ
  unfolding transfer_assets_metas with_authority
  transfer_assets_metas_with_authority swig payer swig_system_address authority =
      with_authority (transfer_assets_metas swig payer swig_system_address) authority

  unfoldable pub transfer_assets_metas_with_system_program :
      Bytes → Bytes → Bytes → List SolAccountMeta → List SolAccountMeta
  unfolding transfer_assets_metas
  transfer_assets_metas_with_system_program swig payer swig_system_address other_metas =
      transfer_assets_metas swig payer swig_system_address ++ other_metas

  unfoldable pub close_swig_metas : Bytes → Bytes → Bytes → List SolAccountMeta
  unfolding from_kit_account_meta system_program
  close_swig_metas swig swig_system_address destination =
      from_kit_account_meta swig AccountRole.writable
      ∷ from_kit_account_meta swig_system_address AccountRole.writable
      ∷ from_kit_account_meta destination AccountRole.writable
      ∷ from_kit_account_meta system_program AccountRole.readonly
      ∷ []

  unfoldable pub close_swig_metas_with_authority :
      Bytes → Bytes → Bytes → Bytes → List SolAccountMeta × ℕ
  unfolding close_swig_metas with_authority
  close_swig_metas_with_authority swig swig_system_address destination authority =
      with_authority (close_swig_metas swig swig_system_address destination) authority

  unfoldable pub close_token_account_metas : Bytes → Bytes → Bytes → Bytes → List SolAccountMeta
  unfolding from_kit_account_meta
  close_token_account_metas swig swig_system_address destination token_program =
      from_kit_account_meta swig AccountRole.writable
      ∷ from_kit_account_meta swig_system_address AccountRole.writable
      ∷ from_kit_account_meta destination AccountRole.writable
      ∷ from_kit_account_meta token_program AccountRole.readonly
      ∷ []

  unfoldable pub close_token_account_metas_with_authority :
      Bytes → Bytes → Bytes → Bytes → Bytes → List SolAccountMeta × ℕ
  unfolding close_token_account_metas with_authority
  close_token_account_metas_with_authority swig swig_system_address destination token_program
        authority =
      with_authority (close_token_account_metas swig swig_system_address destination token_program)
        authority
