-- ===== src/Coder/Instructions/Assets/RoundTrip.antt =====
-- What is written of these instructions is read back, with its constant fields.
use swig_protocol_sdk.Common.{◌+◌, ◌≡◌, refl, length, zeros, arith}
use swig_protocol_sdk.Kit.{Kit, EncodesAll}
use swig_protocol_sdk.Kit.Laws.{EncodesAll-then, EncodesAll-rest, Encodes-uint, Encodes-fixed}
use swig_protocol_sdk.Coder.Instructions.Discriminator.{
  SwigInstructionDiscriminator, discriminator_code, Encodes-discriminator,
}
use swig_protocol_sdk.Coder.Instructions.Assets.{
  TransferAssetsInstructionDataArgs, IsTransferAssets, write_transfer_assets, read_transfer_assets,
  CloseTokenAccountInstructionDataArgs, IsCloseTokenAccount, write_close_token_account,
  read_close_token_account, CloseSwigInstructionDataArgs, IsCloseSwig, write_close_swig,
  read_close_swig,
}

module _ ⦃kit : Kit⦄ where
  pub EncodesAll-transfer_assets :
      (x : TransferAssetsInstructionDataArgs)
      → IsTransferAssets x
      → EncodesAll
          (write_transfer_assets x)
          (8 + length x.authority_payload)
          read_transfer_assets
          (record {
            discriminator = discriminator_code SwigInstructionDiscriminator.transfer_assets_v1;
            padding = zeros 2;
            role_id = x.role_id;
            authority_payload = x.authority_payload;
          })
  unfolding write_transfer_assets read_transfer_assets
  EncodesAll-transfer_assets x v =
      let width : 8 + length x.authority_payload ≡ 2 + (2 + (4 + length x.authority_payload)) =
        omega arith in
      rw width (
        EncodesAll-then _ (Encodes-discriminator SwigInstructionDiscriminator.transfer_assets_v1) (
          EncodesAll-then _ (Encodes-fixed 2 (zeros 2) refl) (
            EncodesAll-then _ (Encodes-uint 4 x.role_id v.role_id_fits)
              (EncodesAll-rest x.authority_payload _))))

  pub EncodesAll-close_token_account :
      (x : CloseTokenAccountInstructionDataArgs)
      → IsCloseTokenAccount x
      → EncodesAll
          (write_close_token_account x)
          (8 + length x.authority_payload)
          read_close_token_account
          (record {
            discriminator = discriminator_code SwigInstructionDiscriminator.close_token_account_v1;
            token_account_offset = x.token_account_offset;
            role_id = x.role_id;
            authority_payload = x.authority_payload;
          })
  unfolding write_close_token_account read_close_token_account
  EncodesAll-close_token_account x v =
      let width : 8 + length x.authority_payload ≡ 2 + (2 + (4 + length x.authority_payload)) =
        omega arith in
      rw width (
        EncodesAll-then _
          (Encodes-discriminator SwigInstructionDiscriminator.close_token_account_v1)
          (EncodesAll-then _ (Encodes-uint 2 x.token_account_offset v.token_account_offset_fits) (
            EncodesAll-then _ (Encodes-uint 4 x.role_id v.role_id_fits)
              (EncodesAll-rest x.authority_payload _))))

  pub EncodesAll-close_swig :
      (x : CloseSwigInstructionDataArgs)
      → IsCloseSwig x
      → EncodesAll (write_close_swig x) (8 + length x.authority_payload) read_close_swig (record {
        discriminator = discriminator_code SwigInstructionDiscriminator.close_swig_v1;
        padding = zeros 2;
        role_id = x.role_id;
        authority_payload = x.authority_payload;
      })
  unfolding write_close_swig read_close_swig
  EncodesAll-close_swig x v =
      let width : 8 + length x.authority_payload ≡ 2 + (2 + (4 + length x.authority_payload)) =
        omega arith in
      rw width (
        EncodesAll-then _ (Encodes-discriminator SwigInstructionDiscriminator.close_swig_v1) (
          EncodesAll-then _ (Encodes-fixed 2 (zeros 2) refl) (
            EncodesAll-then _ (Encodes-uint 4 x.role_id v.role_id_fits)
              (EncodesAll-rest x.authority_payload _))))
