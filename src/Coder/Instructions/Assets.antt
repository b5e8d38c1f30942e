-- ===== src/Coder/Instructions/Assets.antt =====
-- Instructions of coder/src/instructions on the assets of a wallet: transferAssetsV1.ts,
-- closeTokenAccountV1.ts and closeSwigV1.ts. `write_…` is the encoder, `write_…_payload` the encoder
-- of what an authority signs (the arguments without their last), `read_…` the decoder.
pub mod RoundTrip
use swig_protocol_sdk.Common.{ℕ, ◌^◌, ◌<◌, ◌≡◌, Option, some, [], Bool, Bytes, length, zeros}
use swig_protocol_sdk.Kit.{Kit, Reader, ◌>>=◌, pure, read_rest, ◌then_write◌, write_enum, read_enum}
use swig_protocol_sdk.Coder.AuthorityTypes.{
  AuthorityType, authority_type_code, authority_type_variant,
}
use swig_protocol_sdk.Coder.Instructions.Discriminator.{
  SwigInstructionDiscriminator, write_discriminator,
}

pub record TransferAssetsInstructionDataArgs : Type 0 where
  pub role_id : ℕ
  pub authority_payload : Bytes

pub record TransferAssetsInstructionData : Type 0 where
  pub discriminator : ℕ
  pub padding : Bytes
  pub role_id : ℕ
  pub authority_payload : Bytes

module _ ⦃kit : Kit⦄ where
  unfoldable pub write_transfer_assets : TransferAssetsInstructionDataArgs → Option Bytes
  unfolding write_discriminator
  write_transfer_assets x =
      write_discriminator SwigInstructionDiscriminator.transfer_assets_v1
      then_write some (kit.write_fixed 2 (zeros 2))
      then_write kit.write_uint 4 x.role_id
      then_write some x.authority_payload

  unfoldable pub write_transfer_assets_payload : TransferAssetsInstructionDataArgs → Option Bytes
  unfolding write_discriminator
  write_transfer_assets_payload x =
      write_discriminator SwigInstructionDiscriminator.transfer_assets_v1
      then_write some (kit.write_fixed 2 (zeros 2))
      then_write kit.write_uint 4 x.role_id

  unfoldable pub read_transfer_assets : Reader TransferAssetsInstructionData
  read_transfer_assets = do
    discriminator ← kit.read_uint 2
    padding ← kit.read_fixed 2
    role_id ← kit.read_uint 4
    authority_payload ← read_rest
    pure (record {
      discriminator = discriminator;
      padding = padding;
      role_id = role_id;
      authority_payload = authority_payload;
    })

-- What the arguments must meet to be written as they are.
pub record IsTransferAssets (x : TransferAssetsInstructionDataArgs) : Type 0 where
  pub role_id_fits : x.role_id < 256 ^ 4

pub record CloseTokenAccountInstructionDataArgs : Type 0 where
  pub token_account_offset : ℕ
  pub role_id : ℕ
  pub authority_payload : Bytes

pub record CloseTokenAccountInstructionData : Type 0 where
  pub discriminator : ℕ
  pub token_account_offset : ℕ
  pub role_id : ℕ
  pub authority_payload : Bytes

module _ ⦃kit : Kit⦄ where
  unfoldable pub write_close_token_account : CloseTokenAccountInstructionDataArgs → Option Bytes
  unfolding write_discriminator
  write_close_token_account x =
      write_discriminator SwigInstructionDiscriminator.close_token_account_v1
      then_write kit.write_uint 2 x.token_account_offset
      then_write kit.write_uint 4 x.role_id
      then_write some x.authority_payload

  unfoldable pub write_close_token_account_payload :
      CloseTokenAccountInstructionDataArgs → Option Bytes
  unfolding write_discriminator
  write_close_token_account_payload x =
      write_discriminator SwigInstructionDiscriminator.close_token_account_v1
      then_write kit.write_uint 2 x.token_account_offset
      then_write kit.write_uint 4 x.role_id

  unfoldable pub read_close_token_account : Reader CloseTokenAccountInstructionData
  read_close_token_account = do
    discriminator ← kit.read_uint 2
    token_account_offset ← kit.read_uint 2
    role_id ← kit.read_uint 4
    authority_payload ← read_rest
    pure (record {
      discriminator = discriminator;
      token_account_offset = token_account_offset;
      role_id = role_id;
      authority_payload = authority_payload;
    })

-- What the arguments must meet to be written as they are.
pub record IsCloseTokenAccount (x : CloseTokenAccountInstructionDataArgs) : Type 0 where
  pub token_account_offset_fits : x.token_account_offset < 256 ^ 2
  pub role_id_fits : x.role_id < 256 ^ 4

pub record CloseSwigInstructionDataArgs : Type 0 where
  pub role_id : ℕ
  pub authority_payload : Bytes

pub record CloseSwigInstructionData : Type 0 where
  pub discriminator : ℕ
  pub padding : Bytes
  pub role_id : ℕ
  pub authority_payload : Bytes

module _ ⦃kit : Kit⦄ where
  unfoldable pub write_close_swig : CloseSwigInstructionDataArgs → Option Bytes
  unfolding write_discriminator
  write_close_swig x =
      write_discriminator SwigInstructionDiscriminator.close_swig_v1
      then_write some (kit.write_fixed 2 (zeros 2))
      then_write kit.write_uint 4 x.role_id
      then_write some x.authority_payload

  unfoldable pub write_close_swig_payload : CloseSwigInstructionDataArgs → Option Bytes
  unfolding write_discriminator
  write_close_swig_payload x =
      write_discriminator SwigInstructionDiscriminator.close_swig_v1
      then_write some (kit.write_fixed 2 (zeros 2))
      then_write kit.write_uint 4 x.role_id

  unfoldable pub read_close_swig : Reader CloseSwigInstructionData
  read_close_swig = do
    discriminator ← kit.read_uint 2
    padding ← kit.read_fixed 2
    role_id ← kit.read_uint 4
    authority_payload ← read_rest
    pure (record {
      discriminator = discriminator;
      padding = padding;
      role_id = role_id;
      authority_payload = authority_payload;
    })

-- What the arguments must meet to be written as they are.
pub record IsCloseSwig (x : CloseSwigInstructionDataArgs) : Type 0 where
  pub role_id_fits : x.role_id < 256 ^ 4
