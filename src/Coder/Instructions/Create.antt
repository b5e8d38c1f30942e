-- ===== src/Coder/Instructions/Create.antt =====
-- coder/src/instructions/createV1.ts. The decoder takes all that is left for the authority's data.
pub mod Decoder
use swig_protocol_sdk.Common.{ℕ, ◌^◌, ◌<◌, ◌≡◌, Option, some, [], Bool, Bytes, length, zeros}
use swig_protocol_sdk.Kit.{Kit, Reader, ◌>>=◌, pure, read_rest, ◌then_write◌, write_enum, read_enum}
use swig_protocol_sdk.Coder.AuthorityTypes.{
  AuthorityType, authority_type_code, authority_type_variant,
}
use swig_protocol_sdk.Coder.Instructions.Discriminator.{
  SwigInstructionDiscriminator, write_discriminator,
}

pub record CreateV1InstructionDataArgs : Type 0 where
  pub authority_type : AuthorityType
  pub bump : ℕ
  pub wallet_bump : ℕ
  pub id : Bytes
  pub authority_data : Bytes
  pub actions : Bytes

pub record CreateV1InstructionData : Type 0 where
  pub discriminator : ℕ
  pub authority_type : AuthorityType
  pub authority_data_len : ℕ
  pub bump : ℕ
  pub wallet_bump : ℕ
  pub id : Bytes
  pub authority_data : Bytes
  pub actions : Bytes

module _ ⦃kit : Kit⦄ where
  unfoldable pub write_create_v1 : CreateV1InstructionDataArgs → Option Bytes
  unfolding write_discriminator
  write_create_v1 x =
      write_discriminator SwigInstructionDiscriminator.create_v1
      then_write write_enum authority_type_code 2 x.authority_type
      then_write kit.write_uint 2 (length x.authority_data)
      then_write kit.write_uint 1 x.bump
      then_write kit.write_uint 1 x.wallet_bump
      then_write some (kit.write_fixed 32 x.id)
      then_write some x.authority_data
      then_write some x.actions

  unfoldable pub read_create_v1 : Reader CreateV1InstructionData
  read_create_v1 = do
    discriminator ← kit.read_uint 2
    authority_type ← read_enum authority_type_variant 2
    authority_data_len ← kit.read_uint 2
    bump ← kit.read_uint 1
    wallet_bump ← kit.read_uint 1
    id ← kit.read_fixed 32
    authority_data ← read_rest
    actions ← read_rest
    pure (record {
      discriminator = discriminator;
      authority_type = authority_type;
      authority_data_len = authority_data_len;
      bump = bump;
      wallet_bump = wallet_bump;
      id = id;
      authority_data = authority_data;
      actions = actions;
    })

-- What the arguments must meet to be written as they are.
pub record IsCreateV1 (x : CreateV1InstructionDataArgs) : Type 0 where
  pub bump_fits : x.bump < 256 ^ 1
  pub wallet_bump_fits : x.wallet_bump < 256 ^ 1
  pub id_fits : length x.id ≡ 32
  pub authority_data_len_fits : length x.authority_data < 256 ^ 2
