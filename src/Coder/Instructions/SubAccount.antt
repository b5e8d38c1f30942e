-- ===== src/Coder/Instructions/SubAccount.antt =====
-- The sub-account instructions of coder/src/instructions: subAccountCreateV1.ts,
-- subAccountWithdrawV1.ts and subAccountToggleV1.ts. `write_…` is the encoder, `write_…_payload` the
-- encoder of what an authority signs (the arguments without their last), `read_…` the decoder.
pub mod RoundTrip
use swig_protocol_sdk.Common.{ℕ, ◌^◌, ◌<◌, ◌≡◌, Option, some, [], Bool, Bytes, length, zeros}
use swig_protocol_sdk.Kit.{Kit, Reader, ◌>>=◌, pure, read_rest, ◌then_write◌, write_enum, read_enum}
use swig_protocol_sdk.Coder.AuthorityTypes.{
  AuthorityType, authority_type_code, authority_type_variant,
}
use swig_protocol_sdk.Coder.Instructions.Discriminator.{
  SwigInstructionDiscriminator, write_discriminator,
}

pub record SubAccountCreateInstructionDataArgs : Type 0 where
  pub role_id : ℕ
  pub bump : ℕ
  pub authority_payload : Bytes

pub record SubAccountCreateInstructionData : Type 0 where
  pub discriminator : ℕ
  pub padding1 : Bytes
  pub role_id : ℕ
  pub bump : ℕ
  pub padding2 : Bytes
  pub authority_payload : Bytes

module _ ⦃kit : Kit⦄ where
  unfoldable pub write_sub_account_create : SubAccountCreateInstructionDataArgs → Option Bytes
  unfolding write_discriminator
  write_sub_account_create x =
      write_discriminator SwigInstructionDiscriminator.sub_account_create_v1
      then_write some (kit.write_fixed 2 (zeros 2))
      then_write kit.write_uint 4 x.role_id
      then_write kit.write_uint 1 x.bump
      then_write some (kit.write_fixed 7 (zeros 7))
      then_write some x.authority_payload

  unfoldable pub write_sub_account_create_payload :
      SubAccountCreateInstructionDataArgs → Option Bytes
  unfolding write_discriminator
  write_sub_account_create_payload x =
      write_discriminator SwigInstructionDiscriminator.sub_account_create_v1
      then_write some (kit.write_fixed 2 (zeros 2))
      then_write kit.write_uint 4 x.role_id
      then_write kit.write_uint 1 x.bump
      then_write some (kit.write_fixed 7 (zeros 7))

  unfoldable pub read_sub_account_create : Reader SubAccountCreateInstructionData
  read_sub_account_create = do
    discriminator ← kit.read_uint 2
    padding1 ← kit.read_fixed 2
    role_id ← kit.read_uint 4
    bump ← kit.read_uint 1
    padding2 ← kit.read_fixed 7
    authority_payload ← read_rest
    pure (record {
      discriminator = discriminator;
      padding1 = padding1;
      role_id = role_id;
      bump = bump;
      padding2 = padding2;
      authority_payload = authority_payload;
    })

-- What the arguments must meet to be written as they are.
pub record IsSubAccountCreate (x : SubAccountCreateInstructionDataArgs) : Type 0 where
  pub role_id_fits : x.role_id < 256 ^ 4
  pub bump_fits : x.bump < 256 ^ 1

pub record SubAccountWithdrawInstructionDataArgs : Type 0 where
  pub role_id : ℕ
  pub amount : ℕ
  pub authority_payload : Bytes

pub record SubAccountWithdrawInstructionData : Type 0 where
  pub discriminator : ℕ
  pub padding : Bytes
  pub role_id : ℕ
  pub amount : ℕ
  pub authority_payload : Bytes

module _ ⦃kit : Kit⦄ where
  unfoldable pub write_sub_account_withdraw : SubAccountWithdrawInstructionDataArgs → Option Bytes
  unfolding write_discriminator
  write_sub_account_withdraw x =
      write_discriminator SwigInstructionDiscriminator.sub_account_withdraw_v1
      then_write some (kit.write_fixed 2 (zeros 2))
      then_write kit.write_uint 4 x.role_id
      then_write kit.write_uint 8 x.amount
      then_write some x.authority_payload

  unfoldable pub write_sub_account_withdraw_payload :
      SubAccountWithdrawInstructionDataArgs → Option Bytes
  unfolding write_discriminator
  write_sub_account_withdraw_payload x =
      write_discriminator SwigInstructionDiscriminator.sub_account_withdraw_v1
      then_write some (kit.write_fixed 2 (zeros 2))
      then_write kit.write_uint 4 x.role_id
      then_write kit.write_uint 8 x.amount

  unfoldable pub read_sub_account_withdraw : Reader SubAccountWithdrawInstructionData
  read_sub_account_withdraw = do
    discriminator ← kit.read_uint 2
    padding ← kit.read_fixed 2
    role_id ← kit.read_uint 4
    amount ← kit.read_uint 8
    authority_payload ← read_rest
    pure (record {
      discriminator = discriminator;
      padding = padding;
      role_id = role_id;
      amount = amount;
      authority_payload = authority_payload;
    })

-- What the arguments must meet to be written as they are.
pub record IsSubAccountWithdraw (x : SubAccountWithdrawInstructionDataArgs) : Type 0 where
  pub role_id_fits : x.role_id < 256 ^ 4
  pub amount_fits : x.amount < 256 ^ 8

pub record SubAccountToggleInstructionDataArgs : Type 0 where
  pub enabled : Bool
  pub sub_account_role_id : ℕ
  pub acting_role_id : ℕ
  pub authority_payload : Bytes

pub record SubAccountToggleInstructionData : Type 0 where
  pub discriminator : ℕ
  pub enabled : Bool
  pub padding : Bytes
  pub sub_account_role_id : ℕ
  pub acting_role_id : ℕ
  pub authority_payload : Bytes

module _ ⦃kit : Kit⦄ where
  unfoldable pub write_sub_account_toggle : SubAccountToggleInstructionDataArgs → Option Bytes
  unfolding write_discriminator
  write_sub_account_toggle x =
      write_discriminator SwigInstructionDiscriminator.sub_account_toggle_v1
      then_write some (kit.write_bool x.enabled)
      then_write some (kit.write_fixed 5 (zeros 5))
      then_write kit.write_uint 4 x.sub_account_role_id
      then_write kit.write_uint 4 x.acting_role_id
      then_write some x.authority_payload

  unfoldable pub write_sub_account_toggle_payload :
      SubAccountToggleInstructionDataArgs → Option Bytes
  unfolding write_discriminator
  write_sub_account_toggle_payload x =
      write_discriminator SwigInstructionDiscriminator.sub_account_toggle_v1
      then_write some (kit.write_bool x.enabled)
      then_write some (kit.write_fixed 5 (zeros 5))
      then_write kit.write_uint 4 x.sub_account_role_id
      then_write kit.write_uint 4 x.acting_role_id

  unfoldable pub read_sub_account_toggle : Reader SubAccountToggleInstructionData
  read_sub_account_toggle = do
    discriminator ← kit.read_uint 2
    enabled ← kit.read_bool
    padding ← kit.read_fixed 5
    sub_account_role_id ← kit.read_uint 4
    acting_role_id ← kit.read_uint 4
    authority_payload ← read_rest
    pure (record {
      discriminator = discriminator;
      enabled = enabled;
      padding = padding;
      sub_account_role_id = sub_account_role_id;
      acting_role_id = acting_role_id;
      authority_payload = authority_payload;
    })

-- What the arguments must meet to be written as they are.
pub record IsSubAccountToggle (x : SubAccountToggleInstructionDataArgs) : Type 0 where
  pub sub_account_role_id_fits : x.sub_account_role_id < 256 ^ 4
  pub acting_role_id_fits : x.acting_role_id < 256 ^ 4
