-- ===== src/Coder/Instructions/Locks.antt =====
-- The instructions of coder/src/instructions on authorization locks: addAuthorizationLockV1.ts and
-- removeAuthorizationLockV1.ts. `write_…` is the encoder, `write_…_payload` the encoder of what an
-- authority signs (the arguments without their last), `read_…` the decoder.
pub mod RoundTrip
use swig_protocol_sdk.Common.{ℕ, ◌^◌, ◌<◌, ◌≡◌, Option, some, [], Bool, Bytes, length, zeros}
use swig_protocol_sdk.Kit.{Kit, Reader, ◌>>=◌, pure, read_rest, ◌then_write◌, write_enum, read_enum}
use swig_protocol_sdk.Coder.AuthorityTypes.{
  AuthorityType, authority_type_code, authority_type_variant,
}
use swig_protocol_sdk.Coder.Instructions.Discriminator.{
  SwigInstructionDiscriminator, write_discriminator,
}

pub record AddAuthorizationLockInstructionDataArgs : Type 0 where
  pub acting_role_id : ℕ
  pub asset_account : Bytes
  pub mint : Bytes
  pub amount : ℕ
  pub expiry_slot : ℕ
  pub authority_payload : Bytes

pub record AddAuthorizationLockInstructionData : Type 0 where
  pub discriminator : ℕ
  pub padding : Bytes
  pub acting_role_id : ℕ
  pub asset_account : Bytes
  pub mint : Bytes
  pub amount : ℕ
  pub expiry_slot : ℕ
  pub authority_payload : Bytes

module _ ⦃kit : Kit⦄ where
  unfoldable pub write_add_authorization_lock :
      AddAuthorizationLockInstructionDataArgs → Option Bytes
  unfolding write_discriminator
  write_add_authorization_lock x =
      write_discriminator SwigInstructionDiscriminator.add_authorization_lock_v1
      then_write some (kit.write_fixed 2 (zeros 2))
      then_write kit.write_uint 4 x.acting_role_id
      then_write some (kit.write_fixed 32 x.asset_account)
      then_write some (kit.write_fixed 32 x.mint)
      then_write kit.write_uint 8 x.amount
      then_write kit.write_uint 8 x.expiry_slot
      then_write some x.authority_payload

  unfoldable pub write_add_authorization_lock_payload :
      AddAuthorizationLockInstructionDataArgs → Option Bytes
  unfolding write_discriminator
  write_add_authorization_lock_payload x =
      write_discriminator SwigInstructionDiscriminator.add_authorization_lock_v1
      then_write some (kit.write_fixed 2 (zeros 2))
      then_write kit.write_uint 4 x.acting_role_id
      then_write some (kit.write_fixed 32 x.asset_account)
      then_write some (kit.write_fixed 32 x.mint)
      then_write kit.write_uint 8 x.amount
      then_write kit.write_uint 8 x.expiry_slot

  unfoldable pub read_add_authorization_lock : Reader AddAuthorizationLockInstructionData
  read_add_authorization_lock = do
    discriminator ← kit.read_uint 2
    padding ← kit.read_fixed 2
    acting_role_id ← kit.read_uint 4
    asset_account ← kit.read_fixed 32
    mint ← kit.read_fixed 32
    amount ← kit.read_uint 8
    expiry_slot ← kit.read_uint 8
    authority_payload ← read_rest
    pure (record {
      discriminator = discriminator;
      padding = padding;
      acting_role_id = acting_role_id;
      asset_account = asset_account;
      mint = mint;
      amount = amount;
      expiry_slot = expiry_slot;
      authority_payload = authority_payload;
    })

-- What the arguments must meet to be written as they are.
pub record IsAddAuthorizationLock (x : AddAuthorizationLockInstructionDataArgs) : Type 0 where
  pub acting_role_id_fits : x.acting_role_id < 256 ^ 4
  pub asset_account_fits : length x.asset_account ≡ 32
  pub mint_fits : length x.mint ≡ 32
  pub amount_fits : x.amount < 256 ^ 8
  pub expiry_slot_fits : x.expiry_slot < 256 ^ 8

pub record RemoveAuthorizationLockInstructionDataArgs : Type 0 where
  pub acting_role_id : ℕ
  pub lock_id : ℕ
  pub authority_payload : Bytes

pub record RemoveAuthorizationLockInstructionData : Type 0 where
  pub discriminator : ℕ
  pub padding : Bytes
  pub acting_role_id : ℕ
  pub lock_id : ℕ
  pub reserved : Bytes
  pub authority_payload : Bytes

module _ ⦃kit : Kit⦄ where
  unfoldable pub write_remove_authorization_lock :
      RemoveAuthorizationLockInstructionDataArgs → Option Bytes
  unfolding write_discriminator
  write_remove_authorization_lock x =
      write_discriminator SwigInstructionDiscriminator.remove_authorization_lock_v1
      then_write some (kit.write_fixed 2 (zeros 2))
      then_write kit.write_uint 4 x.acting_role_id
      then_write kit.write_uint 4 x.lock_id
      then_write some (kit.write_fixed 4 (zeros 4))
      then_write some x.authority_payload

  unfoldable pub write_remove_authorization_lock_payload :
      RemoveAuthorizationLockInstructionDataArgs → Option Bytes
  unfolding write_discriminator
  write_remove_authorization_lock_payload x =
      write_discriminator SwigInstructionDiscriminator.remove_authorization_lock_v1
      then_write some (kit.write_fixed 2 (zeros 2))
      then_write kit.write_uint 4 x.acting_role_id
      then_write kit.write_uint 4 x.lock_id
      then_write some (kit.write_fixed 4 (zeros 4))

  unfoldable pub read_remove_authorization_lock : Reader RemoveAuthorizationLockInstructionData
  read_remove_authorization_lock = do
    discriminator ← kit.read_uint 2
    padding ← kit.read_fixed 2
    acting_role_id ← kit.read_uint 4
    lock_id ← kit.read_uint 4
    reserved ← kit.read_fixed 4
    authority_payload ← read_rest
    pure (record {
      discriminator = discriminator;
      padding = padding;
      acting_role_id = acting_role_id;
      lock_id = lock_id;
      reserved = reserved;
      authority_payload = authority_payload;
    })

-- What the arguments must meet to be written as they are.
pub record IsRemoveAuthorizationLock (x : RemoveAuthorizationLockInstructionDataArgs) : Type 0 where
  pub acting_role_id_fits : x.acting_role_id < 256 ^ 4
  pub lock_id_fits : x.lock_id < 256 ^ 4
