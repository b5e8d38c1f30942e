-- ===== src/Coder/Instructions/Locks/RoundTrip.antt =====
-- What is written of these instructions is read back, with its constant fields.
use swig_protocol_sdk.Common.{◌+◌, ◌≡◌, refl, length, zeros, arith}
use swig_protocol_sdk.Kit.{Kit, EncodesAll}
use swig_protocol_sdk.Kit.Laws.{EncodesAll-then, EncodesAll-rest, Encodes-uint, Encodes-fixed}
use swig_protocol_sdk.Coder.Instructions.Discriminator.{
  SwigInstructionDiscriminator, discriminator_code, Encodes-discriminator,
}
use swig_protocol_sdk.Coder.Instructions.Locks.{
  AddAuthorizationLockInstructionDataArgs, IsAddAuthorizationLock, write_add_authorization_lock,
  read_add_authorization_lock, RemoveAuthorizationLockInstructionDataArgs,
  IsRemoveAuthorizationLock, write_remove_authorization_lock, read_remove_authorization_lock,
}

module _ ⦃kit : Kit⦄ where
  -- For a role below 2^32, keys of 32 bytes, and an amount and a slot below 2^64, the data of
  -- addAuthorizationLockV1 are written, 88 bytes and the payload, and the decoder reads them back,
  -- with the number of the instruction and two zeros.
  pub EncodesAll-add_authorization_lock :
      (x : AddAuthorizationLockInstructionDataArgs)
      → IsAddAuthorizationLock x
      → EncodesAll
          (write_add_authorization_lock x)
          (88 + length x.authority_payload)
          read_add_authorization_lock
          (record {
            discriminator =
                discriminator_code SwigInstructionDiscriminator.add_authorization_lock_v1;
            padding = zeros 2;
            acting_role_id = x.acting_role_id;
            asset_account = x.asset_account;
            mint = x.mint;
            amount = x.amount;
            expiry_slot = x.expiry_slot;
            authority_payload = x.authority_payload;
          })
  unfolding write_add_authorization_lock read_add_authorization_lock
  EncodesAll-add_authorization_lock x v =
      let width : 88 + length x.authority_payload
          ≡ 2 + (2 + (4 + (32 + (32 + (8 + (8 + length x.authority_payload)))))) =
        omega arith in
      rw width (
        EncodesAll-then _
          (Encodes-discriminator SwigInstructionDiscriminator.add_authorization_lock_v1)
          (EncodesAll-then _ (Encodes-fixed 2 (zeros 2) refl) (
            EncodesAll-then _ (Encodes-uint 4 x.acting_role_id v.acting_role_id_fits) (
              EncodesAll-then _ (Encodes-fixed 32 x.asset_account v.asset_account_fits) (
                EncodesAll-then _ (Encodes-fixed 32 x.mint v.mint_fits) (
                  EncodesAll-then _ (Encodes-uint 8 x.amount v.amount_fits) (
                    EncodesAll-then _ (Encodes-uint 8 x.expiry_slot v.expiry_slot_fits)
                      (EncodesAll-rest x.authority_payload _))))))))

  pub EncodesAll-remove_authorization_lock :
      (x : RemoveAuthorizationLockInstructionDataArgs)
      → IsRemoveAuthorizationLock x
      → EncodesAll
          (write_remove_authorization_lock x)
          (16 + length x.authority_payload)
          read_remove_authorization_lock
          (record {
            discriminator =
                discriminator_code SwigInstructionDiscriminator.remove_authorization_lock_v1;
            padding = zeros 2;
            acting_role_id = x.acting_role_id;
            lock_id = x.lock_id;
            reserved = zeros 4;
            authority_payload = x.authority_payload;
          })
  unfolding write_remove_authorization_lock read_remove_authorization_lock
  EncodesAll-remove_authorization_lock x v =
      let width : 16 + length x.authority_payload
          ≡ 2 + (2 + (4 + (4 + (4 + length x.authority_payload)))) =
        omega arith in
      rw width (
        EncodesAll-then _
          (Encodes-discriminator SwigInstructionDiscriminator.remove_authorization_lock_v1)
          (EncodesAll-then _ (Encodes-fixed 2 (zeros 2) refl) (
            EncodesAll-then _ (Encodes-uint 4 x.acting_role_id v.acting_role_id_fits) (
              EncodesAll-then _ (Encodes-uint 4 x.lock_id v.lock_id_fits) (
                EncodesAll-then _ (Encodes-fixed 4 (zeros 4) refl)
                  (EncodesAll-rest x.authority_payload _))))))
