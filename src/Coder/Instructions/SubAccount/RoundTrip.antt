-- ===== src/Coder/Instructions/SubAccount/RoundTrip.antt =====
-- What is written of a sub-account instruction is read back, with its constant fields.
use swig_protocol_sdk.Common.{◌+◌, ◌≡◌, refl, length, zeros, arith}
use swig_protocol_sdk.Kit.{Kit, EncodesAll}
use swig_protocol_sdk.Kit.Laws.{
  EncodesAll-then, EncodesAll-rest, Encodes-uint, Encodes-fixed, Encodes-bool,
}
use swig_protocol_sdk.Coder.Instructions.Discriminator.{
  SwigInstructionDiscriminator, discriminator_code, Encodes-discriminator,
}
use swig_protocol_sdk.Coder.Instructions.SubAccount.{
  SubAccountCreateInstructionDataArgs, IsSubAccountCreate, write_sub_account_create,
  read_sub_account_create, SubAccountWithdrawInstructionDataArgs, IsSubAccountWithdraw,
  write_sub_account_withdraw, read_sub_account_withdraw, SubAccountToggleInstructionDataArgs,
  IsSubAccountToggle, write_sub_account_toggle, read_sub_account_toggle,
}

module _ ⦃kit : Kit⦄ where
  pub EncodesAll-sub_account_create :
      (x : SubAccountCreateInstructionDataArgs)
      → IsSubAccountCreate x
      → EncodesAll
          (write_sub_account_create x)
          (16 + length x.authority_payload)
          read_sub_account_create
          (record {
            discriminator = discriminator_code SwigInstructionDiscriminator.sub_account_create_v1;
            padding1 = zeros 2;
            role_id = x.role_id;
            bump = x.bump;
            padding2 = zeros 7;
            authority_payload = x.authority_payload;
          })
  unfolding write_sub_account_create read_sub_account_create
  EncodesAll-sub_account_create x v =
      let width : 16 + length x.authority_payload
          ≡ 2 + (2 + (4 + (1 + (7 + length x.authority_payload)))) =
        omega arith in
      rw width (
        EncodesAll-then _ (Encodes-discriminator SwigInstructionDiscriminator.sub_account_create_v1)
          (EncodesAll-then _ (Encodes-fixed 2 (zeros 2) refl) (
            EncodesAll-then _ (Encodes-uint 4 x.role_id v.role_id_fits) (
              EncodesAll-then _ (Encodes-uint 1 x.bump v.bump_fits) (
                EncodesAll-then _ (Encodes-fixed 7 (zeros 7) refl)
                  (EncodesAll-rest x.authority_payload _))))))

  pub EncodesAll-sub_account_withdraw :
      (x : SubAccountWithdrawInstructionDataArgs)
      → IsSubAccountWithdraw x
      → EncodesAll
          (write_sub_account_withdraw x)
          (16 + length x.authority_payload)
          read_sub_account_withdraw
          (record {
            discriminator = discriminator_code SwigInstructionDiscriminator.sub_account_withdraw_v1;
            padding = zeros 2;
            role_id = x.role_id;
            amount = x.amount;
            authority_payload = x.authority_payload;
          })
  unfolding write_sub_account_withdraw read_sub_account_withdraw
  EncodesAll-sub_account_withdraw x v =
      let width : 16 + length x.authority_payload
          ≡ 2 + (2 + (4 + (8 + length x.authority_payload))) =
        omega arith in
      rw width (
        EncodesAll-then _
          (Encodes-discriminator SwigInstructionDiscriminator.sub_account_withdraw_v1)
          (EncodesAll-then _ (Encodes-fixed 2 (zeros 2) refl) (
            EncodesAll-then _ (Encodes-uint 4 x.role_id v.role_id_fits) (
              EncodesAll-then _ (Encodes-uint 8 x.amount v.amount_fits)
                (EncodesAll-rest x.authority_payload _)))))

  pub EncodesAll-sub_account_toggle :
      (x : SubAccountToggleInstructionDataArgs)
      → IsSubAccountToggle x
      → EncodesAll
          (write_sub_account_toggle x)
          (16 + length x.authority_payload)
          read_sub_account_toggle
          (record {
            discriminator = discriminator_code SwigInstructionDiscriminator.sub_account_toggle_v1;
            enabled = x.enabled;
            padding = zeros 5;
            sub_account_role_id = x.sub_account_role_id;
            acting_role_id = x.acting_role_id;
            authority_payload = x.authority_payload;
          })
  unfolding write_sub_account_toggle read_sub_account_toggle
  EncodesAll-sub_account_toggle x v =
      let width : 16 + length x.authority_payload
          ≡ 2 + (1 + (5 + (4 + (4 + length x.authority_payload)))) =
        omega arith in
      rw width (
        EncodesAll-then _ (Encodes-discriminator SwigInstructionDiscriminator.sub_account_toggle_v1)
          (EncodesAll-then _ (Encodes-bool x.enabled) (
            EncodesAll-then _ (Encodes-fixed 5 (zeros 5) refl) (
              EncodesAll-then _ (Encodes-uint 4 x.sub_account_role_id v.sub_account_role_id_fits) (
                EncodesAll-then _ (Encodes-uint 4 x.acting_role_id v.acting_role_id_fits)
                  (EncodesAll-rest x.authority_payload _))))))
