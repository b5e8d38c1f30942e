-- ===== src/Coder/Accounts/RoundTrip.antt =====
-- What is written of an account is read back.
use swig_protocol_sdk.Common.{◌+◌, ◌≡◌, length, arith}
use swig_protocol_sdk.Kit.{Kit, EncodesAll}
use swig_protocol_sdk.Kit.Laws.{EncodesAll-then, EncodesAll-rest, Encodes-uint, Encodes-fixed}
use swig_protocol_sdk.Coder.Accounts.{
  SwigAccount, IsSwigAccount, write_swig_account, read_swig_account,
}

module _ ⦃kit : Kit⦄ where
  pub EncodesAll-swig_account :
      (x : SwigAccount)
      → IsSwigAccount x
      → EncodesAll (write_swig_account x) (48 + length x.roles_buffer) read_swig_account x
  unfolding write_swig_account read_swig_account
  EncodesAll-swig_account x v =
      let width : 48 + length x.roles_buffer
          ≡ 1 + (1 + (32 + (2 + (4 + (8 + length x.roles_buffer))))) =
        omega arith in
      rw width (
        EncodesAll-then _ (Encodes-uint 1 x.discriminator v.discriminator_fits) (
          EncodesAll-then _ (Encodes-uint 1 x.bump v.bump_fits) (
            EncodesAll-then _ (Encodes-fixed 32 x.id v.id_fits) (
              EncodesAll-then _ (Encodes-uint 2 x.roles v.roles_fits) (
                EncodesAll-then _ (Encodes-uint 4 x.role_counter v.role_counter_fits) (
                  EncodesAll-then _
                    (Encodes-uint 8 x.reserved_lamports_or_bump v.reserved_lamports_or_bump_fits)
                    (EncodesAll-rest x.roles_buffer _)))))))
