-- ===== src/Coder/Scopes/RoundTrip.antt =====
-- Each layout has its fixed size, and reading takes back what was written.
use swig_protocol_sdk.Common.{refl, zeros, arith}
use swig_protocol_sdk.Kit.{Kit, Encodes}
use swig_protocol_sdk.Kit.Laws.{
  Encodes-then, Encodes-last, Encodes-uint, Encodes-fixed, Encodes-enum, Encodes-bool,
}
use swig_protocol_sdk.Coder.ScopeTypes.{
  numeric_type_code, numeric_type_variant, numeric_type_variant-code, numeric_type_code-lt,
}
use swig_protocol_sdk.Coder.ScopeTypes.{
  program_scope_type_code, program_scope_type_variant, program_scope_type_variant-code,
  program_scope_type_code-lt,
}
use swig_protocol_sdk.Coder.Scopes.{
  ProgramLimit, write_program_limit, read_program_limit, IsProgramLimit, ProgramCurated,
  write_program_curated, read_program_curated, IsProgramCurated, ProgramScope, write_program_scope,
  read_program_scope, IsProgramScope, SubAccount, write_sub_account, read_sub_account, IsSubAccount,
  ManageAuthorizationLocks, write_manage_authorization_locks, read_manage_authorization_locks,
  IsManageAuthorizationLocks,
}

module _ ⦃kit : Kit⦄ where
  pub Encodes-program_limit :
      (x : ProgramLimit)
      → IsProgramLimit x
      → Encodes (write_program_limit x) 32 read_program_limit x
  unfolding write_program_limit read_program_limit
  Encodes-program_limit x v = Encodes-last _ (Encodes-fixed 32 x.program_id v.program_id_fits)

  pub Encodes-program_curated :
      (x : ProgramCurated)
      → IsProgramCurated x
      → Encodes (write_program_curated x) 32 read_program_curated x
  unfolding write_program_curated read_program_curated
  Encodes-program_curated x v = Encodes-last _ (Encodes-fixed 32 x.reserved v.reserved_fits)

  pub Encodes-program_scope :
      (x : ProgramScope)
      → IsProgramScope x
      → Encodes (write_program_scope x) 144 read_program_scope x
  unfolding write_program_scope read_program_scope
  Encodes-program_scope x v =
      Encodes-then _ (Encodes-uint 16 x.current_amount v.current_amount_fits) (
        Encodes-then _ (Encodes-uint 16 x.limit v.limit_fits) (
          Encodes-then _ (Encodes-uint 8 x.window v.window_fits) (
            Encodes-then _ (Encodes-uint 8 x.last_reset v.last_reset_fits) (
              Encodes-then _ (Encodes-fixed 32 x.program_id v.program_id_fits) (
                Encodes-then _ (Encodes-fixed 32 x.target_account v.target_account_fits) (
                  Encodes-then _
                    (Encodes-enum program_scope_type_code program_scope_type_variant 8 x.scope_type
                      (omega (arith, program_scope_type_code-lt x.scope_type))
                      (program_scope_type_variant-code x.scope_type))
                    (Encodes-then _
                      (Encodes-enum numeric_type_code numeric_type_variant 8 x.numeric_type
                        (omega (arith, numeric_type_code-lt x.numeric_type))
                        (numeric_type_variant-code x.numeric_type))
                      (Encodes-then _
                        (Encodes-uint 8 x.balance_field_start v.balance_field_start_fits)
                        (Encodes-last _
                          (Encodes-uint 8 x.balance_field_end v.balance_field_end_fits))))))))))

  -- the padding is read back as the zeros that are written
  pub Encodes-sub_account :
      (x : SubAccount)
      → IsSubAccount x
      → Encodes (write_sub_account x) 72 read_sub_account (record x { padding = zeros 2 })
  unfolding write_sub_account read_sub_account
  Encodes-sub_account x v = Encodes-then _ (Encodes-fixed 32 x.sub_account v.sub_account_fits) (
      Encodes-then _ (Encodes-uint 1 x.bump v.bump_fits) (
        Encodes-then _ (Encodes-bool x.enabled) (
          Encodes-then _ (Encodes-fixed 2 (zeros 2) refl) (
            Encodes-then _ (Encodes-uint 4 x.role_id v.role_id_fits)
              (Encodes-last _ (Encodes-fixed 32 x.swig_id v.swig_id_fits))))))

  pub Encodes-manage_authorization_locks :
      (x : ManageAuthorizationLocks)
      → IsManageAuthorizationLocks x
      → Encodes (write_manage_authorization_locks x) 8 read_manage_authorization_locks x
  unfolding write_manage_authorization_locks read_manage_authorization_locks
  Encodes-manage_authorization_locks x v =
      Encodes-last _ (Encodes-uint 8 x.max_duration_slots v.max_duration_slots_fits)
