-- ===== src/Instructions/Metas/Locks.antt =====
-- The accounts of lib/src/instructions/addAuthorizationLockV1.ts and removeAuthorizationLockV1.ts.
use swig_protocol_sdk.Common.{
  ℕ, Bool, not, Option, none, some, List, [], ◌∷◌, ◌++◌, Bytes, zeros, every, ◌==◌, if◌then◌else◌,
}
use swig_protocol_sdk.Kit.{Kit}
use swig_protocol_sdk.Instructions.Compact.{SolAccountMeta}
use swig_protocol_sdk.Instructions.Metas.Role.{
  AccountRole, from_kit_account_meta, with_authority, system_program,
}

unfoldable pub is_native_sol_lock_mint : Bytes → Bool
is_native_sol_lock_mint mint = every (λ b. b == 0) mint

unfoldable pub get_authorization_lock_mint_bytes : Option Bytes → Bytes
get_authorization_lock_mint_bytes none = zeros 32
get_authorization_lock_mint_bytes (some mint) = mint

-- The mint's account, where there is a mint other than native SOL.
unfoldable pub mint_metas : Option Bytes → List SolAccountMeta
unfolding is_native_sol_lock_mint from_kit_account_meta
mint_metas none = []
mint_metas (some mint) =
    if not (is_native_sol_lock_mint mint)
    then from_kit_account_meta mint AccountRole.readonly ∷ []
    else []

unfoldable pub rent_claimer_metas : Option Bytes → List SolAccountMeta
unfolding from_kit_account_meta
rent_claimer_metas none = []
rent_claimer_metas (some rent_claimer) =
    from_kit_account_meta rent_claimer AccountRole.writable ∷ []

module _ ⦃kit : Kit⦄ where
  unfoldable pub add_authorization_lock_metas :
      Bytes → Bytes → Bytes → Bytes → Option Bytes → List SolAccountMeta
  unfolding from_kit_account_meta system_program mint_metas
  add_authorization_lock_metas swig payer swig_system_address asset_account mint =
      (from_kit_account_meta swig AccountRole.writable
        ∷ from_kit_account_meta swig_system_address AccountRole.readonly
        ∷ from_kit_account_meta payer AccountRole.writable_signer
        ∷ from_kit_account_meta system_program AccountRole.readonly
        ∷ from_kit_account_meta asset_account AccountRole.readonly
        ∷ [])
      ++ mint_metas mint

  unfoldable pub add_authorization_lock_metas_with_authority :
      Bytes → Bytes → Bytes → Bytes → Option Bytes → Bytes → List SolAccountMeta × ℕ
  unfolding add_authorization_lock_metas with_authority
  add_authorization_lock_metas_with_authority swig payer swig_system_address asset_account mint
        authority =
      with_authority
        (add_authorization_lock_metas swig payer swig_system_address asset_account mint) authority

  unfoldable pub remove_authorization_lock_metas :
      Bytes → Bytes → Bytes → Option Bytes → List SolAccountMeta
  unfolding from_kit_account_meta system_program rent_claimer_metas
  remove_authorization_lock_metas swig payer swig_system_address rent_claimer =
      (from_kit_account_meta swig AccountRole.writable
        ∷ from_kit_account_meta swig_system_address AccountRole.readonly
        ∷ from_kit_account_meta payer AccountRole.writable_signer
        ∷ from_kit_account_meta system_program AccountRole.readonly
        ∷ [])
      ++ rent_claimer_metas rent_claimer

  unfoldable pub remove_authorization_lock_metas_with_authority :
      Bytes → Bytes → Bytes → Option Bytes → Bytes → List SolAccountMeta × ℕ
  unfolding remove_authorization_lock_metas with_authority
  remove_authorization_lock_metas_with_authority swig payer swig_system_address rent_claimer
        authority =
      with_authority (remove_authorization_lock_metas swig payer swig_system_address rent_claimer)
        authority
