-- ===== src/Coder/Permissions.antt =====
-- The enum of coder/src/types/permissions.ts, by the numbers of its members.
use swig_protocol_sdk.Common.{ℕ, ◌<◌, ◌≡◌, refl, Option, some, List, [], ◌∷◌, arith, get_elem?}

-- What an authority may do. `None` is `no_permission`.
pub data Permission : Type 0 where
  no_permission : Permission
  sol_limit : Permission
  sol_recurring_limit : Permission
  program : Permission
  program_scope : Permission
  token_limit : Permission
  token_recurring_limit : Permission
  all : Permission
  manage_authority : Permission
  sub_account : Permission
  stake_limit : Permission
  stake_recurring_limit : Permission
  stake_all : Permission
  program_all : Permission
  program_curated : Permission
  all_but_manage_authority : Permission
  sol_destination_limit : Permission
  sol_recurring_destination_limit : Permission
  token_destination_limit : Permission
  token_recurring_destination_limit : Permission
  close_swig_authority : Permission
  replace_authority : Permission
  sub_account_v2_create : Permission
  sub_account_v2_all : Permission
  sub_account_v2_sign : Permission
  sub_account_v2_withdraw : Permission
  sub_account_v2_toggle : Permission
  manage_authorization_locks : Permission

unfoldable pub permission_code : Permission → ℕ
permission_code no_permission = 0
permission_code sol_limit = 1
permission_code sol_recurring_limit = 2
permission_code program = 3
permission_code program_scope = 4
permission_code token_limit = 5
permission_code token_recurring_limit = 6
permission_code all = 7
permission_code manage_authority = 8
permission_code sub_account = 9
permission_code stake_limit = 10
permission_code stake_recurring_limit = 11
permission_code stake_all = 12
permission_code program_all = 13
permission_code program_curated = 14
permission_code all_but_manage_authority = 15
permission_code sol_destination_limit = 16
permission_code sol_recurring_destination_limit = 17
permission_code token_destination_limit = 18
permission_code token_recurring_destination_limit = 19
permission_code close_swig_authority = 20
permission_code replace_authority = 21
permission_code sub_account_v2_create = 22
permission_code sub_account_v2_all = 23
permission_code sub_account_v2_sign = 24
permission_code sub_account_v2_withdraw = 25
permission_code sub_account_v2_toggle = 26
permission_code manage_authorization_locks = 27

abbrev pub permission_all : List Permission
permission_all =
    no_permission ∷ sol_limit ∷ sol_recurring_limit ∷ program ∷ program_scope ∷ token_limit
    ∷ token_recurring_limit ∷ all ∷ manage_authority ∷ sub_account ∷ stake_limit
    ∷ stake_recurring_limit ∷ stake_all ∷ program_all ∷ program_curated ∷ all_but_manage_authority
    ∷ sol_destination_limit ∷ sol_recurring_destination_limit ∷ token_destination_limit
    ∷ token_recurring_destination_limit ∷ close_swig_authority ∷ replace_authority
    ∷ sub_account_v2_create ∷ sub_account_v2_all ∷ sub_account_v2_sign ∷ sub_account_v2_withdraw
    ∷ sub_account_v2_toggle ∷ manage_authorization_locks ∷ []

-- The variant at a number.
unfoldable pub permission_variant : ℕ → Option Permission
permission_variant = get_elem? permission_all

-- The number of a variant leads back to it.
pub permission_variant-code : (e : Permission) → permission_variant (permission_code e) ≡ some e
unfolding permission_code permission_variant
permission_variant-code no_permission = refl
permission_variant-code sol_limit = refl
permission_variant-code sol_recurring_limit = refl
permission_variant-code program = refl
permission_variant-code program_scope = refl
permission_variant-code token_limit = refl
permission_variant-code token_recurring_limit = refl
permission_variant-code all = refl
permission_variant-code manage_authority = refl
permission_variant-code sub_account = refl
permission_variant-code stake_limit = refl
permission_variant-code stake_recurring_limit = refl
permission_variant-code stake_all = refl
permission_variant-code program_all = refl
permission_variant-code program_curated = refl
permission_variant-code all_but_manage_authority = refl
permission_variant-code sol_destination_limit = refl
permission_variant-code sol_recurring_destination_limit = refl
permission_variant-code token_destination_limit = refl
permission_variant-code token_recurring_destination_limit = refl
permission_variant-code close_swig_authority = refl
permission_variant-code replace_authority = refl
permission_variant-code sub_account_v2_create = refl
permission_variant-code sub_account_v2_all = refl
permission_variant-code sub_account_v2_sign = refl
permission_variant-code sub_account_v2_withdraw = refl
permission_variant-code sub_account_v2_toggle = refl
permission_variant-code manage_authorization_locks = refl

pub permission_code-lt : (e : Permission) → permission_code e < 28
unfolding permission_code
permission_code-lt no_permission = omega arith
permission_code-lt _ = omega arith
