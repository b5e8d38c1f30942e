-- ===== src/Actions/Config.antt =====
-- lib/src/actions/builder.ts, the subclasses of `ActionConfig`: one action to be written, its length,
-- its permission and its bytes.
pub mod Carries
pub mod Header
use swig_protocol_sdk.Common.{
  ℕ, ◌+◌, Option, some, [], Bytes, zeros, ltb, if◌then◌else◌, ◌>>=◌, u32_bytes, set_bytes,
}
use swig_protocol_sdk.Kit.{Kit}
use swig_protocol_sdk.Coder.Permissions.{Permission}
use swig_protocol_sdk.Coder.Headers.{ActionHeader, write_action_header}
use swig_protocol_sdk.Coder.Limits.{
  SolLimit, write_sol_limit, SolRecurringLimit, write_sol_recurring_limit, SolDestinationLimit,
  write_sol_destination_limit, SolRecurringDestinationLimit, write_sol_recurring_destination_limit,
  StakeLimit, write_stake_limit, StakeRecurringLimit, write_stake_recurring_limit,
}
use swig_protocol_sdk.Coder.TokenLimits.{
  TokenLimit, write_token_limit, TokenRecurringLimit, write_token_recurring_limit,
  TokenDestinationLimit, write_token_destination_limit, TokenRecurringDestinationLimit,
  write_token_recurring_destination_limit,
}
use swig_protocol_sdk.Coder.Scopes.{
  ProgramLimit, write_program_limit, ProgramScope, write_program_scope, SubAccount,
  write_sub_account, write_program_curated, write_manage_authorization_locks,
}
use swig_protocol_sdk.Actions.Collection.{action_header_length}

pub data ActionConfig : Type 0 where
  all_config : ActionConfig
  manage_authority_config : ActionConfig
  all_but_manage_authority_config : ActionConfig
  close_swig_authority_config : ActionConfig
  marker_config : Permission → ActionConfig
  scoped_u32_config : Permission → ℕ → ActionConfig
  manage_authorization_locks_config : ℕ → ActionConfig
  program_limit_config : ProgramLimit → ActionConfig
  sub_account_config : SubAccount → ActionConfig
  stake_all_config : ActionConfig
  stake_limit_config : StakeLimit → ActionConfig
  stake_recurring_limit_config : StakeRecurringLimit → ActionConfig
  sol_limit_config : SolLimit → ActionConfig
  sol_recurring_limit_config : SolRecurringLimit → ActionConfig
  token_limit_config : TokenLimit → ActionConfig
  token_recurring_limit_config : TokenRecurringLimit → ActionConfig
  program_scope_config : ProgramScope → ActionConfig
  program_all_config : ActionConfig
  program_curated_config : ActionConfig
  sol_destination_limit_config : SolDestinationLimit → ActionConfig
  sol_recurring_destination_limit_config : SolRecurringDestinationLimit → ActionConfig
  token_destination_limit_config : TokenDestinationLimit → ActionConfig
  token_recurring_destination_limit_config : TokenRecurringDestinationLimit → ActionConfig

-- `length`: the bytes of the payload.
unfoldable pub config_length : ActionConfig → ℕ
config_length all_config = 0
config_length manage_authority_config = 0
config_length all_but_manage_authority_config = 0
config_length close_swig_authority_config = 0
config_length (marker_config _) = 0
config_length (scoped_u32_config _ _) = 8
config_length (manage_authorization_locks_config _) = 8
config_length (program_limit_config _) = 32
config_length (sub_account_config _) = 72
config_length stake_all_config = 0
config_length (stake_limit_config _) = 8
config_length (stake_recurring_limit_config _) = 32
config_length (sol_limit_config _) = 8
config_length (sol_recurring_limit_config _) = 32
config_length (token_limit_config _) = 40
config_length (token_recurring_limit_config _) = 64
config_length (program_scope_config _) = 144
config_length program_all_config = 0
config_length program_curated_config = 32
config_length (sol_destination_limit_config _) = 40
config_length (sol_recurring_destination_limit_config _) = 64
config_length (token_destination_limit_config _) = 72
config_length (token_recurring_destination_limit_config _) = 96

unfoldable pub config_permission : ActionConfig → Permission
config_permission all_config = Permission.all
config_permission manage_authority_config = Permission.manage_authority
config_permission all_but_manage_authority_config = Permission.all_but_manage_authority
config_permission close_swig_authority_config = Permission.close_swig_authority
config_permission (marker_config p) = p
config_permission (scoped_u32_config p _) = p
config_permission (manage_authorization_locks_config _) = Permission.manage_authorization_locks
config_permission (program_limit_config _) = Permission.program
config_permission (sub_account_config _) = Permission.sub_account
config_permission stake_all_config = Permission.stake_all
config_permission (stake_limit_config _) = Permission.stake_limit
config_permission (stake_recurring_limit_config _) = Permission.stake_recurring_limit
config_permission (sol_limit_config _) = Permission.sol_limit
config_permission (sol_recurring_limit_config _) = Permission.sol_recurring_limit
config_permission (token_limit_config _) = Permission.token_limit
config_permission (token_recurring_limit_config _) = Permission.token_recurring_limit
config_permission (program_scope_config _) = Permission.program_scope
config_permission program_all_config = Permission.program_all
config_permission program_curated_config = Permission.program_curated
config_permission (sol_destination_limit_config _) = Permission.sol_destination_limit
config_permission (sol_recurring_destination_limit_config _) =
    Permission.sol_recurring_destination_limit
config_permission (token_destination_limit_config _) = Permission.token_destination_limit
config_permission (token_recurring_destination_limit_config _) =
    Permission.token_recurring_destination_limit

unfoldable pub length_with_header : ActionConfig → ℕ
unfolding config_length
length_with_header c = action_header_length + config_length c

unfoldable pub config_header : ActionConfig → ℕ → ActionHeader
unfolding config_length config_permission
config_header c boundary = record {
  permission = config_permission c;
  length = config_length c;
  boundary = boundary;
}

module _ ⦃kit : Kit⦄ where
  -- `encode`: `none` where an encoder refuses a number that is out of range.
  unfoldable pub encode : ActionConfig → Option Bytes
  encode all_config = some []
  encode manage_authority_config = some []
  encode all_but_manage_authority_config = some []
  encode close_swig_authority_config = some []
  encode (marker_config x) = some []
  encode (scoped_u32_config p id) = set_bytes (zeros 8) (u32_bytes id) 0
  encode (manage_authorization_locks_config x) =
      write_manage_authorization_locks (record { max_duration_slots = x })
  encode (program_limit_config x) = write_program_limit x
  encode (sub_account_config x) = write_sub_account x
  encode stake_all_config = some []
  encode (stake_limit_config x) = write_stake_limit x
  encode (stake_recurring_limit_config x) = write_stake_recurring_limit x
  encode (sol_limit_config x) = write_sol_limit x
  encode (sol_recurring_limit_config x) = write_sol_recurring_limit x
  encode (token_limit_config x) = write_token_limit x
  encode (token_recurring_limit_config x) = write_token_recurring_limit x
  encode (program_scope_config x) = write_program_scope x
  encode program_all_config = some []
  encode program_curated_config = write_program_curated (record { reserved = zeros 32 })
  encode (sol_destination_limit_config x) = write_sol_destination_limit x
  encode (sol_recurring_destination_limit_config x) = write_sol_recurring_destination_limit x
  encode (token_destination_limit_config x) = write_token_destination_limit x
  encode (token_recurring_destination_limit_config x) = write_token_recurring_destination_limit x

  -- The header, and the payload behind it where there is one.
  unfoldable pub encode_with_header : ActionConfig → ℕ → Option Bytes
  unfolding encode length_with_header config_header
  encode_with_header c boundary = do
    payload ← encode c
    header ← write_action_header (config_header c boundary)
    bytes ← set_bytes (zeros (length_with_header c)) header 0
    if ltb action_header_length (length_with_header c)
        then set_bytes bytes payload action_header_length
        else some bytes
