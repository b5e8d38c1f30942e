-- ===== src/Actions/Payload.antt =====
-- lib/src/actions/payload.ts: what an action carries, and how it is decoded by its permission.
use swig_protocol_sdk.Common.{
  ℕ, ◌≡◌, Option, none, some, Bytes, length, drop, every, ◌==◌, ◌&&◌, guard, ◌>>=◌, ◌>>◌, get_u32,
  arith,
}
use swig_protocol_sdk.Kit.{Kit, decode}
use swig_protocol_sdk.Coder.Permissions.{Permission}
use swig_protocol_sdk.Coder.Limits.{
  SolLimit, read_sol_limit, SolRecurringLimit, read_sol_recurring_limit, SolDestinationLimit,
  read_sol_destination_limit, SolRecurringDestinationLimit, read_sol_recurring_destination_limit,
  StakeLimit, read_stake_limit, StakeRecurringLimit, read_stake_recurring_limit,
}
use swig_protocol_sdk.Coder.TokenLimits.{
  TokenLimit, read_token_limit, TokenRecurringLimit, read_token_recurring_limit,
  TokenDestinationLimit, read_token_destination_limit, TokenRecurringDestinationLimit,
  read_token_recurring_destination_limit,
}
use swig_protocol_sdk.Coder.Scopes.{
  ProgramLimit, read_program_limit, ProgramCurated, read_program_curated, ProgramScope,
  read_program_scope, SubAccount, read_sub_account, ManageAuthorizationLocks,
  read_manage_authorization_locks,
}

-- A constructor for each member of the union, named like its permission.
pub data ActionPayload : Type 0 where
  all : ActionPayload
  all_but_manage_authority : ActionPayload
  manage_authority : ActionPayload
  program : ProgramLimit → ActionPayload
  program_all : ActionPayload
  program_curated : ProgramCurated → ActionPayload
  program_scope : ProgramScope → ActionPayload
  sol_limit : SolLimit → ActionPayload
  sol_recurring_limit : SolRecurringLimit → ActionPayload
  sol_destination_limit : SolDestinationLimit → ActionPayload
  sol_recurring_destination_limit : SolRecurringDestinationLimit → ActionPayload
  stake_all : ActionPayload
  stake_limit : StakeLimit → ActionPayload
  stake_recurring_limit : StakeRecurringLimit → ActionPayload
  sub_account : SubAccount → ActionPayload
  token_limit : TokenLimit → ActionPayload
  token_recurring_limit : TokenRecurringLimit → ActionPayload
  token_destination_limit : TokenDestinationLimit → ActionPayload
  token_recurring_destination_limit : TokenRecurringDestinationLimit → ActionPayload
  close_swig_authority : ActionPayload
  replace_authority : ℕ → ActionPayload
  sub_account_v2_create : ActionPayload
  sub_account_v2_all : ℕ → ActionPayload
  sub_account_v2_sign : ℕ → ActionPayload
  sub_account_v2_withdraw : ℕ → ActionPayload
  sub_account_v2_toggle : ℕ → ActionPayload
  manage_authorization_locks : ManageAuthorizationLocks → ActionPayload

-- `payload.permission`.
unfoldable pub payload_permission : ActionPayload → Permission
payload_permission ActionPayload.all = Permission.all
payload_permission ActionPayload.all_but_manage_authority = Permission.all_but_manage_authority
payload_permission ActionPayload.manage_authority = Permission.manage_authority
payload_permission (ActionPayload.program _) = Permission.program
payload_permission ActionPayload.program_all = Permission.program_all
payload_permission (ActionPayload.program_curated _) = Permission.program_curated
payload_permission (ActionPayload.program_scope _) = Permission.program_scope
payload_permission (ActionPayload.sol_limit _) = Permission.sol_limit
payload_permission (ActionPayload.sol_recurring_limit _) = Permission.sol_recurring_limit
payload_permission (ActionPayload.sol_destination_limit _) = Permission.sol_destination_limit
payload_permission (ActionPayload.sol_recurring_destination_limit _) =
    Permission.sol_recurring_destination_limit
payload_permission ActionPayload.stake_all = Permission.stake_all
payload_permission (ActionPayload.stake_limit _) = Permission.stake_limit
payload_permission (ActionPayload.stake_recurring_limit _) = Permission.stake_recurring_limit
payload_permission (ActionPayload.sub_account _) = Permission.sub_account
payload_permission (ActionPayload.token_limit _) = Permission.token_limit
payload_permission (ActionPayload.token_recurring_limit _) = Permission.token_recurring_limit
payload_permission (ActionPayload.token_destination_limit _) = Permission.token_destination_limit
payload_permission (ActionPayload.token_recurring_destination_limit _) =
    Permission.token_recurring_destination_limit
payload_permission ActionPayload.close_swig_authority = Permission.close_swig_authority
payload_permission (ActionPayload.replace_authority _) = Permission.replace_authority
payload_permission ActionPayload.sub_account_v2_create = Permission.sub_account_v2_create
payload_permission (ActionPayload.sub_account_v2_all _) = Permission.sub_account_v2_all
payload_permission (ActionPayload.sub_account_v2_sign _) = Permission.sub_account_v2_sign
payload_permission (ActionPayload.sub_account_v2_withdraw _) = Permission.sub_account_v2_withdraw
payload_permission (ActionPayload.sub_account_v2_toggle _) = Permission.sub_account_v2_toggle
payload_permission (ActionPayload.manage_authorization_locks _) =
    Permission.manage_authorization_locks

-- Eight bytes, the last four of them zero, that hold a u32.
unfoldable pub decode_scoped_u32 : Bytes → Option ℕ
decode_scoped_u32 bs = do guard (length bs == 8 && every (λ v. v == 0) (drop 4 bs)); get_u32 bs

-- Each `if` of the source tests for one permission; any other, `None`, is refused.
module _ ⦃kit : Kit⦄ where
  unfoldable pub decode_action_payload : Permission → Bytes → Option ActionPayload
  decode_action_payload Permission.all bs = some ActionPayload.all
  decode_action_payload Permission.all_but_manage_authority bs =
      some ActionPayload.all_but_manage_authority
  decode_action_payload Permission.manage_authority bs = some ActionPayload.manage_authority
  decode_action_payload Permission.program bs = do
    x ← decode read_program_limit bs
    some (ActionPayload.program x)
  decode_action_payload Permission.program_all bs = some ActionPayload.program_all
  decode_action_payload Permission.program_curated bs = do
    x ← decode read_program_curated bs
    some (ActionPayload.program_curated x)
  decode_action_payload Permission.program_scope bs = do
    x ← decode read_program_scope bs
    some (ActionPayload.program_scope x)
  decode_action_payload Permission.sol_limit bs = do
    x ← decode read_sol_limit bs
    some (ActionPayload.sol_limit x)
  decode_action_payload Permission.sol_recurring_limit bs = do
    x ← decode read_sol_recurring_limit bs
    some (ActionPayload.sol_recurring_limit x)
  decode_action_payload Permission.sol_destination_limit bs = do
    x ← decode read_sol_destination_limit bs
    some (ActionPayload.sol_destination_limit x)
  decode_action_payload Permission.sol_recurring_destination_limit bs = do
    x ← decode read_sol_recurring_destination_limit bs
    some (ActionPayload.sol_recurring_destination_limit x)
  decode_action_payload Permission.stake_all bs = some ActionPayload.stake_all
  decode_action_payload Permission.stake_limit bs = do
    x ← decode read_stake_limit bs
    some (ActionPayload.stake_limit x)
  decode_action_payload Permission.stake_recurring_limit bs = do
    x ← decode read_stake_recurring_limit bs
    some (ActionPayload.stake_recurring_limit x)
  decode_action_payload Permission.sub_account bs = do
    x ← decode read_sub_account bs
    some (ActionPayload.sub_account x)
  decode_action_payload Permission.token_limit bs = do
    x ← decode read_token_limit bs
    some (ActionPayload.token_limit x)
  decode_action_payload Permission.token_recurring_limit bs = do
    x ← decode read_token_recurring_limit bs
    some (ActionPayload.token_recurring_limit x)
  decode_action_payload Permission.token_destination_limit bs = do
    x ← decode read_token_destination_limit bs
    some (ActionPayload.token_destination_limit x)
  decode_action_payload Permission.token_recurring_destination_limit bs = do
    x ← decode read_token_recurring_destination_limit bs
    some (ActionPayload.token_recurring_destination_limit x)
  decode_action_payload Permission.close_swig_authority bs = some ActionPayload.close_swig_authority
  decode_action_payload Permission.replace_authority bs = do
    x ← decode_scoped_u32 bs
    some (ActionPayload.replace_authority x)
  decode_action_payload Permission.sub_account_v2_create bs = do
    guard (length bs == 0)
    some ActionPayload.sub_account_v2_create
  decode_action_payload Permission.sub_account_v2_all bs = do
    x ← decode_scoped_u32 bs
    some (ActionPayload.sub_account_v2_all x)
  decode_action_payload Permission.sub_account_v2_sign bs = do
    x ← decode_scoped_u32 bs
    some (ActionPayload.sub_account_v2_sign x)
  decode_action_payload Permission.sub_account_v2_withdraw bs = do
    x ← decode_scoped_u32 bs
    some (ActionPayload.sub_account_v2_withdraw x)
  decode_action_payload Permission.sub_account_v2_toggle bs = do
    x ← decode_scoped_u32 bs
    some (ActionPayload.sub_account_v2_toggle x)
  decode_action_payload Permission.manage_authorization_locks bs = do
    guard (length bs == 8)
    x ← decode read_manage_authorization_locks bs
    some (ActionPayload.manage_authorization_locks x)
  decode_action_payload Permission.no_permission bs = none

  -- What is decoded under a permission carries that permission.
  pub permission-decode :
      (p : Permission) (bs : Bytes) {a : ActionPayload}
      → decode_action_payload p bs ≡ some a
      → payload_permission a ≡ p
  unfolding decode_action_payload payload_permission
  permission-decode Permission.all bs e = ground arith
  permission-decode _ bs e = ground arith
