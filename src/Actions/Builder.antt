-- ===== src/Actions/Builder.antt =====
-- lib/src/actions/builder.ts, class `ActionsBuilder`: the actions of a new role, composed and
-- written to one buffer. A method that throws returns `none`. Public keys are their 32 bytes.
pub mod RoundTrip
pub mod Limits
use swig_protocol_sdk.Common.{
  ℕ, ◌+◌, Option, none, some, List, [], ◌∷◌, ◌++◌, ◌||◌, if◌then◌else◌, ltb, ◌==◌, Bytes, length,
  zeros, set_bytes, ◌>>=◌, false,
}
use swig_protocol_sdk.Kit.{Kit}
use swig_protocol_sdk.Coder.Permissions.{Permission}
use swig_protocol_sdk.Coder.ScopeTypes.{ProgramScopeType, NumericType}
use swig_protocol_sdk.Actions.Collection.{Actions, from}
use swig_protocol_sdk.Actions.Config.{
  ActionConfig, all_config, manage_authority_config, all_but_manage_authority_config,
  close_swig_authority_config, marker_config, scoped_u32_config, manage_authorization_locks_config,
  program_limit_config, sub_account_config, stake_all_config, stake_limit_config,
  stake_recurring_limit_config, sol_limit_config, sol_recurring_limit_config, token_limit_config,
  token_recurring_limit_config, program_scope_config, program_all_config, program_curated_config,
  sol_destination_limit_config, sol_recurring_destination_limit_config,
  token_destination_limit_config, token_recurring_destination_limit_config, length_with_header,
  encode_with_header,
}

pub record ActionsBuilder : Type 0 where
  pub action_configs : List ActionConfig

-- `ActionsBuilder.new()`, which `Actions.set()` calls.
unfoldable pub new : ActionsBuilder
new = record { action_configs = [] }

unfoldable pub push : ActionsBuilder → ActionConfig → ActionsBuilder
push b c = record { action_configs = b.action_configs ++ c ∷ [] }

-- `reduce`: the bytes of all the actions with their headers.
unfoldable pub sum_lengths : ℕ → List ActionConfig → ℕ
unfolding length_with_header
sum_lengths sum [] = sum
sum_lengths sum (c ∷ rest) = sum_lengths (sum + length_with_header c) rest

unfoldable pub buffer_length : ActionsBuilder → ℕ
unfolding sum_lengths
buffer_length b = sum_lengths 0 b.action_configs

module _ ⦃kit : Kit⦄ where
  -- The loop of `data`: each action is set at the cursor, with its end as its boundary.
  unfoldable pub data_loop : List ActionConfig → Bytes → ℕ → Option Bytes
  unfolding length_with_header
  data_loop [] bytes cursor = some bytes
  data_loop (c ∷ rest) bytes cursor = do
    let boundary = cursor + length_with_header c
    encoded ← encode_with_header c boundary
    bytes' ← set_bytes bytes encoded cursor
    data_loop rest bytes' boundary

  -- `data().bytes`.
  unfoldable pub data_bytes : ActionsBuilder → Option Bytes
  unfolding data_loop buffer_length
  data_bytes b = data_loop b.action_configs (zeros (buffer_length b)) 0

  -- `get`.
  unfoldable pub get_actions : ActionsBuilder → Option Actions
  unfolding data_bytes
  get_actions b = do bytes ← data_bytes b; from bytes (length b.action_configs)

unfoldable pub all : ActionsBuilder → ActionsBuilder
unfolding push
all b = push b all_config

unfoldable pub manage_authority : ActionsBuilder → ActionsBuilder
unfolding push
manage_authority b = push b manage_authority_config

unfoldable pub all_but_manage_authority : ActionsBuilder → ActionsBuilder
unfolding push
all_but_manage_authority b = push b all_but_manage_authority_config

unfoldable pub close_swig_authority : ActionsBuilder → ActionsBuilder
unfolding push
close_swig_authority b = push b close_swig_authority_config

-- It always throws.
unfoldable pub rent_destination : ActionsBuilder → Option ActionsBuilder
rent_destination b = none

-- `new ScopedU32Config(permission, id)`: an id that is no u32 is refused.
unfoldable pub scoped_u32 : Permission → ℕ → Option ActionConfig
scoped_u32 p id = if ltb 0xffffffff id then none else some (scoped_u32_config p id)

push_scoped : ActionsBuilder → Permission → ℕ → Option ActionsBuilder
unfolding push scoped_u32
push_scoped b p id = do c ← scoped_u32 p id; some (push b c)

unfoldable pub replace_authority : ActionsBuilder → ℕ → Option ActionsBuilder
unfolding push_scoped
replace_authority b role_id = push_scoped b Permission.replace_authority role_id

unfoldable pub sub_account_v2_create : ActionsBuilder → ActionsBuilder
unfolding push
sub_account_v2_create b = push b (marker_config Permission.sub_account_v2_create)

unfoldable pub sub_account_v2_all : ActionsBuilder → ℕ → Option ActionsBuilder
unfolding push_scoped
sub_account_v2_all b id = push_scoped b Permission.sub_account_v2_all id

unfoldable pub sub_account_v2_sign : ActionsBuilder → ℕ → Option ActionsBuilder
unfolding push_scoped
sub_account_v2_sign b id = push_scoped b Permission.sub_account_v2_sign id

unfoldable pub sub_account_v2_withdraw : ActionsBuilder → ℕ → Option ActionsBuilder
unfolding push_scoped
sub_account_v2_withdraw b id = push_scoped b Permission.sub_account_v2_withdraw id

unfoldable pub sub_account_v2_toggle : ActionsBuilder → ℕ → Option ActionsBuilder
unfolding push_scoped
sub_account_v2_toggle b id = push_scoped b Permission.sub_account_v2_toggle id

-- A duration that is zero or no u64 is refused.
unfoldable pub manage_authorization_locks : ActionsBuilder → ℕ → Option ActionsBuilder
unfolding push
manage_authorization_locks b max =
    if max == 0 || ltb 0xffffffffffffffff max
    then none
    else some (push b (manage_authorization_locks_config max))

unfoldable pub program_limit : ActionsBuilder → Bytes → ActionsBuilder
unfolding push
program_limit b program_id = push b (program_limit_config (record { program_id = program_id }))

unfoldable pub program_all : ActionsBuilder → ActionsBuilder
unfolding push
program_all b = push b program_all_config

unfoldable pub program_curated : ActionsBuilder → ActionsBuilder
unfolding push
program_curated b = push b program_curated_config

unfoldable pub program_scope_basic : ActionsBuilder → Bytes → Bytes → ActionsBuilder
unfolding push
program_scope_basic b program_id target_account = push b (
    program_scope_config (record {
      current_amount = 0;
      limit = 0;
      window = 0;
      last_reset = 0;
      program_id = program_id;
      target_account = target_account;
      scope_type = ProgramScopeType.basic;
      numeric_type = NumericType.u8;
      balance_field_start = 0;
      balance_field_end = 0;
    }))

-- The scope's type is `Basic` here too.
unfoldable pub program_scope_limit :
    ActionsBuilder → ℕ → NumericType → Bytes → Bytes → ActionsBuilder
unfolding push
program_scope_limit b amount numeric_type program_id target_account = push b (
    program_scope_config (record {
      current_amount = amount;
      limit = amount;
      window = 0;
      last_reset = 0;
      program_id = program_id;
      target_account = target_account;
      scope_type = ProgramScopeType.basic;
      numeric_type = numeric_type;
      balance_field_start = 0;
      balance_field_end = 0;
    }))

unfoldable pub program_scope_recurring_limit :
    ActionsBuilder → ℕ → ℕ → NumericType → Bytes → Bytes → ActionsBuilder
unfolding push
program_scope_recurring_limit b amount window numeric_type program_id target_account = push b (
    program_scope_config (record {
      current_amount = amount;
      limit = amount;
      window = window;
      last_reset = 0;
      program_id = program_id;
      target_account = target_account;
      scope_type = ProgramScopeType.basic;
      numeric_type = numeric_type;
      balance_field_start = 0;
      balance_field_end = 0;
    }))

unfoldable pub sub_account : ActionsBuilder → ActionsBuilder
unfolding push
sub_account b = push b (
    sub_account_config (record {
      sub_account = zeros 32;
      bump = 0;
      enabled = false;
      padding = zeros 2;
      role_id = 0;
      swig_id = zeros 32;
    }))
