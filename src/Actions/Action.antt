-- ===== src/Actions/Action.antt =====
-- lib/src/actions/action.ts, class `Action`: one action, and what it permits.
use swig_protocol_sdk.Common.{
  ℕ, Bool, true, false, ◌||◌, Option, none, some, if◌then◌else◌, Bytes, bytes_equal, ◌==◌,
}
use swig_protocol_sdk.Kit.{Kit}
use swig_protocol_sdk.Coder.Permissions.{Permission, permission_code}
use swig_protocol_sdk.Coder.Headers.{ActionHeader}
use swig_protocol_sdk.Actions.Payload.{ActionPayload}
use swig_protocol_sdk.Actions.Control.{SpendController, no_control, uncapped, get_spend_controller}

pub record Action : Type 0 where
  pub header : ActionHeader
  pub payload : ActionPayload

-- `this.permission === p`, by the numbers of the enum.
unfoldable pub has_permission : Action → Permission → Bool
unfolding permission_code
has_permission a p = permission_code a.header.permission == permission_code p

unfoldable pub is_root : Action → Bool
unfolding has_permission
is_root a = has_permission a Permission.all

unfoldable pub can_manage_authority : Action → Bool
unfolding has_permission
can_manage_authority a =
    has_permission a Permission.all || has_permission a Permission.manage_authority

unfoldable pub has_all_but_manage_authority_access : Action → Bool
unfolding has_permission
has_all_but_manage_authority_access a =
    has_permission a Permission.all || has_permission a Permission.all_but_manage_authority

unfoldable pub can_close_swig_authority : Action → Bool
unfolding has_permission
can_close_swig_authority a =
    has_permission a Permission.all
    || (has_permission a Permission.manage_authority
        || has_permission a Permission.close_swig_authority)

unfoldable pub max_duration_of : ActionPayload → Option ℕ
max_duration_of (ActionPayload.manage_authorization_locks x) = some x.max_duration_slots
max_duration_of _ = none

unfoldable pub authorization_lock_max_duration_slots : Action → Option ℕ
unfolding max_duration_of
authorization_lock_max_duration_slots a = max_duration_of a.payload

unfoldable pub can_prune_authorization_locks : Action → Bool
unfolding has_all_but_manage_authority_access has_permission
can_prune_authorization_locks a =
    has_all_but_manage_authority_access a
    || (has_permission a Permission.manage_authority
        || has_permission a Permission.manage_authorization_locks)

-- The controller of a payload that is a SOL limit.
sol_payload_control : ActionPayload → SpendController
unfolding get_spend_controller
sol_payload_control (ActionPayload.sol_limit x) = get_spend_controller (ActionPayload.sol_limit x)
sol_payload_control (ActionPayload.sol_recurring_limit x) =
    get_spend_controller (ActionPayload.sol_recurring_limit x)
sol_payload_control (ActionPayload.sol_destination_limit x) =
    get_spend_controller (ActionPayload.sol_destination_limit x)
sol_payload_control (ActionPayload.sol_recurring_destination_limit x) =
    get_spend_controller (ActionPayload.sol_recurring_destination_limit x)
sol_payload_control _ = no_control

unfoldable pub sol_control : Action → SpendController
unfolding has_all_but_manage_authority_access sol_payload_control uncapped
sol_control a =
    if has_all_but_manage_authority_access a then uncapped else sol_payload_control a.payload

-- Two addresses are compared by their Base58 texts.
module _ ⦃kit : Kit⦄ where
  unfoldable pub same_key : Bytes → Bytes → Bool
  same_key a b = bytes_equal (kit.base58 a) (kit.base58 b)

  token_payload_control : Bytes → ActionPayload → SpendController
  unfolding get_spend_controller
  token_payload_control mint (ActionPayload.token_limit x) =
      if same_key mint x.mint
      then get_spend_controller (ActionPayload.token_limit x)
      else no_control
  token_payload_control mint (ActionPayload.token_recurring_limit x) =
      if same_key mint x.mint
      then get_spend_controller (ActionPayload.token_recurring_limit x)
      else no_control
  token_payload_control mint (ActionPayload.token_destination_limit x) =
      if same_key mint x.mint
      then get_spend_controller (ActionPayload.token_destination_limit x)
      else no_control
  token_payload_control mint (ActionPayload.token_recurring_destination_limit x) =
      if same_key mint x.mint
      then get_spend_controller (ActionPayload.token_recurring_destination_limit x)
      else no_control
  token_payload_control mint _ = no_control

  unfoldable pub token_control : Bytes → Action → SpendController
  unfolding has_all_but_manage_authority_access token_payload_control uncapped
  token_control mint a =
      if has_all_but_manage_authority_access a
      then uncapped
      else token_payload_control mint a.payload

  program_payload : Bytes → ActionPayload → Bool
  program_payload program ActionPayload.program_all = true
  program_payload program (ActionPayload.program_curated x) = true
  program_payload program (ActionPayload.program x) = same_key program x.program_id
  program_payload program _ = false

  unfoldable pub can_use_program : Bytes → Action → Bool
  unfolding has_all_but_manage_authority_access program_payload same_key
  can_use_program program a =
      if has_all_but_manage_authority_access a then true else program_payload program a.payload

unfoldable pub has_program_action : Action → Bool
unfolding has_all_but_manage_authority_access has_permission
has_program_action a =
    has_all_but_manage_authority_access a
    || (has_permission a Permission.program
        || (has_permission a Permission.program_all || has_permission a Permission.program_curated))
