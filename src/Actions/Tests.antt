-- ===== src/Actions/Tests.antt =====
-- lib/src/actions: the roles of a few small examples, run with little-endian codecs.
use swig_protocol_sdk.Common.{
  ◌<◌, ◌^◌, ◌≡◌, ◌↔◌, refl, true, false, none, some, List, [], ◌∷◌, ◌++◌, All, Bytes, length,
  replicate, any, arith,
}
use swig_protocol_sdk.Kit.LittleEndian.{little_endian, write_le, read_le, le_digits, le_value}
use swig_protocol_sdk.Coder.Permissions.{Permission, permission_code, permission_variant}
use swig_protocol_sdk.Coder.Headers.{write_action_header, read_action_header}
use swig_protocol_sdk.Coder.Limits.{write_sol_limit, read_sol_limit}
use swig_protocol_sdk.Coder.TokenLimits.{write_token_limit, read_token_limit}
use swig_protocol_sdk.Actions.Payload.{ActionPayload, payload_permission, decode_action_payload}
use swig_protocol_sdk.Actions.Control.{is_allowed, can_spend, can_spend_max}
use swig_protocol_sdk.Actions.Action
use swig_protocol_sdk.Actions.Action.{Action, has_permission, sol_control, same_key}
use swig_protocol_sdk.Actions.Collection.{
  Actions, from, deserialize_actions, deserialize_from, count, is_root, can_manage_authority,
  can_close_swig_authority, can_prune_authorization_locks, has_program_action, can_spend_sol_max,
  can_spend_token_max, can_use_program, can_spend_sol, sol_spend_limit, can_spend_token,
  token_spend_limit, sol_spend, can_manage_authorization_locks, can_spend_max_by,
}
use swig_protocol_sdk.Actions.Collection.Decode.{Agrees, from-Agrees}
use swig_protocol_sdk.Actions.Collection.Spend.{allows, can_spend_sol-limit, can_spend_token-limit}
use swig_protocol_sdk.Actions.Collection.Root.{
  is_root-grants, same_key_iff, can_manage_authorization_locks-permission,
}
use swig_protocol_sdk.Actions.Collection.First.{sol_spend-refuses}
use swig_protocol_sdk.Actions.Config.{
  config_length, config_permission, length_with_header, config_header, encode, encode_with_header,
}
use swig_protocol_sdk.Actions.Config.Carries.{Carries}
use swig_protocol_sdk.Actions.Builder.{
  ActionsBuilder, new, push, sum_lengths, buffer_length, data_loop, data_bytes, get_actions,
}
use swig_protocol_sdk.Actions.Builder.Limits.{sol_limit, token_limit}
use swig_protocol_sdk.Actions.Builder.RoundTrip.{CarryAll, built, get_actions-built}
use swig_protocol_sdk.Actions.Ensure.{ensure_program_action}
use swig_protocol_sdk.Actions.Ensure.Appends.{program_all_action, ensure_program_action-append}
use swig_protocol_sdk.Actions.Ensure.Rights.{SameRights, ensure_program_action-SameRights}

abbrev mint : Bytes
mint = replicate 32 7

-- A role that may spend 5 lamports and 9 units of one token.
abbrev sample : ActionsBuilder
unfolding new push sol_limit token_limit
sample = token_limit (sol_limit new 5) mint 9

abbrev sample_payloads : List ActionPayload
sample_payloads =
    ActionPayload.sol_limit (record { amount = 5 })
    ∷ ActionPayload.token_limit (record { mint = mint; amount = 9 })
    ∷ []

sample-CarryAll : CarryAll sample.action_configs sample_payloads
unfolding sample
sample-CarryAll = (
  Carries.sol_limit _ (record { amount_fits = omega arith }),
  (Carries.token_limit _ (record { mint_fits = refl; amount_fits = omega arith }), tt),
)

sample-fits : buffer_length sample < 256 ^ 4
unfolding buffer_length sum_lengths length_with_header config_length sample
sample-fits = omega arith

get_actions-built_example :
    (s : Actions) × (get_actions sample ≡ some s)
    × (s.actions ≡ built 0 sample.action_configs sample_payloads)
    × (length s.raw ≡ buffer_length sample)
get_actions-built_example = get_actions-built sample sample_payloads sample-CarryAll sample-fits

-- The same role, as `get` gives it.
abbrev sample_raw : Bytes
sample_raw =
    1
    ∷ 0
    ∷ 8
    ∷ 0
    ∷ 16
    ∷ 0
    ∷ 0
    ∷ 0
    ∷ 5
    ∷ 0
    ∷ 0
    ∷ 0
    ∷ 0
    ∷ 0
    ∷ 0
    ∷ 0
    ∷ 5
    ∷ 0
    ∷ 40
    ∷ 0
    ∷ 64
    ∷ 0
    ∷ 0
    ∷ 0
    ∷ (mint ++ 9 ∷ 0 ∷ 0 ∷ 0 ∷ 0 ∷ 0 ∷ 0 ∷ 0 ∷ [])

abbrev sample_actions : Actions
sample_actions = record {
  raw = sample_raw;
  actions = built 0 sample.action_configs sample_payloads;
}

sample_built : get_actions sample ≡ some sample_actions
unfolding get_actions data_bytes data_loop buffer_length sum_lengths length_with_header
    config_length encode_with_header config_header config_permission encode write_action_header
    write_sol_limit write_token_limit write_le le_digits from deserialize_actions deserialize_from
    read_action_header permission_code permission_variant read_le le_value decode_action_payload
    read_sol_limit read_token_limit sample
sample_built = refl

sample_not_root : is_root sample_actions ≡ false
unfolding is_root Action.is_root has_permission permission_code config_header config_permission
    sample
sample_not_root = refl

sample_no_program : has_program_action sample_actions ≡ false
unfolding has_program_action Action.has_program_action Action.has_all_but_manage_authority_access
    has_permission permission_code config_header config_permission sample
sample_no_program = refl

ensure_program_action-append_example :
    (e : Bytes) × (length e ≡ 8)
    × (ensure_program_action sample_actions
        ≡ some (record {
          raw = sample_raw ++ e;
          actions = sample_actions.actions ++ program_all_action ∷ [];
        }))
ensure_program_action-append_example =
    ensure_program_action-append sample sample_payloads sample_actions sample-CarryAll sample-fits
      sample_built sample_not_root sample_no_program

ensure_program_action-SameRights_example :
    (t : Actions) × (ensure_program_action sample_actions ≡ some t)
    × (has_program_action t ≡ true)
    × SameRights sample_actions t
ensure_program_action-SameRights_example =
    ensure_program_action-SameRights sample sample_payloads sample_actions sample-CarryAll
      sample-fits sample_built

sample_decoded : from sample_raw 2 ≡ some sample_actions
unfolding from deserialize_actions deserialize_from read_action_header permission_variant read_le
    le_value decode_action_payload read_sol_limit read_token_limit config_header config_permission
    length_with_header config_length sample
sample_decoded = refl

from-Agrees_example :
    All Agrees sample_actions.actions
    × (count sample_actions ≡ 2)
    × (sample_actions.raw ≡ sample_raw)
from-Agrees_example = from-Agrees sample_raw 2 sample_decoded

-- Actions by hand.
abbrev action_of : Permission → ActionPayload → Action
action_of p x = record { header = record { permission = p; length = 0; boundary = 8 }; payload = x }

abbrev owner : Action
owner = action_of Permission.manage_authority ActionPayload.manage_authority

abbrev five_lamports : Action
five_lamports = action_of Permission.sol_limit (ActionPayload.sol_limit (record { amount = 5 }))

abbrev nine_tokens : Action
nine_tokens =
    action_of Permission.token_limit
      (ActionPayload.token_limit (record { mint = mint; amount = 9 }))

abbrev locker : Action
locker =
    action_of Permission.manage_authorization_locks
      (ActionPayload.manage_authorization_locks (record { max_duration_slots = 100 }))

abbrev spender : Actions
spender = record { raw = []; actions = owner ∷ five_lamports ∷ nine_tokens ∷ locker ∷ [] }

can_spend_sol-limit_example :
    (can_spend_sol spender (some 5) ≡ allows (sol_spend_limit spender) 5)
    × ((can_spend_sol_max spender ≡ true) ↔ (sol_spend_limit spender ≡ none))
can_spend_sol-limit_example = can_spend_sol-limit spender 5 (omega arith)

can_spend_token-limit_example :
    (can_spend_token mint spender (some 9) ≡ allows (token_spend_limit mint spender) 9)
    × ((can_spend_token_max mint spender ≡ true) ↔ (token_spend_limit mint spender ≡ none))
can_spend_token-limit_example = can_spend_token-limit mint spender 9 (omega arith)

abbrev root : Actions
root = record {
  raw = [];
  actions = five_lamports ∷ action_of Permission.all ActionPayload.all ∷ [];
}

root_is_root : is_root root ≡ true
unfolding is_root Action.is_root has_permission permission_code
root_is_root = refl

is_root-grants_example :
    (can_manage_authority root ≡ true)
    × (can_close_swig_authority root ≡ true)
    × (can_prune_authorization_locks root ≡ true)
    × (has_program_action root ≡ true)
    × (can_spend_sol_max root ≡ true)
    × ((mint : Bytes) → can_spend_token_max mint root ≡ true)
    × ((program : Bytes) → can_use_program program root ≡ true)
is_root-grants_example = is_root-grants root root_is_root

same_key_iff_example : (same_key mint mint ≡ true) ↔ (mint ≡ mint)
same_key_iff_example = same_key_iff mint mint refl refl

spender-Agrees : All Agrees spender.actions
unfolding payload_permission
spender-Agrees = (refl, (refl, (refl, (refl, tt))))

can_manage_authorization_locks-permission_example :
    can_manage_authorization_locks spender
    ≡ any (λ a. has_permission a Permission.manage_authorization_locks) spender.actions
can_manage_authorization_locks-permission_example =
    can_manage_authorization_locks-permission spender spender-Agrees

owner_spends_not : is_allowed (sol_control owner) ≡ false
unfolding is_allowed sol_control
owner_spends_not = refl

spender_capped : can_spend_sol_max spender ≡ false
unfolding can_spend_sol_max can_spend_max_by sol_control can_spend_max
spender_capped = refl

sol_spend-refuses_example :
    (sol_spend spender ≡ sol_control owner)
    × (can_spend (sol_spend spender) (some 5) ≡ false)
    × (can_spend_sol spender (some 5)
        ≡ can_spend_sol
            (record { raw = []; actions = five_lamports ∷ nine_tokens ∷ locker ∷ [] })
            (some 5))
sol_spend-refuses_example =
    sol_spend-refuses [] owner (five_lamports ∷ nine_tokens ∷ locker ∷ []) (some 5) owner_spends_not
      spender_capped
