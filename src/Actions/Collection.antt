-- ===== src/Actions/Collection.antt =====
-- lib/src/actions/action.ts, class `Actions`: the actions of a role, decoded from their buffer, and
-- what they permit together.
pub mod Decode
pub mod Spend
pub mod Root
pub mod First
use swig_protocol_sdk.Common.{
  ℕ, zero, suc, ◌+◌, Bool, true, false, not, Option, none, some, List, [], ◌∷◌, if◌then◌else◌, ltb,
  Bytes, length, slice, any, find, ◌>>=◌,
}
use swig_protocol_sdk.Kit.{Kit, decode}
use swig_protocol_sdk.Coder.Headers.{read_action_header}
use swig_protocol_sdk.Actions.Payload.{decode_action_payload}
use swig_protocol_sdk.Actions.Control.{
  SpendController, no_control, spend_limit, can_spend_max, can_spend,
}
use swig_protocol_sdk.Actions.Action
use swig_protocol_sdk.Actions.Action.{Action, sol_control, token_control}

pub record Actions : Type 0 where
  pub raw : Bytes
  pub actions : List Action

-- `ACTION_HEADER_LENGTH`.
abbrev pub action_header_length : ℕ
action_header_length = 8

-- The loop over the buffer, from `cursor` on; every boundary counts from the start of the buffer.
module _ ⦃kit : Kit⦄ where
  unfoldable pub deserialize_from : Bytes → ℕ → ℕ → Option (List Action)
  deserialize_from raw cursor zero = some []
  deserialize_from raw cursor (suc count) = do
    header ← decode read_action_header (slice raw cursor (cursor + action_header_length))
    payload ←
        decode_action_payload header.permission
          (slice raw (cursor + action_header_length) header.boundary)
    rest ← deserialize_from raw header.boundary count
    some (record { header = header; payload = payload } ∷ rest)

  unfoldable pub deserialize_actions : Bytes → ℕ → Option (List Action)
  unfolding deserialize_from
  deserialize_actions raw count = deserialize_from raw 0 count

  -- `Actions.from`.
  unfoldable pub from : Bytes → ℕ → Option Actions
  unfolding deserialize_actions
  from raw count = do
    actions ← deserialize_actions raw count
    some (record { raw = raw; actions = actions })

unfoldable pub count : Actions → ℕ
count s = length s.actions

unfoldable pub is_root : Actions → Bool
is_root s = any Action.is_root s.actions

unfoldable pub can_manage_authority : Actions → Bool
can_manage_authority s = any Action.can_manage_authority s.actions

unfoldable pub can_close_swig_authority : Actions → Bool
can_close_swig_authority s = any Action.can_close_swig_authority s.actions

-- The first action that has a duration.
unfoldable pub first_max_duration : List Action → Option ℕ
first_max_duration [] = none
first_max_duration (a ∷ rest) = elim (Action.authorization_lock_max_duration_slots a) [
  | some max ↦ some max
  | none ↦ first_max_duration rest
]

unfoldable pub authorization_lock_max_duration_slots : Actions → Option ℕ
unfolding first_max_duration
authorization_lock_max_duration_slots s = first_max_duration s.actions

unfoldable pub can_manage_authorization_locks : Actions → Bool
unfolding authorization_lock_max_duration_slots
can_manage_authorization_locks s = elim (authorization_lock_max_duration_slots s) [
  | none ↦ false
  | some _ ↦ true
]

unfoldable pub can_prune_authorization_locks : Actions → Bool
can_prune_authorization_locks s = any Action.can_prune_authorization_locks s.actions

unfoldable pub has_program_action : Actions → Bool
has_program_action s = any Action.has_program_action s.actions

-- The four questions about spending are asked of SOL and of a token alike: `control` is the
-- controller of an action for the asset in question.
module _ (control : Action → SpendController) where
  unfoldable pub can_spend_max_by : List Action → Bool
  can_spend_max_by = any (λ a. can_spend_max (control a))

  unfoldable pub can_spend_by : List Action → Option ℕ → Bool
  can_spend_by actions amount = any (λ a. can_spend (control a) amount) actions

  -- The first action with no limit.
  unfoldable pub unlimited : List Action → Option Action
  unlimited = find (λ a. can_spend_max (control a))

  -- `reduce`: the greatest limit, or `max`.
  unfoldable pub max_limit : ℕ → List Action → ℕ
  max_limit max [] = max
  max_limit max (a ∷ rest) =
      max_limit
        (elim (spend_limit (control a)) [
          | none ↦ max
          | some limit ↦ if ltb max limit then limit else max
        ])
        rest

  unfoldable pub spend_limit_by : List Action → Option ℕ
  unfolding unlimited max_limit
  spend_limit_by actions = elim (unlimited actions) [
    | some _ ↦ none
    | none ↦ some (max_limit 0 actions)
  ]

  -- The controller of the first unlimited action, else of the first that has a limit.
  unfoldable pub spend_by : List Action → SpendController
  unfolding unlimited
  spend_by actions = elim (unlimited actions) [
    | some a ↦ control a
    | none ↦ elim (find (λ a. not (can_spend_max (control a))) actions) [
      | some a ↦ control a
      | none ↦ no_control
    ]
  ]

unfoldable pub can_spend_sol_max : Actions → Bool
unfolding can_spend_max_by
can_spend_sol_max s = can_spend_max_by sol_control s.actions

unfoldable pub can_spend_sol : Actions → Option ℕ → Bool
unfolding can_spend_by
can_spend_sol s amount = can_spend_by sol_control s.actions amount

unfoldable pub sol_spend_limit : Actions → Option ℕ
unfolding spend_limit_by
sol_spend_limit s = spend_limit_by sol_control s.actions

unfoldable pub sol_spend : Actions → SpendController
unfolding spend_by
sol_spend s = spend_by sol_control s.actions

module _ ⦃kit : Kit⦄ where
  unfoldable pub can_use_program : Bytes → Actions → Bool
  can_use_program program s = any (Action.can_use_program program) s.actions

  unfoldable pub can_spend_token_max : Bytes → Actions → Bool
  unfolding can_spend_max_by
  can_spend_token_max mint s = can_spend_max_by (token_control mint) s.actions

  unfoldable pub can_spend_token : Bytes → Actions → Option ℕ → Bool
  unfolding can_spend_by
  can_spend_token mint s amount = can_spend_by (token_control mint) s.actions amount

  unfoldable pub token_spend_limit : Bytes → Actions → Option ℕ
  unfolding spend_limit_by
  token_spend_limit mint s = spend_limit_by (token_control mint) s.actions

  unfoldable pub token_spend : Bytes → Actions → SpendController
  unfolding spend_by
  token_spend mint s = spend_by (token_control mint) s.actions
