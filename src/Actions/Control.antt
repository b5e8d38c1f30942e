-- ===== src/Actions/Control.antt =====
-- lib/src/actions/control.ts: what one action lets its role spend.
use swig_protocol_sdk.Common.{
  ℕ, Bool, true, false, not, ◌&&◌, Option, none, some, if◌then◌else◌, leb, ◌==◌,
}
use swig_protocol_sdk.Actions.Payload.{ActionPayload}

-- `SpendControl`, of which a `SpendController` holds one: `amount` is `none` where spending is
-- uncapped, and a field that is left out is `none` too.
pub record SpendController : Type 0 where
  pub has_control : Bool
  pub amount : Option ℕ
  pub window : Option ℕ
  pub last_reset : Option ℕ
  pub recurring_amount : Option ℕ

unfoldable pub no_control : SpendController
no_control = record {
  has_control = false;
  amount = none;
  window = none;
  last_reset = none;
  recurring_amount = none;
}

unfoldable pub uncapped : SpendController
uncapped = record {
  has_control = true;
  amount = none;
  window = none;
  last_reset = none;
  recurring_amount = none;
}

unfoldable pub once : ℕ → SpendController
once amount = record {
  has_control = true;
  amount = some amount;
  window = none;
  last_reset = none;
  recurring_amount = none;
}

unfoldable pub recurring : ℕ → ℕ → ℕ → ℕ → SpendController
recurring amount window last_reset recurring_amount = record {
  has_control = true;
  amount = some amount;
  window = some window;
  last_reset = some last_reset;
  recurring_amount = some recurring_amount;
}

unfoldable pub is_allowed : SpendController → Bool
is_allowed c = c.has_control

unfoldable pub spend_limit : SpendController → Option ℕ
unfolding is_allowed
spend_limit c = if not (is_allowed c) then some 0 else c.amount

unfoldable pub can_spend_max : SpendController → Bool
unfolding spend_limit
can_spend_max c = elim (spend_limit c) [ none ↦ true | some _ ↦ false ]

unfoldable pub within_limits : SpendController → ℕ → Bool
unfolding is_allowed spend_limit
within_limits c amount =
    is_allowed c && elim (spend_limit c) [ none ↦ true | some limit ↦ leb amount limit ]

-- An amount of zero counts as none given.
unfoldable pub can_spend : SpendController → Option ℕ → Bool
unfolding is_allowed within_limits
can_spend c none = is_allowed c
can_spend c (some amount) = if amount == 0 then is_allowed c else within_limits c amount

unfoldable pub get_spend_controller : ActionPayload → SpendController
unfolding recurring once uncapped no_control
get_spend_controller (ActionPayload.sol_recurring_limit x) =
    recurring x.current_amount x.window x.last_reset x.recurring_amount
get_spend_controller (ActionPayload.token_recurring_limit x) =
    recurring x.current_amount x.window x.last_reset x.recurring_amount
get_spend_controller (ActionPayload.sol_recurring_destination_limit x) =
    recurring x.current_amount x.window x.last_reset x.recurring_amount
get_spend_controller (ActionPayload.token_recurring_destination_limit x) =
    recurring x.current_amount x.window x.last_reset x.recurring_amount
get_spend_controller (ActionPayload.sol_limit x) = once x.amount
get_spend_controller (ActionPayload.token_limit x) = once x.amount
get_spend_controller (ActionPayload.sol_destination_limit x) = once x.amount
get_spend_controller (ActionPayload.token_destination_limit x) = once x.amount
get_spend_controller ActionPayload.all = uncapped
get_spend_controller _ = no_control
