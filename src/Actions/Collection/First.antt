-- ===== src/Actions/Collection/First.antt =====
-- `solSpend` and `tokenSpend` give the controller of the first action, not of the greatest limit.
use swig_protocol_sdk.Common.{ℕ, ◌≡◌, refl, false, Option, none, some, List, [], ◌∷◌, Bytes, arith}
use swig_protocol_sdk.Actions.Action.{Action, sol_control}
use swig_protocol_sdk.Actions.Control.{SpendController, is_allowed, can_spend}
use swig_protocol_sdk.Actions.Collection.{
  spend_by, unlimited, can_spend_sol_max, sol_spend, can_spend_sol, can_spend_by, can_spend_max_by,
}

capped-unlimited :
    (control : Action → SpendController) (actions : List Action)
    → can_spend_max_by control actions ≡ false
    → unlimited control actions ≡ none
unfolding can_spend_max_by unlimited
capped-unlimited control [] e = refl
capped-unlimited control (a ∷ rest) e = ground (arith, capped-unlimited control rest)

spend_by-first :
    (control : Action → SpendController) (a : Action) (rest : List Action)
    → can_spend_max_by control (a ∷ rest) ≡ false
    → spend_by control (a ∷ rest) ≡ control a
unfolding spend_by can_spend_max_by
spend_by-first control a rest e = ground (arith, capped-unlimited control (a ∷ rest) e)

not_allowed-refuses :
    (c : SpendController) (amount : Option ℕ) → is_allowed c ≡ false → can_spend c amount ≡ false
unfolding can_spend
not_allowed-refuses c none h = h
not_allowed-refuses c (some n) h = ground arith

-- Let no action of a role be unlimited for SOL, and its first action not be allowed to spend SOL at
-- all. Then the controller that `solSpend` gives is that of the first action, and it refuses every
-- amount, also where `canSpendSol` says that the role may spend that amount.
pub sol_spend-refuses :
    (raw : Bytes) (a : Action) (rest : List Action) (amount : Option ℕ)
    → is_allowed (sol_control a) ≡ false
    → can_spend_sol_max (record { raw = raw; actions = a ∷ rest }) ≡ false
    → (sol_spend (record { raw = raw; actions = a ∷ rest }) ≡ sol_control a)
      × (can_spend (sol_spend (record { raw = raw; actions = a ∷ rest })) amount ≡ false)
      × (can_spend_sol (record { raw = raw; actions = a ∷ rest }) amount
          ≡ can_spend_sol (record { raw = raw; actions = rest }) amount)
unfolding can_spend_sol_max sol_spend can_spend_sol can_spend_by
sol_spend-refuses raw a rest amount h e =
    let first = spend_by-first sol_control a rest e in
    let refuses = not_allowed-refuses (sol_control a) amount h in
    (first, rw first refuses, rw refuses)
