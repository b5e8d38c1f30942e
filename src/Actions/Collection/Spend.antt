-- ===== src/Actions/Collection/Spend.antt =====
-- The four questions about spending agree with one another.
use swig_protocol_sdk.Common.{
  ℕ, ◌<◌, ◌≡◌, refl, ◌↔◌, inl, inr, Bool, true, false, ◌||◌, Option, none, some, List, [], ◌∷◌, leb,
  Option-cases, arith, Bytes,
}
use swig_protocol_sdk.Kit.{Kit}
use swig_protocol_sdk.Actions.Action.{Action, sol_control, token_control}
use swig_protocol_sdk.Actions.Control.{SpendController, spend_limit, can_spend_max, can_spend}
use swig_protocol_sdk.Actions.Collection.{
  Actions, can_spend_max_by, can_spend_by, unlimited, max_limit, spend_limit_by, can_spend_sol,
  can_spend_sol_max, sol_spend_limit, can_spend_token, can_spend_token_max, token_spend_limit,
}

-- A limit, or none, allows an amount.
abbrev pub allows : Option ℕ → ℕ → Bool
allows none amount = true
allows (some limit) amount = leb amount limit

-- One controller: an amount above zero may be spent exactly within the limit.
can_spend-allows :
    (c : SpendController) (amount : ℕ)
    → 0 < amount
    → can_spend c (some amount) ≡ allows (spend_limit c) amount
unfolding can_spend spend_limit
can_spend-allows c amount h = ground arith

can_spend_max-none : (c : SpendController) → spend_limit c ≡ none → can_spend_max c ≡ true
unfolding can_spend_max
can_spend_max-none c e = ground arith

can_spend_max-some :
    (c : SpendController) {limit : ℕ} → spend_limit c ≡ some limit → can_spend_max c ≡ false
unfolding can_spend_max
can_spend_max-some c e = ground arith

module _ (control : Action → SpendController) where
  unlimited-none :
      (actions : List Action)
      → unlimited control actions ≡ none
      → can_spend_max_by control actions ≡ false
  unfolding unlimited can_spend_max_by
  unlimited-none [] e = refl
  unlimited-none (a ∷ rest) e = ground (arith, unlimited-none rest)

  unlimited-some :
      (actions : List Action) {a : Action}
      → unlimited control actions ≡ some a
      → can_spend_max_by control actions ≡ true
  unfolding unlimited can_spend_max_by
  unlimited-some [] e = cc
  unlimited-some (b ∷ rest) {a} e = ground (arith, unlimited-some rest {a = a})

  -- The greatest limit allows what it allowed before, or what some action allows.
  max_limit-allows :
      (actions : List Action) (max amount : ℕ)
      → 0 < amount
      → can_spend_max_by control actions ≡ false
      → leb amount (max_limit control max actions)
        ≡ (leb amount max || can_spend_by control actions (some amount))
  unfolding max_limit can_spend_max_by can_spend_by
  max_limit-allows [] max amount h e = ground arith
  max_limit-allows (a ∷ rest) max amount h e = elim (Option-cases (spend_limit (control a))) [
    | inl uncapped ↦ absurd (ground (arith, can_spend_max-none (control a) uncapped))
    | inr (limit, capped) ↦ ground (
      arith,
      capped,
      can_spend-allows (control a) amount h,
      can_spend_max-some (control a) capped,
      max_limit-allows rest max amount h,
      max_limit-allows rest limit amount h,
    )
  ]

  -- An unlimited action allows every amount.
  can_spend-unlimited :
      (actions : List Action) (amount : ℕ)
      → 0 < amount
      → can_spend_max_by control actions ≡ true
      → can_spend_by control actions (some amount) ≡ true
  unfolding can_spend_max_by can_spend_by
  can_spend-unlimited [] amount h e = cc
  can_spend-unlimited (a ∷ rest) amount h e = elim (Option-cases (spend_limit (control a))) [
    | inl uncapped ↦ ground (arith, uncapped, can_spend-allows (control a) amount h)
    | inr (limit, capped) ↦
        ground (arith, can_spend_max-some (control a) capped, can_spend-unlimited rest amount h)
  ]

  pub can_spend_by-allows :
      (actions : List Action) (amount : ℕ)
      → 0 < amount
      → can_spend_by control actions (some amount) ≡ allows (spend_limit_by control actions) amount
  unfolding spend_limit_by
  can_spend_by-allows actions amount h = elim (Option-cases (unlimited control actions)) [
    | inl e ↦ ground (arith, e, max_limit-allows actions 0 amount h (unlimited-none actions e))
    | inr (a, e) ↦
        ground (arith, e, can_spend-unlimited actions amount h (unlimited-some actions {a = a} e))
  ]

  pub can_spend_max_by-none :
      (actions : List Action)
      → (can_spend_max_by control actions ≡ true) ↔ (spend_limit_by control actions ≡ none)
  unfolding spend_limit_by
  can_spend_max_by-none actions = elim (Option-cases (unlimited control actions)) [
    | inl e ↦ ground (arith, e, unlimited-none actions e)
    | inr (a, e) ↦ ground (arith, e, unlimited-some actions {a = a} e)
  ]

-- For SOL: an amount above zero may be spent exactly if `solSpendLimit` is null or no less, and
-- spending is uncapped exactly if it is null.
pub can_spend_sol-limit :
    (s : Actions) (amount : ℕ)
    → 0 < amount
    → (can_spend_sol s (some amount) ≡ allows (sol_spend_limit s) amount)
      × ((can_spend_sol_max s ≡ true) ↔ (sol_spend_limit s ≡ none))
unfolding can_spend_sol sol_spend_limit can_spend_sol_max
can_spend_sol-limit s amount h = (
  can_spend_by-allows sol_control s.actions amount h,
  can_spend_max_by-none sol_control s.actions,
)

module _ ⦃kit : Kit⦄ where
  -- For a token, by its mint: an amount above zero may be spent exactly if `tokenSpendLimit` is null
  -- or no less, and spending is uncapped exactly if it is null.
  pub can_spend_token-limit :
      (mint : Bytes) (s : Actions) (amount : ℕ)
      → 0 < amount
      → (can_spend_token mint s (some amount) ≡ allows (token_spend_limit mint s) amount)
        × ((can_spend_token_max mint s ≡ true) ↔ (token_spend_limit mint s ≡ none))
  unfolding can_spend_token token_spend_limit can_spend_token_max
  can_spend_token-limit mint s amount h = (
    can_spend_by-allows (token_control mint) s.actions amount h,
    can_spend_max_by-none (token_control mint) s.actions,
  )
