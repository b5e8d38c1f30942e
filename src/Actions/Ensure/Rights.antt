-- ===== src/Actions/Ensure/Rights.antt =====
-- Which of a role's rights `ensureProgramAction` keeps, and that the role can use programs afterwards.
use swig_protocol_sdk.Common.{
  ℕ, ◌^◌, ◌<◌, ◌≡◌, refl, Bool, true, false, Option, none, some, List, [], ◌∷◌, ◌++◌, any,
  any-append, Bytes, Bool-cases, inl, inr, arith,
}
use swig_protocol_sdk.Kit.{Kit}
use swig_protocol_sdk.Actions.Payload.{ActionPayload}
use swig_protocol_sdk.Actions.Action
use swig_protocol_sdk.Actions.Action.{Action, sol_control}
use swig_protocol_sdk.Actions.Control.{can_spend}
use swig_protocol_sdk.Actions.Collection.{
  Actions, is_root, has_program_action, can_manage_authority, can_close_swig_authority,
  can_spend_sol, can_spend_by,
}
use swig_protocol_sdk.Actions.Collection.Root.{is_root-grants}
use swig_protocol_sdk.Actions.Builder.{ActionsBuilder, get_actions, buffer_length}
use swig_protocol_sdk.Actions.Builder.RoundTrip.{CarryAll}
use swig_protocol_sdk.Actions.Ensure.{ensure_program_action}
use swig_protocol_sdk.Actions.Ensure.Appends.{program_all_action, ensure_program_action-append}

-- Two roles with the same rights over authorities, the account and SOL.
pub record SameRights (s t : Actions) : Type 0 where
  pub root : is_root t ≡ is_root s
  pub manage : can_manage_authority t ≡ can_manage_authority s
  pub close : can_close_swig_authority t ≡ can_close_swig_authority s
  pub spend : (amount : Option ℕ) → can_spend_sol t amount ≡ can_spend_sol s amount

SameRights-refl : (s : Actions) → SameRights s s
SameRights-refl s = record { root = refl; manage = refl; close = refl; spend = λ amount. refl }

any-append_false :
    (p : Action → Bool) (xs : List Action) (a : Action)
    → p a ≡ false
    → any p (xs ++ a ∷ []) ≡ any p xs
any-append_false p xs a h = ground (arith, any-append p xs (a ∷ []))

program_all_spends_not :
    (amount : Option ℕ) → can_spend (sol_control program_all_action) amount ≡ false
unfolding can_spend sol_control
program_all_spends_not none = refl
program_all_spends_not (some n) = ground arith

appended-SameRights :
    (s : Actions) (raw : Bytes)
    → SameRights s (record { raw = raw; actions = s.actions ++ program_all_action ∷ [] })
unfolding is_root can_manage_authority can_close_swig_authority can_spend_sol can_spend_by
appended-SameRights s raw = record {
  root =
      any-append_false Action.is_root s.actions program_all_action (unfold Action.is_root in refl);
  manage =
      any-append_false Action.can_manage_authority s.actions program_all_action
        (unfold Action.can_manage_authority in refl);
  close =
      any-append_false Action.can_close_swig_authority s.actions program_all_action
        (unfold Action.can_close_swig_authority in refl);
  spend = λ amount.
      any-append_false (λ a. can_spend (sol_control a) amount) s.actions program_all_action
        (program_all_spends_not amount);
}

appended-has_program :
    (s : Actions) (raw : Bytes)
    → has_program_action (record { raw = raw; actions = s.actions ++ program_all_action ∷ [] })
      ≡ true
unfolding has_program_action Action.has_program_action
appended-has_program s raw =
    ground (arith, any-append Action.has_program_action s.actions (program_all_action ∷ []))

module _ ⦃kit : Kit⦄ where
  -- Let `get` of a builder whose configurations carry `xs` (numbers in range, buffer shorter than
  -- 2^32 bytes) give `s`. On every branch `ensureProgramAction` succeeds, its result has a program
  -- permission, and the rights to act as root, to manage authorities, to close the swig and to spend
  -- SOL are those of `s`.
  pub ensure_program_action-SameRights :
      (b : ActionsBuilder) (xs : List ActionPayload) (s : Actions)
      → CarryAll b.action_configs xs
      → buffer_length b < 256 ^ 4
      → get_actions b ≡ some s
      → (t : Actions) × (ensure_program_action s ≡ some t)
        × (has_program_action t ≡ true)
        × SameRights s t
  ensure_program_action-SameRights b xs s k hb hs = elim (Bool-cases (is_root s)) [
    | inl root ↦
        (s, unfold ensure_program_action in rw root, (is_root-grants s root).3, SameRights-refl s)
    | inr not_root ↦ elim (Bool-cases (has_program_action s)) [
      | inl has ↦ (s, unfold ensure_program_action in rw (not_root, has), has, SameRights-refl s)
      | inr lacks ↦
          let (e, we, he) = ensure_program_action-append b xs s k hb hs not_root lacks in
          (
            record { raw = s.raw ++ e; actions = s.actions ++ program_all_action ∷ [] },
            he,
            appended-has_program s (s.raw ++ e),
            appended-SameRights s (s.raw ++ e),
          )
    ]
  ]
