-- ===== src/Actions/Collection/Root.antt =====
-- What `All` brings with it, and what it does not.
use swig_protocol_sdk.Common.{
  ◌≡◌, refl, sym, ap, ◌∙◌, ◌↔◌, ◌==◌, true, false, none, some, List, [], ◌∷◌, any, any_mono, All,
  Bytes, length, arith, bytes_equal_iff,
}
use swig_protocol_sdk.Kit.{Kit}
use swig_protocol_sdk.Coder.Permissions.{Permission, permission_code}
use swig_protocol_sdk.Actions.Payload.{ActionPayload, payload_permission}
use swig_protocol_sdk.Actions.Action
use swig_protocol_sdk.Actions.Action.{
  Action, has_permission, has_all_but_manage_authority_access, sol_control, token_control, same_key,
}
use swig_protocol_sdk.Actions.Control.{uncapped, can_spend_max}
use swig_protocol_sdk.Actions.Collection.{
  Actions, is_root, can_manage_authority, can_close_swig_authority, can_prune_authorization_locks,
  has_program_action, can_use_program, can_spend_sol_max, can_spend_token_max, can_spend_max_by,
  can_manage_authorization_locks, first_max_duration,
}
use swig_protocol_sdk.Actions.Collection.Decode.{Agrees}

uncapped_spends : can_spend_max uncapped ≡ true
unfolding can_spend_max uncapped
uncapped_spends = refl

root_sol : (a : Action) → Action.is_root a ≡ true → can_spend_max (sol_control a) ≡ true
unfolding Action.is_root sol_control can_spend_max
root_sol a e = ground arith

module _ ⦃kit : Kit⦄ where
  root_token :
      (mint : Bytes) (a : Action)
      → Action.is_root a ≡ true
      → can_spend_max (token_control mint a) ≡ true
  unfolding Action.is_root token_control can_spend_max
  root_token mint a e = ground arith

  root_program :
      (program : Bytes) (a : Action)
      → Action.is_root a ≡ true
      → Action.can_use_program program a ≡ true
  unfolding Action.is_root Action.can_use_program
  root_program program a e = ground arith

  -- A role with `All` may manage authorities, close the swig, prune locks, use every program and
  -- spend SOL and every token without a cap.
  pub is_root-grants :
      (s : Actions)
      → is_root s ≡ true
      → (can_manage_authority s ≡ true)
        × (can_close_swig_authority s ≡ true)
        × (can_prune_authorization_locks s ≡ true)
        × (has_program_action s ≡ true)
        × (can_spend_sol_max s ≡ true)
        × ((mint : Bytes) → can_spend_token_max mint s ≡ true)
        × ((program : Bytes) → can_use_program program s ≡ true)
  unfolding is_root can_manage_authority can_close_swig_authority can_prune_authorization_locks
      has_program_action can_use_program can_spend_sol_max can_spend_token_max can_spend_max_by
  is_root-grants s e = (
    any_mono Action.is_root _ s.actions
        (λ a h. unfold Action.is_root Action.can_manage_authority in ground arith) e,
    any_mono Action.is_root _ s.actions
        (λ a h. unfold Action.is_root Action.can_close_swig_authority in ground arith) e,
    any_mono Action.is_root _ s.actions
        (λ a h. unfold Action.is_root Action.can_prune_authorization_locks in ground arith) e,
    any_mono Action.is_root _ s.actions
        (λ a h. unfold Action.is_root Action.has_program_action in ground arith) e,
    any_mono Action.is_root _ s.actions root_sol e,
    λ mint. any_mono Action.is_root _ s.actions (root_token mint) e,
    λ program. any_mono Action.is_root _ s.actions (root_program program) e,
  )

  same_text : (a b : Bytes) → length a ≡ 32 → length b ≡ 32 → kit.base58 a ≡ kit.base58 b → a ≡ b
  same_text a b ha hb e =
      sym (kit.from_base58_lem a ha) ∙ ap kit.from_base58 e ∙ kit.from_base58_lem b hb

  -- Two keys of 32 bytes count as the same exactly if they are.
  pub same_key_iff : (a b : Bytes) → length a ≡ 32 → length b ≡ 32 → (same_key a b ≡ true) ↔ (a ≡ b)
  unfolding same_key
  same_key_iff a b ha hb = (
    λ e. same_text a b ha hb ((bytes_equal_iff _ _).0 e),
    λ e. rw e ((bytes_equal_iff (kit.base58 b) (kit.base58 b)).1 refl),
  )

-- A payload that carries a duration is that of the lock permission, and the other way round.
lock_payload :
    (p : ActionPayload)
    → (permission_code (payload_permission p)
        == permission_code Permission.manage_authorization_locks)
      ≡ elim (Action.max_duration_of p) [ none ↦ false | some _ ↦ true ]
unfolding payload_permission permission_code Action.max_duration_of
lock_payload ActionPayload.all = refl
lock_payload _ = refl

lock_action :
    (a : Action)
    → Agrees a
    → has_permission a Permission.manage_authorization_locks
      ≡ elim (Action.authorization_lock_max_duration_slots a) [ none ↦ false | some _ ↦ true ]
unfolding has_permission Action.authorization_lock_max_duration_slots
lock_action a g = rw (← g) (lock_payload a.payload)

locks_by_permission :
    (actions : List Action)
    → All Agrees actions
    → elim (first_max_duration actions) [ none ↦ false | some _ ↦ true ]
      ≡ any (λ a. has_permission a Permission.manage_authorization_locks) actions
unfolding first_max_duration
locks_by_permission [] g = refl
locks_by_permission (a ∷ rest) g = ground (arith, lock_action a g.0, locks_by_permission rest g.1)

-- Of actions as they are decoded: locks may be managed exactly if one action has the permission
-- `ManageAuthorizationLocks`, so `All` alone does not give it.
pub can_manage_authorization_locks-permission :
    (s : Actions)
    → All Agrees s.actions
    → can_manage_authorization_locks s
      ≡ any (λ a. has_permission a Permission.manage_authorization_locks) s.actions
unfolding can_manage_authorization_locks
can_manage_authorization_locks-permission s g = locks_by_permission s.actions g
