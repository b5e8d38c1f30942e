-- ===== src/Actions/Ensure/Appends.antt =====
-- `ensureProgramAction` appends one `ProgramAll` action where no program action is there.
use swig_protocol_sdk.Common.{
  ℕ, ◌+◌, ◌-◌, ◌^◌, ◌<◌, ◌≡◌, refl, false, some, List, [], ◌∷◌, ◌++◌, append-nil, Bytes, length,
  zeros, zeros-add, set_bytes, set_bytes-middle, length-replicate, slice, slice-middle, arith,
}
use swig_protocol_sdk.Kit.{Kit, decode}
use swig_protocol_sdk.Coder.Permissions.{Permission}
use swig_protocol_sdk.Coder.Headers.{read_action_header}
use swig_protocol_sdk.Actions.Payload.{ActionPayload, decode_action_payload}
use swig_protocol_sdk.Actions.Action.{Action}
use swig_protocol_sdk.Actions.Collection.{
  Actions, from, deserialize_actions, deserialize_from, count, is_root, has_program_action,
}
use swig_protocol_sdk.Actions.Layout.{
  Layout, done, action, deserialize_step, deserialize-Layout_more,
}
use swig_protocol_sdk.Actions.Config.{
  config_header, config_length, config_permission, length_with_header,
}
use swig_protocol_sdk.Actions.Config.Carries.{Carries}
use swig_protocol_sdk.Actions.Builder.{
  ActionsBuilder, new, push, program_all, get_actions, buffer_length,
}
use swig_protocol_sdk.Actions.Builder.RoundTrip.{
  CarryAll, built, data_bytes-Layout, get_actions-Buffer, Buffer,
}
use swig_protocol_sdk.Actions.Ensure.{with_program_all, ensure_program_action}

-- The `ProgramAll` action as its own builder makes it: its boundary is 8, the end of its own buffer.
abbrev pub program_all_action : Action
program_all_action = record {
  header = record { permission = Permission.program_all; length = 0; boundary = 8 };
  payload = ActionPayload.program_all;
}

module _ ⦃kit : Kit⦄ where
  -- The buffer with `ProgramAll` alone is one header.
  record Extra : Type 0 where
    raw : Bytes
    made :
        get_actions (program_all new)
        ≡ some (record { raw = raw; actions = program_all_action ∷ [] })
    width : length raw ≡ 8
    header : decode read_action_header raw ≡ some program_all_action.header

  Layout-one :
      {a : Action} {bs : Bytes}
      → Layout 0 (a ∷ []) bs
      → a.header.boundary ≡ 8
      → (length bs ≡ 8) × (decode read_action_header bs ≡ some a.header)
  Layout-one (action h [] hh eh ep hb (done c)) e = (rw append-nil hh, rw append-nil eh)
  Layout-one (action h (x ∷ p) hh eh ep hb (done c)) e = absurd (omega arith)

  program_all-Buffer : Buffer (program_all new) (ActionPayload.program_all ∷ [])
  unfolding new push program_all buffer_length length_with_header config_length
  program_all-Buffer = data_bytes-Layout (program_all new) _ (Carries.program_all, tt) (omega arith)

  extra : Extra
  unfolding new push program_all config_header config_length config_permission length_with_header
  extra =
      let w = program_all-Buffer in
      let one = Layout-one w.laid refl in
      record {
        raw = w.bytes;
        made = get_actions-Buffer (program_all new) _ (Carries.program_all, tt) w;
        width = one.0;
        header = one.1;
      }

  -- Decoding the actions with the extra header behind them.
  deserialize_extra :
      {actions : List Action} {bs : Bytes} (e : Bytes)
      → Layout 0 actions bs
      → length e ≡ 8
      → decode read_action_header e ≡ some program_all_action.header
      → deserialize_from (bs ++ e) 0 (length actions + 1)
        ≡ some (actions ++ program_all_action ∷ [])
  deserialize_extra {actions} {bs} e l we he = deserialize-Layout_more [] e 1 l refl last
    where
      behind : slice (bs ++ e) (length bs) (length bs + 8) ≡ e
      behind =
          rw (append-nil e) at (slice-middle bs e [] (length bs) (length bs + 8) refl (omega arith))

      none_left : slice (bs ++ e) (length bs + 8) 8 ≡ []
      none_left = let z : 8 - (length bs + 8) ≡ 0 = omega arith in rw z

      last : deserialize_from (bs ++ e) (0 + length bs) 1 ≡ some (program_all_action ∷ [])
      last =
          let z : 0 + length bs ≡ length bs = omega arith in
          rw z (
            deserialize_step (bs ++ e) (length bs) 0 program_all_action [] e [] behind he none_left
              (unfold decode_action_payload in refl) (unfold deserialize_from in refl))

  set_first :
      (raw e : Bytes)
      → set_bytes (zeros (length raw + length e)) raw 0 ≡ some (raw ++ zeros (length e))
  set_first raw e = rw (zeros-add (length raw) (length e)) (
      set_bytes-middle [] (zeros (length raw)) (zeros (length e)) raw
        (length-replicate {A = ℕ} (length raw) 0))

  set_second :
      (raw e : Bytes) → set_bytes (raw ++ zeros (length e)) e (length raw) ≡ some (raw ++ e)
  set_second raw e =
      rw (append-nil (zeros (length e)), append-nil e) at
        (set_bytes-middle raw (zeros (length e)) [] e (length-replicate {A = ℕ} (length e) 0))

  decode_combined :
      {actions : List Action} {raw : Bytes} (e : Bytes)
      → Layout 0 actions raw
      → length e ≡ 8
      → decode read_action_header e ≡ some program_all_action.header
      → from (raw ++ e) (length actions + 1)
        ≡ some (record { raw = raw ++ e; actions = actions ++ program_all_action ∷ [] })
  unfolding from deserialize_actions
  decode_combined e l we he = rw (deserialize_extra e l we he)

  with_program_all_lem :
      {actions : List Action} {raw : Bytes}
      → Layout 0 actions raw
      → (e : Bytes) × (length e ≡ 8)
        × (with_program_all (record { raw = raw; actions = actions })
            ≡ some (record { raw = raw ++ e; actions = actions ++ program_all_action ∷ [] }))
  unfolding with_program_all count
  with_program_all_lem {raw} l =
      let x = extra in
      (
        x.raw,
        x.width,
        rw (
          x.made,
          set_first raw x.raw,
          set_second raw x.raw,
          decode_combined x.raw l x.width x.header,
        ),
      )

  -- Let `get` of a builder whose configurations carry `xs` (numbers in range, buffer shorter than
  -- 2^32 bytes) give `s`. Where `s` has neither `All` nor a program permission,
  -- `ensureProgramAction` succeeds: it keeps the actions and the bytes of `s` in front, and adds
  -- eight bytes and one `ProgramAll` action, whose boundary is 8.
  pub ensure_program_action-append :
      (b : ActionsBuilder) (xs : List ActionPayload) (s : Actions)
      → CarryAll b.action_configs xs
      → buffer_length b < 256 ^ 4
      → get_actions b ≡ some s
      → is_root s ≡ false
      → has_program_action s ≡ false
      → (e : Bytes) × (length e ≡ 8)
        × (ensure_program_action s
            ≡ some (record { raw = s.raw ++ e; actions = s.actions ++ program_all_action ∷ [] }))
  unfolding ensure_program_action
  ensure_program_action-append b xs s k hb hs root program =
      let w = data_bytes-Layout b xs k hb in
      let same : s ≡ record { raw = w.bytes; actions = built 0 b.action_configs xs } =
        cc (get_actions-Buffer b xs k w) in
      let (e, we, he) = with_program_all_lem w.laid in (e, we, rw (root, program) (rw same he))
