-- ===== src/Actions/Ensure.antt =====
-- lib/src/actions/action.ts, `ensureProgramAction`: a new role without any program permission is
-- given `ProgramAll`.
pub mod Appends
pub mod Rights
use swig_protocol_sdk.Common.{◌+◌, Option, some, if◌then◌else◌, length, zeros, set_bytes, ◌>>=◌}
use swig_protocol_sdk.Kit.{Kit}
use swig_protocol_sdk.Actions.Collection.{Actions, from, count, is_root, has_program_action}
use swig_protocol_sdk.Actions.Builder.{new, program_all, get_actions}

module _ ⦃kit : Kit⦄ where
  -- The two buffers in one, decoded anew.
  unfoldable pub with_program_all : Actions → Option Actions
  unfolding new program_all count
  with_program_all s = do
    extra ← get_actions (program_all new)
    front ← set_bytes (zeros (length s.raw + length extra.raw)) s.raw 0
    combined ← set_bytes front extra.raw (length s.raw)
    from combined (count s + count extra)

  unfoldable pub ensure_program_action : Actions → Option Actions
  unfolding with_program_all is_root has_program_action
  ensure_program_action s =
      if is_root s then some s else if has_program_action s then some s else with_program_all s
