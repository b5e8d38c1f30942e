-- ===== src/Authority/ProgramExec/Preceding.antt =====
-- lib/src/authority/instructions/programexec.ts: the instruction that comes first, and what the methods
-- share.
use swig_protocol_sdk.Common.{
  ℕ, Bool, true, false, ◌&&◌, Option, none, some, List, [], ◌∷◌, ◌++◌, Bytes, length, take, any,
  bytes_equal, guard, ◌==◌, ◌>>=◌, ◌>>◌, if◌then◌else◌,
}
use swig_protocol_sdk.Kit.{Kit, decode}
use swig_protocol_sdk.Coder.ProgramExec.{read_program_exec}
use swig_protocol_sdk.Instructions.Consts.{instructions_sysvar_string}
use swig_protocol_sdk.Instructions.Keys.{sol_public_key}
use swig_protocol_sdk.Instructions.Compact.{SolAccountMeta}
use swig_protocol_sdk.Instructions.SwigInstruction.{
  BuiltInstruction, SwigInstructionArgs, SwigInstructionContext, build,
}
use swig_protocol_sdk.Authority.Interface.{InstructionDataOptions}

-- The loop of `arraysEqual`, from arrays of one length.
unfoldable pub elements_equal : Bytes → Bytes → Bool
elements_equal (a ∷ as') (b ∷ bs) =
    let rest = elements_equal as' bs in if a == b then rest else false
elements_equal _ _ = true

unfoldable pub arrays_equal : Bytes → Bytes → Bool
unfolding elements_equal
arrays_equal a b = if length a == length b then elements_equal a b else false

-- `options.preInstructions[0]`, where there is exactly one.
unfoldable pub preceding_instruction : List BuiltInstruction → Option BuiltInstruction
preceding_instruction (ix ∷ []) = some ix
preceding_instruction _ = none

module _ ⦃kit : Kit⦄ where
  unfoldable pub instructions_sysvar_meta : SolAccountMeta
  instructions_sysvar_meta = record {
    public_key = kit.from_base58 instructions_sysvar_string;
    writable = false;
    signer = false;
  }

  unfoldable pub has_account : List SolAccountMeta → Bytes → Bool
  has_account accounts key =
      any (λ a. bytes_equal (kit.base58 a.public_key) (kit.base58 key)) accounts

  unfoldable pub validate_and_get_pre_instructions :
      InstructionDataOptions → Bytes → Bytes → Bytes → Option (List BuiltInstruction)
  unfolding preceding_instruction read_program_exec sol_public_key arrays_equal has_account
  validate_and_get_pre_instructions options authority_data swig payer_or_swig_system = do
    preceding_ix ← preceding_instruction options.pre_instructions
    decoded ← decode read_program_exec authority_data
    expected_program_id ← sol_public_key decoded.program_id
    guard (bytes_equal (kit.base58 preceding_ix.program) (kit.base58 expected_program_id))
    let instruction_prefix = take decoded.instruction_prefix_len decoded.instruction_prefix in
        guard
          (arrays_equal (take (length instruction_prefix) preceding_ix.ix_data) instruction_prefix)
    guard (
        has_account preceding_ix.accounts swig
        && has_account preceding_ix.accounts payer_or_swig_system)
    some options.pre_instructions

  -- What the methods share: the check, and the instruction with the account of the instructions behind
  -- `base_metas` and its index as the payload.
  unfoldable pub program_instruction :
      Bytes
      → Bytes
      → Bytes
      → InstructionDataOptions
      → List SolAccountMeta
      → List SolAccountMeta
      → (Bytes → SwigInstructionArgs)
      → Option SwigInstructionContext
  unfolding validate_and_get_pre_instructions build instructions_sysvar_meta
  program_instruction authority_data swig payer_or_swig_system options base_metas more args = do
    pre_instructions ←
        validate_and_get_pre_instructions options authority_data swig payer_or_swig_system
    build (base_metas ++ instructions_sysvar_meta ∷ more) (args (length base_metas ∷ []))
        pre_instructions options.post_instructions

  -- The same for a method that compacts instructions; `metas` are the combined accounts.
  unfoldable pub program_sign_instruction :
      Bytes
      → Bytes
      → Bytes
      → InstructionDataOptions
      → ℕ
      → List SolAccountMeta
      → (Bytes → SwigInstructionArgs)
      → Option SwigInstructionContext
  unfolding validate_and_get_pre_instructions build
  program_sign_instruction authority_data swig payer_or_swig_system options sysvar_index metas
        args =
      do
        pre_instructions ←
            validate_and_get_pre_instructions options authority_data swig payer_or_swig_system
        build metas (args (sysvar_index ∷ [])) pre_instructions options.post_instructions
