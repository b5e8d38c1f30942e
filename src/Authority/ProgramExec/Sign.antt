-- ===== src/Authority/ProgramExec/Sign.antt =====
-- lib/src/authority/instructions/programexec.ts: the methods that run other instructions.
use swig_protocol_sdk.Common.{ℕ, Option, List, [], ◌∷◌, ◌++◌, Bytes, length, ◌>>=◌}
use swig_protocol_sdk.Kit.{Kit}
use swig_protocol_sdk.Instructions.Compact.{SolAccountMeta, SolInstruction}
use swig_protocol_sdk.Instructions.Metas.{sign_v1_metas, sign_v2_metas, sub_account_sign_metas}
use swig_protocol_sdk.Instructions.SwigInstruction.{SwigInstructionArgs, SwigInstructionContext}
use swig_protocol_sdk.Authority.Interface.{InstructionDataOptions, compact}
use swig_protocol_sdk.Authority.ProgramExec.Preceding.{
  program_sign_instruction, instructions_sysvar_meta,
}

module _ ⦃kit : Kit⦄ (store : List SolAccountMeta) where
  unfoldable pub sign_v1_instruction :
      Bytes
      → Bytes
      → Bytes
      → ℕ
      → List SolInstruction
      → InstructionDataOptions
      → Option SwigInstructionContext
  unfolding sign_v1_metas compact instructions_sysvar_meta
  sign_v1_instruction authority_data swig payer role_id inner_instructions options =
      let base_metas = sign_v1_metas swig payer in
      do
        (metas, compact_ixs) ←
            compact store swig (base_metas ++ instructions_sysvar_meta ∷ []) inner_instructions []
        program_sign_instruction authority_data swig payer options (length base_metas) metas
            (λ payload. SwigInstructionArgs.sign_v1 (record {
              role_id = role_id;
              compact_instructions = compact_ixs;
              authority_payload = payload;
            }))

  unfoldable pub sign_v2_instruction :
      Bytes
      → Bytes
      → Bytes
      → ℕ
      → List SolInstruction
      → InstructionDataOptions
      → Option SwigInstructionContext
  unfolding sign_v2_metas compact instructions_sysvar_meta
  sign_v2_instruction authority_data swig system role_id inner_instructions options =
      let base_metas = sign_v2_metas swig system in
      do
        (metas, compact_ixs) ←
            compact store swig (base_metas ++ instructions_sysvar_meta ∷ []) inner_instructions
              (system ∷ [])
        program_sign_instruction authority_data swig system options (length base_metas) metas
            (λ payload. SwigInstructionArgs.sign_v2 (record {
              role_id = role_id;
              compact_instructions = compact_ixs;
              authority_payload = payload;
            }))

  unfoldable pub sub_account_sign_v1_instruction :
      Bytes
      → Bytes
      → Bytes
      → ℕ
      → List SolInstruction
      → InstructionDataOptions
      → Option SwigInstructionContext
  unfolding sub_account_sign_metas compact instructions_sysvar_meta
  sub_account_sign_v1_instruction authority_data swig sub role_id inner_instructions options =
      let base_metas = sub_account_sign_metas swig sub in
      do
        (metas, compact_ixs) ←
            compact store swig (base_metas ++ instructions_sysvar_meta ∷ []) inner_instructions
              (sub ∷ [])
        program_sign_instruction authority_data swig sub options (length base_metas) metas
            (λ payload. SwigInstructionArgs.sub_account_sign (record {
              role_id = role_id;
              compact_instructions = compact_ixs;
              authority_payload = payload;
            }))
