-- ===== src/Authority/Secp256r1/Sign.antt =====
-- lib/src/authority/instructions/secp256r1.ts: the methods that run other instructions.
use swig_protocol_sdk.Common.{ℕ, Option, List, [], ◌∷◌, Bytes, ◌>>=◌}
use swig_protocol_sdk.Kit.{Kit}
use swig_protocol_sdk.Coder.CompactInstructions.{write_compact_instructions}
use swig_protocol_sdk.Instructions.Compact.{SolAccountMeta, SolInstruction}
use swig_protocol_sdk.Instructions.Metas.{
  sign_v1_metas_with_system_program, sign_v2_metas_with_system_program,
  sub_account_sign_metas_with_system_program,
}
use swig_protocol_sdk.Instructions.SwigInstruction.{SwigInstructionArgs, SwigInstructionContext}
use swig_protocol_sdk.Authority.Interface.{InstructionDataOptions, compact}
use swig_protocol_sdk.Authority.Signing.{Hashes, mark_fee_payer}
use swig_protocol_sdk.Authority.Secp256r1.Payload.{signed_instruction, instructions_sysvar}

module _ ⦃kit : Kit⦄ (hashes : Hashes) (store : List SolAccountMeta) where
  unfoldable pub sign_v1_instruction :
      Bytes
      → Bytes
      → Bytes
      → ℕ
      → List SolInstruction
      → InstructionDataOptions
      → Option SwigInstructionContext
  unfolding sign_v1_metas_with_system_program compact write_compact_instructions instructions_sysvar
  sign_v1_instruction public_key swig payer role_id inner_instructions options = do
    (metas, compact_ixs) ←
        compact store swig (sign_v1_metas_with_system_program swig payer (instructions_sysvar ∷ []))
          inner_instructions []
    signed_instruction hashes public_key options metas (write_compact_instructions compact_ixs)
        (λ payload. SwigInstructionArgs.sign_v1 (record {
          role_id = role_id;
          compact_instructions = compact_ixs;
          authority_payload = payload;
        }))
        [] []

  unfoldable pub sign_v2_instruction :
      Bytes
      → Bytes
      → Bytes
      → ℕ
      → List SolInstruction
      → InstructionDataOptions
      → Option SwigInstructionContext
  unfolding sign_v2_metas_with_system_program compact write_compact_instructions mark_fee_payer
      instructions_sysvar
  sign_v2_instruction public_key swig system role_id inner_instructions options = do
    (combined, compact_ixs) ←
        compact store swig
          (sign_v2_metas_with_system_program swig system (instructions_sysvar ∷ []))
          inner_instructions (system ∷ [])
    metas ← mark_fee_payer options.fee_payer combined
    signed_instruction hashes public_key options metas (write_compact_instructions compact_ixs)
        (λ payload. SwigInstructionArgs.sign_v2 (record {
          role_id = role_id;
          compact_instructions = compact_ixs;
          authority_payload = payload;
        }))
        [] []

  unfoldable pub sub_account_sign_v1_instruction :
      Bytes
      → Bytes
      → Bytes
      → ℕ
      → List SolInstruction
      → InstructionDataOptions
      → Option SwigInstructionContext
  unfolding sub_account_sign_metas_with_system_program compact write_compact_instructions
      instructions_sysvar
  sub_account_sign_v1_instruction public_key swig sub role_id inner_instructions options = do
    (metas, compact_ixs) ←
        compact store swig
          (sub_account_sign_metas_with_system_program swig sub (instructions_sysvar ∷ []))
          inner_instructions (sub ∷ [])
    signed_instruction hashes public_key options metas (write_compact_instructions compact_ixs)
        (λ payload. SwigInstructionArgs.sub_account_sign (record {
          role_id = role_id;
          compact_instructions = compact_ixs;
          authority_payload = payload;
        }))
        [] []
