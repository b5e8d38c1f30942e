-- ===== src/Authority/Secp256k1/Sign.antt =====
-- lib/src/authority/instructions/secp256k1.ts: the methods that run other instructions.
use swig_protocol_sdk.Common.{ℕ, Option, List, [], ◌∷◌, Bytes, ◌>>=◌}
use swig_protocol_sdk.Kit.{Kit}
use swig_protocol_sdk.Coder.CompactInstructions.{write_compact_instructions}
use swig_protocol_sdk.Instructions.Compact.{SolAccountMeta, SolInstruction}
use swig_protocol_sdk.Instructions.Metas.{sign_v1_metas, sign_v2_metas, sub_account_sign_metas}
use swig_protocol_sdk.Instructions.SwigInstruction.{SwigInstructionArgs, SwigInstructionContext}
use swig_protocol_sdk.Authority.Interface.{InstructionDataOptions, compact}
use swig_protocol_sdk.Authority.Signing.{Hashes, mark_fee_payer}
use swig_protocol_sdk.Authority.Secp256k1.Payload.{signed_instruction}

module _ ⦃kit : Kit⦄ (hashes : Hashes) (store : List SolAccountMeta) where
  unfoldable pub sign_v1_instruction :
      Bytes
      → Bytes
      → ℕ
      → List SolInstruction
      → InstructionDataOptions
      → Option SwigInstructionContext
  unfolding sign_v1_metas compact write_compact_instructions
  sign_v1_instruction swig payer role_id inner_instructions options = do
    (metas, compact_ixs) ← compact store swig (sign_v1_metas swig payer) inner_instructions []
    signed_instruction hashes options metas (write_compact_instructions compact_ixs)
        (λ payload. SwigInstructionArgs.sign_v1 (record {
          role_id = role_id;
          compact_instructions = compact_ixs;
          authority_payload = payload;
        }))
        [] []

  unfoldable pub sign_v2_instruction :
      Bytes
      → Bytes
      → ℕ
      → List SolInstruction
      → InstructionDataOptions
      → Option SwigInstructionContext
  unfolding sign_v2_metas compact write_compact_instructions mark_fee_payer
  sign_v2_instruction swig system role_id inner_instructions options = do
    (combined, compact_ixs) ←
        compact store swig (sign_v2_metas swig system) inner_instructions (system ∷ [])
    metas ← mark_fee_payer options.fee_payer combined
    signed_instruction hashes options metas (write_compact_instructions compact_ixs)
        (λ payload. SwigInstructionArgs.sign_v2 (record {
          role_id = role_id;
          compact_instructions = compact_ixs;
          authority_payload = payload;
        }))
        [] []

  unfoldable pub sub_account_sign_v1_instruction :
      Bytes
      → Bytes
      → ℕ
      → List SolInstruction
      → InstructionDataOptions
      → Option SwigInstructionContext
  unfolding sub_account_sign_metas compact write_compact_instructions
  sub_account_sign_v1_instruction swig sub role_id inner_instructions options = do
    (metas, compact_ixs) ←
        compact store swig (sub_account_sign_metas swig sub) inner_instructions (sub ∷ [])
    signed_instruction hashes options metas (write_compact_instructions compact_ixs)
        (λ payload. SwigInstructionArgs.sub_account_sign (record {
          role_id = role_id;
          compact_instructions = compact_ixs;
          authority_payload = payload;
        }))
        [] []
