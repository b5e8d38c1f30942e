-- ===== src/Coder/Instructions/Sign/Decoder.antt =====
-- The decoders of signV1.ts, signV2.ts and subAccountSignV1.ts.
use swig_protocol_sdk.Common.{ℕ, List, Bytes}
use swig_protocol_sdk.Kit.{Kit, Reader, ◌>>=◌, pure, read_rest}
use swig_protocol_sdk.Coder.CompactInstructions.{CompactInstruction, read_compact_instructions}

pub record SignInstructionData : Type 0 where
  pub discriminator : ℕ
  pub instruction_payload_len : ℕ
  pub role_id : ℕ
  pub compact_instructions : List CompactInstruction
  pub authority_payload : Bytes

pub record SubAccountSignInstructionData : Type 0 where
  pub discriminator : ℕ
  pub instruction_payload_len : ℕ
  pub role_id : ℕ
  pub padding : Bytes
  pub compact_instructions : List CompactInstruction
  pub authority_payload : Bytes

module _ ⦃kit : Kit⦄ where
  unfoldable pub read_sign : ℕ → Reader SignInstructionData
  unfolding read_compact_instructions
  read_sign payload_size = do
    discriminator ← kit.read_uint 2
    instruction_payload_len ← kit.read_uint 2
    role_id ← kit.read_uint 4
    compact_instructions ← read_compact_instructions
    authority_payload ← kit.read_fixed payload_size
    pure (record {
      discriminator = discriminator;
      instruction_payload_len = instruction_payload_len;
      role_id = role_id;
      compact_instructions = compact_instructions;
      authority_payload = authority_payload;
    })

  unfoldable pub read_sub_account_sign : Reader SubAccountSignInstructionData
  unfolding read_compact_instructions
  read_sub_account_sign = do
    discriminator ← kit.read_uint 2
    instruction_payload_len ← kit.read_uint 2
    role_id ← kit.read_uint 4
    padding ← kit.read_fixed 8
    compact_instructions ← read_compact_instructions
    authority_payload ← read_rest
    pure (record {
      discriminator = discriminator;
      instruction_payload_len = instruction_payload_len;
      role_id = role_id;
      padding = padding;
      compact_instructions = compact_instructions;
      authority_payload = authority_payload;
    })
