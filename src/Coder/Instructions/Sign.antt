-- ===== src/Coder/Instructions/Sign.antt =====
-- The instructions of coder/src/instructions that carry compact instructions: signV1.ts and signV2.ts,
-- which differ in their number only, and subAccountSignV1.ts. `write_…` is the encoder,
-- `write_sub_account_sign_payload` the encoder of what an authority signs.
pub mod Decoder
pub mod Wire
use swig_protocol_sdk.Common.{ℕ, Option, some, List, Bytes, length, zeros, ◌>>=◌}
use swig_protocol_sdk.Kit.{Kit, ◌then_write◌}
use swig_protocol_sdk.Coder.CompactInstructions.{CompactInstruction, write_compact_instructions}
use swig_protocol_sdk.Coder.Instructions.Discriminator.{
  SwigInstructionDiscriminator, write_discriminator,
}

pub record SignInstructionDataArgs : Type 0 where
  pub role_id : ℕ
  pub compact_instructions : List CompactInstruction
  pub authority_payload : Bytes

module _ ⦃kit : Kit⦄ where
  -- The body that signV1.ts and signV2.ts share; `payload_size` is the codec's argument.
  unfoldable pub write_sign :
      SwigInstructionDiscriminator → ℕ → SignInstructionDataArgs → Option Bytes
  unfolding write_discriminator
  write_sign d payload_size x = do
    instructions ← write_compact_instructions x.compact_instructions
    write_discriminator d
        then_write kit.write_uint 2 (length instructions)
        then_write kit.write_uint 4 x.role_id
        then_write some instructions
        then_write some (kit.write_fixed payload_size x.authority_payload)

  unfoldable pub write_sign_v1 : ℕ → SignInstructionDataArgs → Option Bytes
  unfolding write_sign
  write_sign_v1 = write_sign SwigInstructionDiscriminator.sign_v1

  unfoldable pub write_sign_v2 : ℕ → SignInstructionDataArgs → Option Bytes
  unfolding write_sign
  write_sign_v2 = write_sign SwigInstructionDiscriminator.sign_v2

  unfoldable pub write_sub_account_sign : SignInstructionDataArgs → Option Bytes
  unfolding write_discriminator
  write_sub_account_sign x = do
    instructions ← write_compact_instructions x.compact_instructions
    write_discriminator SwigInstructionDiscriminator.sub_account_sign_v1
        then_write kit.write_uint 2 (length instructions)
        then_write kit.write_uint 4 x.role_id
        then_write some (kit.write_fixed 8 (zeros 8))
        then_write some instructions
        then_write some x.authority_payload

  unfoldable pub write_sub_account_sign_payload : SignInstructionDataArgs → Option Bytes
  unfolding write_discriminator
  write_sub_account_sign_payload x = do
    instructions ← write_compact_instructions x.compact_instructions
    write_discriminator SwigInstructionDiscriminator.sub_account_sign_v1
        then_write kit.write_uint 2 (length instructions)
        then_write kit.write_uint 4 x.role_id
        then_write some (kit.write_fixed 8 (zeros 8))
        then_write some instructions
