-- ===== src/Coder/Secp256r1Signature.antt =====
-- coder/src/types/secp256r1SignatureInstructionData.ts: the data of the precompile's instruction, for one
-- signature. `write_…` is the encoder.
use swig_protocol_sdk.Common.{◌+◌, Option, some, Bytes, length, zeros}
use swig_protocol_sdk.Kit.{Kit, ◌then_write◌}

pub record Secp256r1SignatureInstructionData : Type 0 where
  pub public_key : Bytes
  pub message : Bytes
  pub signature : Bytes

module _ ⦃kit : Kit⦄ where
  unfoldable pub write_secp256r1_signature : Secp256r1SignatureInstructionData → Option Bytes
  write_secp256r1_signature x =
      kit.write_uint 1 1
      then_write some (kit.write_fixed 1 (zeros 1))
      then_write kit.write_uint 2 (16 + 33)
      then_write kit.write_uint 2 65535
      then_write kit.write_uint 2 16
      then_write kit.write_uint 2 65535
      then_write kit.write_uint 2 (16 + 33 + 64)
      then_write kit.write_uint 2 (length x.message)
      then_write kit.write_uint 2 65535
      then_write some (kit.write_fixed 33 x.public_key)
      then_write some (kit.write_fixed 64 x.signature)
      then_write some x.message
