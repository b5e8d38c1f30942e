-- ===== src/Coder/Instructions/Session.antt =====
-- coder/src/instructions/createSessionV1.ts. The decoders take the role's id and the padding in the
-- other order than the encoders write them.
pub mod Decoder
use swig_protocol_sdk.Common.{ℕ, ◌^◌, ◌<◌, ◌≡◌, Option, some, [], Bool, Bytes, length, zeros}
use swig_protocol_sdk.Kit.{Kit, Reader, ◌>>=◌, pure, read_rest, ◌then_write◌, write_enum, read_enum}
use swig_protocol_sdk.Coder.AuthorityTypes.{
  AuthorityType, authority_type_code, authority_type_variant,
}
use swig_protocol_sdk.Coder.Instructions.Discriminator.{
  SwigInstructionDiscriminator, write_discriminator,
}

pub record CreateSessionInstructionDataArgs : Type 0 where
  pub role_id : ℕ
  pub session_duration : ℕ
  pub session_key : Bytes
  pub authority_payload : Bytes

pub record CreateSessionInstructionData : Type 0 where
  pub discriminator : ℕ
  pub padding : ℕ
  pub role_id : ℕ
  pub session_duration : ℕ
  pub session_key : Bytes
  pub authority_payload : Bytes

module _ ⦃kit : Kit⦄ where
  unfoldable pub write_create_session : CreateSessionInstructionDataArgs → Option Bytes
  unfolding write_discriminator
  write_create_session x =
      write_discriminator SwigInstructionDiscriminator.create_session_v1
      then_write kit.write_uint 2 0
      then_write kit.write_uint 4 x.role_id
      then_write kit.write_uint 8 x.session_duration
      then_write some (kit.write_fixed 32 x.session_key)
      then_write some x.authority_payload

  unfoldable pub write_create_session_payload : CreateSessionInstructionDataArgs → Option Bytes
  unfolding write_discriminator
  write_create_session_payload x =
      write_discriminator SwigInstructionDiscriminator.create_session_v1
      then_write kit.write_uint 2 0
      then_write kit.write_uint 4 x.role_id
      then_write kit.write_uint 8 x.session_duration
      then_write some (kit.write_fixed 32 x.session_key)

  unfoldable pub read_create_session : Reader CreateSessionInstructionData
  read_create_session = do
    discriminator ← kit.read_uint 2
    role_id ← kit.read_uint 4
    padding ← kit.read_uint 2
    session_duration ← kit.read_uint 8
    session_key ← kit.read_fixed 32
    authority_payload ← read_rest
    pure (record {
      discriminator = discriminator;
      padding = padding;
      role_id = role_id;
      session_duration = session_duration;
      session_key = session_key;
      authority_payload = authority_payload;
    })

  -- The decoder of the payload alone, which has no last field.
  unfoldable pub read_create_session_payload : Reader CreateSessionInstructionData
  read_create_session_payload = do
    discriminator ← kit.read_uint 2
    role_id ← kit.read_uint 4
    padding ← kit.read_uint 2
    session_duration ← kit.read_uint 8
    session_key ← kit.read_fixed 32
    pure (record {
      discriminator = discriminator;
      padding = padding;
      role_id = role_id;
      session_duration = session_duration;
      session_key = session_key;
      authority_payload = [];
    })

-- What the arguments must meet to be written as they are.
pub record IsCreateSession (x : CreateSessionInstructionDataArgs) : Type 0 where
  pub role_id_fits : x.role_id < 256 ^ 4
  pub session_duration_fits : x.session_duration < 256 ^ 8
  pub session_key_fits : length x.session_key ≡ 32
