-- ===== src/Coder/Instructions/Create/Decoder.antt =====
-- What the decoder of createV1.ts makes of the encoder's bytes.
use swig_protocol_sdk.Common.{◌+◌, ◌≡◌, refl, some, [], ◌++◌, Bytes, length, arith, length-append}
use swig_protocol_sdk.Kit.{Kit, ◌>>=◌, pure, read_rest, EncodesAll}
use swig_protocol_sdk.Kit.Laws.{EncodesAll-then, Encodes-uint, Encodes-fixed, Encodes-enum}
use swig_protocol_sdk.Coder.AuthorityTypes.{
  authority_type_code, authority_type_variant, authority_type_variant-code, authority_type_code-lt,
}
use swig_protocol_sdk.Coder.Instructions.Discriminator.{
  SwigInstructionDiscriminator, discriminator_code, Encodes-discriminator,
}
use swig_protocol_sdk.Coder.Instructions.Create.{
  CreateV1InstructionDataArgs, CreateV1InstructionData, IsCreateV1, write_create_v1, read_create_v1,
}

module _ ⦃kit : Kit⦄ where
  -- a byte array that takes all that is left, and one behind it
  rest-twice {ℓ} :
      {A : Type ℓ} (a b : Bytes) (f : Bytes → Bytes → A)
      → EncodesAll
          (some (a ++ b))
          (length a + length b)
          (read_rest >>= λ x. read_rest >>= λ y. pure (f x y))
          (f (a ++ b) [])
  rest-twice a b f = record {
    bytes = a ++ b;
    written = refl;
    width = length-append a b;
    reads = refl;
  }

  -- From the data of createV1, for bumps below 256, an id of 32 bytes and fewer than 65536 bytes
  -- of authority data, the decoder reads the authority data and the actions together as the
  -- authority data, and no actions; the other fields are read back.
  pub read_create_v1-write :
      (x : CreateV1InstructionDataArgs)
      → IsCreateV1 x
      → EncodesAll
          (write_create_v1 x)
          (40 + (length x.authority_data + length x.actions))
          read_create_v1
          (record {
            discriminator = discriminator_code SwigInstructionDiscriminator.create_v1;
            authority_type = x.authority_type;
            authority_data_len = length x.authority_data;
            bump = x.bump;
            wallet_bump = x.wallet_bump;
            id = x.id;
            authority_data = x.authority_data ++ x.actions;
            actions = [];
          })
  unfolding write_create_v1 read_create_v1
  read_create_v1-write x v =
      let width : 40 + (length x.authority_data + length x.actions)
          ≡ 2 + (2 + (2 + (1 + (1 + (32 + (length x.authority_data + length x.actions)))))) =
        omega arith in
      rw width (
        EncodesAll-then _ (Encodes-discriminator SwigInstructionDiscriminator.create_v1) (
          EncodesAll-then _
            (Encodes-enum authority_type_code authority_type_variant 2 x.authority_type
              (omega (arith, authority_type_code-lt x.authority_type))
              (authority_type_variant-code x.authority_type))
            (EncodesAll-then _ (Encodes-uint 2 (length x.authority_data) v.authority_data_len_fits)
              (EncodesAll-then _ (Encodes-uint 1 x.bump v.bump_fits) (
                EncodesAll-then _ (Encodes-uint 1 x.wallet_bump v.wallet_bump_fits) (
                  EncodesAll-then _ (Encodes-fixed 32 x.id v.id_fits)
                    (rest-twice x.authority_data x.actions decoded)))))))
    where
      decoded : Bytes → Bytes → CreateV1InstructionData
      decoded authority_data actions = record {
        discriminator = discriminator_code SwigInstructionDiscriminator.create_v1;
        authority_type = x.authority_type;
        authority_data_len = length x.authority_data;
        bump = x.bump;
        wallet_bump = x.wallet_bump;
        id = x.id;
        authority_data = authority_data;
        actions = actions;
      }
