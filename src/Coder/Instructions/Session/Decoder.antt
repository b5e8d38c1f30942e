-- ===== src/Coder/Instructions/Session/Decoder.antt =====
-- What the decoder of createSessionV1.ts makes of the encoder's bytes, with little-endian codecs.
use swig_protocol_sdk.Common.{
  ℕ, ◌+◌, ◌*◌, ◌/◌, ◌%◌, ◌^◌, ◌<◌, ◌≡◌, refl, Option, some, [], ◌∷◌, ◌++◌, Bytes, length, arith,
  length-append,
}
use swig_protocol_sdk.Kit.{Reader, ◌>>=◌, decode, EncodesAll, ◌then_write◌}
use swig_protocol_sdk.Kit.Laws.{EncodesAll-then, EncodesAll-rest, Encodes-uint, Encodes-fixed}
use swig_protocol_sdk.Kit.LittleEndian.{little_endian, write_le, read_le, le_digits, le_value}
use swig_protocol_sdk.Coder.Instructions.Discriminator.{
  SwigInstructionDiscriminator, discriminator_code, Encodes-discriminator,
}
use swig_protocol_sdk.Coder.Instructions.Session.{
  CreateSessionInstructionDataArgs, IsCreateSession, write_create_session, read_create_session,
}

-- Two zero bytes and a number of four, read as a number of four and one of two.
shifted :
    (n : ℕ) (rest : Bytes)
    → n < 256 ^ 4
    → (b : Bytes) × (write_le 2 0 ≡ some (0 ∷ 0 ∷ []))
      × (write_le 4 n ≡ some b)
      × (length b ≡ 4)
      × (read_le 4 (0 ∷ 0 ∷ b ++ rest)
          ≡ some (n % 65536 * 65536, n / 65536 % 256 ∷ n / 16777216 % 256 ∷ rest))
      × (read_le 2 (n / 65536 % 256 ∷ n / 16777216 % 256 ∷ rest) ≡ some (n / 65536, rest))
unfolding write_le read_le le_digits le_value
shifted n rest h = (le_digits 4 n, refl, ground arith, refl, ground arith, ground arith)

-- A padding and an id in the one order, and read in the other.
EncodesAll-shifted {ℓ} :
    {A : Type ℓ} (n : ℕ) {o : Option Bytes} {w : ℕ} (f : ℕ → ℕ → Reader A) {y : A}
    → n < 256 ^ 4
    → EncodesAll o w (f (n % 65536 * 65536) (n / 65536)) y
    → EncodesAll
        (write_le 2 0 then_write write_le 4 n then_write o)
        (6 + w)
        (read_le 4 >>= λ id. read_le 2 >>= λ padding. f id padding)
        y
EncodesAll-shifted n f h e =
    let (b, zero_bytes, id_bytes, four, first, second) = shifted n e.bytes h in
    record {
      bytes = 0 ∷ 0 ∷ b ++ e.bytes;
      written = rw (e.written, id_bytes, zero_bytes);
      width = omega (arith, length-append b e.bytes, four, e.width);
      reads = rw (first, decode, ◌>>=◌) (rw second e.reads);
    }

-- With little-endian codecs: from the data of createSessionV1, for a role below 2^32, a duration
-- below 2^64 and a key of 32 bytes, the decoder reads the lower half of the role, times 65536, as
-- the role, and its upper half as the padding; the other fields are read back.
pub read_create_session-write :
    (x : CreateSessionInstructionDataArgs)
    → IsCreateSession x
    → EncodesAll
        (write_create_session x)
        (48 + length x.authority_payload)
        read_create_session
        (record {
          discriminator = discriminator_code SwigInstructionDiscriminator.create_session_v1;
          padding = x.role_id / 65536;
          role_id = x.role_id % 65536 * 65536;
          session_duration = x.session_duration;
          session_key = x.session_key;
          authority_payload = x.authority_payload;
        })
unfolding write_create_session read_create_session
read_create_session-write x v =
    let width : 48 + length x.authority_payload
        ≡ 2 + (6 + (8 + (32 + length x.authority_payload))) =
      omega arith in
    rw width (
      EncodesAll-then _ (Encodes-discriminator SwigInstructionDiscriminator.create_session_v1) (
        EncodesAll-shifted x.role_id _ v.role_id_fits (
          EncodesAll-then _ (Encodes-uint 8 x.session_duration v.session_duration_fits) (
            EncodesAll-then _ (Encodes-fixed 32 x.session_key v.session_key_fits)
              (EncodesAll-rest x.authority_payload _)))))
