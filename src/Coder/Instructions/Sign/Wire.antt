-- ===== src/Coder/Instructions/Sign/Wire.antt =====
-- The format of the sign instructions apart from the code: behind a header with the number of the
-- instruction, the length of the compact instructions and the role, the compact instructions fill
-- exactly that length, and all that is left is the authority's payload.
use swig_protocol_sdk.Common.{
  ℕ, ◌+◌, ◌^◌, ◌<◌, ◌≡◌, refl, Option, none, some, [], ◌++◌, append-nil, Bytes, All, length, take,
  drop, leb, le→leb, if◌then◌else◌, arith, length-append, take-append, drop-append, zeros,
}
use swig_protocol_sdk.Kit.{Kit, Reader, ◌>>=◌, pure, read_rest, Encodes, EncodesAll}
use swig_protocol_sdk.Kit.Laws.{
  EncodesAll-then, EncodesAll-rest, Encodes-uint, Encodes-fixed, write_fixed-length,
}
use swig_protocol_sdk.Kit.Arrays.{read_array, total}
use swig_protocol_sdk.Coder.CompactInstructions.RoundTrip.{
  IsCompactInstruction, wire_size, read_wire, write_compact_instructions-Encodes,
}
use swig_protocol_sdk.Coder.Instructions.Discriminator.{
  SwigInstructionDiscriminator, discriminator_code, Encodes-discriminator,
}
use swig_protocol_sdk.Coder.Instructions.Sign.{
  SignInstructionDataArgs, write_sign, write_sub_account_sign,
}

-- `n` bytes from the front, which `d` reads to their end.
abbrev pub whole {ℓ} : {A : Type ℓ} → Option (A × Bytes) → Bytes → Option (A × Bytes)
whole (some (a, [])) rest = some (a, rest)
whole _ rest = none

abbrev pub read_part {ℓ} : {A : Type ℓ} → ℕ → Reader A → Reader A
read_part n d bs = if leb n (length bs) then whole (d (take n bs)) (drop n bs) else none

Encodes-part {ℓ} :
    {A : Type ℓ} (b : Bytes) (w : ℕ) (d : Reader A) {x : A}
    → length b ≡ w
    → d b ≡ some (x, [])
    → Encodes (some b) w (read_part w d) x
Encodes-part b w d h e = record {
  bytes = b;
  written = refl;
  width = h;
  reads = λ rest. rw (
    le→leb w (length (b ++ rest)) (omega (arith, length-append b rest, h)),
    take-append w b rest h,
    drop-append w b rest h,
    e,
  );
}

-- What the arguments of a sign instruction must meet to be written as they are.
pub record IsSign (x : SignInstructionDataArgs) : Type 0 where
  pub few : length x.compact_instructions < 256
  pub each : All IsCompactInstruction x.compact_instructions
  pub instruction_payload_len_fits : 1 + total wire_size x.compact_instructions < 256 ^ 2
  pub role_id_fits : x.role_id < 256 ^ 4

module _ ⦃kit : Kit⦄ where
  abbrev pub read_sign_wire : Reader (ℕ × SignInstructionDataArgs)
  read_sign_wire = kit.read_uint 2 >>= λ code. kit.read_uint 2 >>= λ n.
      kit.read_uint 4 >>= λ role_id. read_part n (read_array 1 read_wire) >>= λ instructions.
      read_rest >>= λ payload. pure (
        code,
        record {
          role_id = role_id;
          compact_instructions = instructions;
          authority_payload = payload;
        },
      )

  -- Let a sign instruction carry fewer than 256 compact instructions, each with indices below 256,
  -- fewer than 256 accounts and fewer than 65536 bytes of data, fewer than 65536 bytes together,
  -- for a role below 2^32. With the length of the payload as its argument the encoder writes them,
  -- and a reader of the format gets them back with the number of the instruction: the length in
  -- the header is exactly that of the compact instructions, and all that is left is the payload.
  pub write_sign-wire :
      (d : SwigInstructionDiscriminator) (x : SignInstructionDataArgs)
      → IsSign x
      → EncodesAll
          (write_sign d (length x.authority_payload) x)
          (9 + (total wire_size x.compact_instructions + length x.authority_payload))
          read_sign_wire
          (discriminator_code d, x)
  unfolding write_sign
  write_sign-wire d x v =
      let c = write_compact_instructions-Encodes x.compact_instructions v.few v.each in
      let whole : read_array 1 read_wire c.bytes ≡ some (x.compact_instructions, []) =
        rw (← append-nil c.bytes) (c.reads []) in
      let width : 9 + (total wire_size x.compact_instructions + length x.authority_payload)
          ≡ 2 + (2 + (4 + (length c.bytes + length x.authority_payload))) =
        omega (arith, c.width) in
      rw (c.written, write_fixed-length x.authority_payload, width)
        (EncodesAll-then _ (Encodes-discriminator d) (
          EncodesAll-then _
            (Encodes-uint 2 (length c.bytes)
              (omega (arith, c.width, v.instruction_payload_len_fits)))
            (EncodesAll-then _ (Encodes-uint 4 x.role_id v.role_id_fits) (
              EncodesAll-then _
                (Encodes-part c.bytes (length c.bytes) (read_array 1 read_wire) refl whole)
                (EncodesAll-rest x.authority_payload _)))))

  abbrev pub read_sub_account_sign_wire : Reader (ℕ × SignInstructionDataArgs)
  read_sub_account_sign_wire = kit.read_uint 2 >>= λ code. kit.read_uint 2 >>= λ n.
      kit.read_uint 4 >>= λ role_id. kit.read_fixed 8 >>= λ padding.
      read_part n (read_array 1 read_wire) >>= λ instructions. read_rest >>= λ payload. pure (
        code,
        record {
          role_id = role_id;
          compact_instructions = instructions;
          authority_payload = payload;
        },
      )

  -- Let the instruction of a sub-account carry fewer than 256 compact instructions, each with
  -- indices below 256, fewer than 256 accounts and fewer than 65536 bytes of data, fewer than
  -- 65536 bytes together, for a role below 2^32. The encoder writes them, and a reader of the
  -- format gets them back with the number of the instruction: the length in the header is exactly
  -- that of the compact instructions, eight bytes of padding follow the role, and all that is left
  -- is the payload.
  pub write_sub_account_sign-wire :
      (x : SignInstructionDataArgs)
      → IsSign x
      → EncodesAll
          (write_sub_account_sign x)
          (17 + (total wire_size x.compact_instructions + length x.authority_payload))
          read_sub_account_sign_wire
          (discriminator_code SwigInstructionDiscriminator.sub_account_sign_v1, x)
  unfolding write_sub_account_sign
  write_sub_account_sign-wire x v =
      let c = write_compact_instructions-Encodes x.compact_instructions v.few v.each in
      let whole : read_array 1 read_wire c.bytes ≡ some (x.compact_instructions, []) =
        rw (← append-nil c.bytes) (c.reads []) in
      let width : 17 + (total wire_size x.compact_instructions + length x.authority_payload)
          ≡ 2 + (2 + (4 + (8 + (length c.bytes + length x.authority_payload)))) =
        omega (arith, c.width) in
      rw (c.written, width)
        (EncodesAll-then _ (Encodes-discriminator SwigInstructionDiscriminator.sub_account_sign_v1)
          (EncodesAll-then _
            (Encodes-uint 2 (length c.bytes)
              (omega (arith, c.width, v.instruction_payload_len_fits)))
            (EncodesAll-then _ (Encodes-uint 4 x.role_id v.role_id_fits) (
              EncodesAll-then _ (Encodes-fixed 8 (zeros 8) refl) (
                EncodesAll-then _
                  (Encodes-part c.bytes (length c.bytes) (read_array 1 read_wire) refl whole)
                  (EncodesAll-rest x.authority_payload _))))))
