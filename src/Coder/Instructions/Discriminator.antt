-- ===== src/Coder/Instructions/Discriminator.antt =====
-- coder/src/instructions/SwigInstruction.ts: the number in the first two bytes of an instruction.
pub mod Identify
use swig_protocol_sdk.Common.{
  ℕ, ◌+◌, ◌<◌, ◌^◌, ◌≡◌, refl, Bool, Option, none, some, List, [], ◌∷◌, Bytes, length, slice,
  bytes_equal, if◌then◌else◌, ◌>>=◌, arith,
}
use swig_protocol_sdk.Kit.{Kit, Encodes}
use swig_protocol_sdk.Kit.Laws.{Encodes-uint}

pub data SwigInstructionDiscriminator : Type 0 where
  create_v1 : SwigInstructionDiscriminator
  add_authority_v1 : SwigInstructionDiscriminator
  remove_authority_v1 : SwigInstructionDiscriminator
  update_authority_v1 : SwigInstructionDiscriminator
  sign_v1 : SwigInstructionDiscriminator
  create_session_v1 : SwigInstructionDiscriminator
  sub_account_create_v1 : SwigInstructionDiscriminator
  sub_account_withdraw_v1 : SwigInstructionDiscriminator
  sub_account_sign_v1 : SwigInstructionDiscriminator
  sub_account_toggle_v1 : SwigInstructionDiscriminator
  sign_v2 : SwigInstructionDiscriminator
  migrate_to_wallet_address_v1 : SwigInstructionDiscriminator
  transfer_assets_v1 : SwigInstructionDiscriminator
  close_token_account_v1 : SwigInstructionDiscriminator
  close_swig_v1 : SwigInstructionDiscriminator
  create_reserved_v1 : SwigInstructionDiscriminator
  add_authorization_lock_v1 : SwigInstructionDiscriminator
  remove_authorization_lock_v1 : SwigInstructionDiscriminator

unfoldable pub discriminator_code : SwigInstructionDiscriminator → ℕ
discriminator_code create_v1 = 0
discriminator_code add_authority_v1 = 1
discriminator_code remove_authority_v1 = 2
discriminator_code update_authority_v1 = 3
discriminator_code sign_v1 = 4
discriminator_code create_session_v1 = 5
discriminator_code sub_account_create_v1 = 6
discriminator_code sub_account_withdraw_v1 = 7
discriminator_code sub_account_sign_v1 = 9
discriminator_code sub_account_toggle_v1 = 10
discriminator_code sign_v2 = 11
discriminator_code migrate_to_wallet_address_v1 = 12
discriminator_code transfer_assets_v1 = 13
discriminator_code close_token_account_v1 = 14
discriminator_code close_swig_v1 = 15
discriminator_code create_reserved_v1 = 24
discriminator_code add_authorization_lock_v1 = 25
discriminator_code remove_authorization_lock_v1 = 26

pub discriminator_code-lt : (d : SwigInstructionDiscriminator) → discriminator_code d < 27
unfolding discriminator_code
discriminator_code-lt create_v1 = omega arith
discriminator_code-lt _ = omega arith

-- `containsBytes` of @solana/kit.
abbrev pub contains_bytes : Bytes → Bytes → ℕ → Bool
contains_bytes bs part offset = bytes_equal (slice bs offset (offset + length part)) part

-- The tests of `identifySwigInstruction`, in their order.
abbrev pub identify_order : List SwigInstructionDiscriminator
identify_order =
    create_v1 ∷ add_authority_v1 ∷ remove_authority_v1 ∷ update_authority_v1 ∷ sign_v1
    ∷ create_session_v1 ∷ sub_account_create_v1 ∷ sub_account_withdraw_v1 ∷ sub_account_sign_v1
    ∷ sub_account_toggle_v1 ∷ sign_v2 ∷ migrate_to_wallet_address_v1 ∷ transfer_assets_v1
    ∷ close_token_account_v1 ∷ close_swig_v1 ∷ create_reserved_v1 ∷ add_authorization_lock_v1
    ∷ remove_authorization_lock_v1 ∷ []

module _ ⦃kit : Kit⦄ where
  -- `getSwigInstructionDiscriminatorEncoder().encode`
  unfoldable pub write_discriminator : SwigInstructionDiscriminator → Option Bytes
  unfolding discriminator_code
  write_discriminator d = kit.write_uint 2 (discriminator_code d)

  unfoldable pub identify_among :
      List SwigInstructionDiscriminator → Bytes → Option SwigInstructionDiscriminator
  unfolding write_discriminator
  identify_among [] bs = none
  identify_among (d ∷ ds) bs = do
    part ← write_discriminator d
    let later = identify_among ds bs
    if contains_bytes bs part 0 then some d else later

  unfoldable pub identify_swig_instruction : Bytes → Option SwigInstructionDiscriminator
  unfolding identify_among
  identify_swig_instruction bs = identify_among identify_order bs

  pub Encodes-discriminator :
      (d : SwigInstructionDiscriminator)
      → Encodes (write_discriminator d) 2 (kit.read_uint 2) (discriminator_code d)
  unfolding write_discriminator
  Encodes-discriminator d =
      Encodes-uint 2 (discriminator_code d) (omega (arith, discriminator_code-lt d))
