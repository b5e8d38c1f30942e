-- ===== src/Authority/Secp256r1/Signed.antt =====
-- What the signature of a Secp256r1 authority covers.
use swig_protocol_sdk.Common.{
  Option-cases, ◌⊎◌, inl, inr, ◌≡◌, refl, true, none, some, List, [], Bytes, arith,
}
use swig_protocol_sdk.Kit.{Kit}
use swig_protocol_sdk.Coder.Instructions.Authority.{
  write_add_authority_payload, write_remove_authority_payload, write_update_authority_payload,
}
use swig_protocol_sdk.Coder.Instructions.Session.{write_create_session_payload}
use swig_protocol_sdk.Coder.Instructions.SubAccount.{
  write_sub_account_create_payload, write_sub_account_withdraw_payload,
  write_sub_account_toggle_payload,
}
use swig_protocol_sdk.Coder.Instructions.Assets.{
  write_transfer_assets_payload, write_close_token_account_payload, write_close_swig_payload,
}
use swig_protocol_sdk.Coder.Instructions.Locks.{
  write_add_authorization_lock_payload, write_remove_authorization_lock_payload,
}
use swig_protocol_sdk.Instructions.Compact.{SolAccountMeta}
use swig_protocol_sdk.Instructions.SwigInstruction.{BuiltInstruction, SwigInstructionContext}
use swig_protocol_sdk.Authority.Interface.{
  SigningResult, InstructionDataOptions, AuthorityInstruction, compact,
}
use swig_protocol_sdk.Authority.Signing.{
  require_signing-fn, require_signing-refuses, Hashes, SigningOptions, require_signing,
  mark_fee_payer,
}
use swig_protocol_sdk.Authority.Signing.Covers.{header_width, is_remove_authority}
use swig_protocol_sdk.Authority.Secp256r1.Payload.{secp256r1_authority_payload_size}
use swig_protocol_sdk.Authority.Secp256r1.Authorities.{
  add_authority_v1_instruction, remove_authority_v1_instruction, update_authority_v1_instruction,
  create_session_v1_instruction,
}
use swig_protocol_sdk.Authority.Secp256r1.Sign.{
  sign_v1_instruction, sign_v2_instruction, sub_account_sign_v1_instruction,
}
use swig_protocol_sdk.Authority.Secp256r1.SubAccounts.{
  sub_account_create_v1_instruction, sub_account_toggle_v1_instruction,
  sub_account_withdraw_v1_sol_instruction, sub_account_withdraw_v1_token_instruction,
}
use swig_protocol_sdk.Authority.Secp256r1.Assets.{
  transfer_assets_v1_instruction, close_swig_v1_instruction, close_token_account_v1_instruction,
  add_authorization_lock_v1_instruction, remove_authorization_lock_v1_instruction,
}
use swig_protocol_sdk.Authority.Secp256r1.Methods.{secp256r1_instruction}
use swig_protocol_sdk.Authority.Secp256r1.Covered.{
  Signed, GivesSigned, GivesSigned-bind, signed_instruction-GivesSigned,
}

module _ ⦃kit : Kit⦄ (hashes : Hashes) where
  -- What a method takes from the options to put in front: their instructions, for the locks only.
  abbrev pub pre_of : InstructionDataOptions → AuthorityInstruction → List BuiltInstruction
  pre_of options (AuthorityInstruction.add_authorization_lock swig payer system asset mint x) =
      options.pre_instructions
  pre_of options (AuthorityInstruction.remove_authorization_lock swig payer system rent_claimer x) =
      options.pre_instructions
  pre_of options _ = []

  secp256r1_instruction-GivesSigned :
      (store : List SolAccountMeta) (public_key : Bytes) (options : InstructionDataOptions)
      (request : AuthorityInstruction)
      → (is_remove_authority request ≡ true
          → (signing : SigningOptions) → require_signing options ≡ some signing
          → (h : Bytes) → (signing.signing_fn h).signing_prefix ≡ [])
      → GivesSigned hashes options public_key
          (pre_of options request)
          (header_width request)
          (secp256r1_instruction hashes store public_key options request)
  unfolding secp256r1_instruction add_authority_v1_instruction remove_authority_v1_instruction
      update_authority_v1_instruction sign_v1_instruction sign_v2_instruction
      create_session_v1_instruction sub_account_create_v1_instruction
      sub_account_sign_v1_instruction sub_account_withdraw_v1_sol_instruction
      sub_account_withdraw_v1_token_instruction sub_account_toggle_v1_instruction
      transfer_assets_v1_instruction close_swig_v1_instruction close_token_account_v1_instruction
      add_authorization_lock_v1_instruction remove_authorization_lock_v1_instruction
      secp256r1_authority_payload_size write_add_authority_payload write_remove_authority_payload
      write_update_authority_payload write_create_session_payload write_sub_account_create_payload
      write_sub_account_withdraw_payload write_sub_account_toggle_payload
      write_transfer_assets_payload write_close_token_account_payload write_close_swig_payload
      write_add_authorization_lock_payload write_remove_authorization_lock_payload
  secp256r1_instruction-GivesSigned store public_key options
        (AuthorityInstruction.sign_v1 swig payer role_id inner) fits =
      GivesSigned-bind hashes (compact store swig _ inner _) _ (λ (metas, cs).
        signed_instruction-GivesSigned hashes public_key options _ _ _ _ _ _ _
          (λ p. (refl, refl, refl, refl)) fits)
  secp256r1_instruction-GivesSigned store public_key options
        (AuthorityInstruction.sub_account_sign swig sub role_id inner) fits =
      GivesSigned-bind hashes (compact store swig _ inner _) _ (λ (metas, cs).
        signed_instruction-GivesSigned hashes public_key options _ _ _ _ _ _ _
          (λ p. (refl, refl, refl, refl)) fits)
  secp256r1_instruction-GivesSigned store public_key options
        (AuthorityInstruction.sign_v2 swig system role_id inner) fits =
      GivesSigned-bind hashes (compact store swig _ inner _) _ (λ (combined, cs).
        GivesSigned-bind hashes (mark_fee_payer options.fee_payer combined) _ (λ metas.
          signed_instruction-GivesSigned hashes public_key options _ _ _ _ _ _ _
            (λ p. (refl, refl, refl, refl)) fits))
  secp256r1_instruction-GivesSigned store public_key options _ fits =
      signed_instruction-GivesSigned hashes public_key options _ _ _ _ _ _ _
        (λ p. (refl, refl, refl, refl)) fits

  -- Let a method of Secp256r1Instruction give an instruction; for removeAuthority, let the signing
  -- function give no prefix. For the two methods on locks, the preInstructions of the options come
  -- in front; every other method leaves them out. Last in front comes one instruction more: it has
  -- the precompile verify the signature that the signing function makes of the hash of the signed
  -- bytes, the accounts of the instruction, the slot and the odometer, by the authority's key; the
  -- message verified is that hash, or the one that the signing function returns. The data of the
  -- instruction are a header, those signed bytes, and the slot, the odometer, the index (modulo
  -- 256) of an account with the text of the sysvar of the instructions, four zeros and the prefix.
  -- The header is empty, but for the instructions that carry others, where it has 8 bytes, or 16
  -- for the one of a sub-account.
  pub secp256r1_instruction-Signed :
      (store : List SolAccountMeta) (public_key : Bytes) (options : InstructionDataOptions)
      (request : AuthorityInstruction)
      → (is_remove_authority request ≡ true
          → (f : Bytes → SigningResult) → options.signing_fn ≡ some f
          → (h : Bytes) → (f h).signing_prefix ≡ [])
      → (c : SwigInstructionContext)
      → secp256r1_instruction hashes store public_key options request ≡ some c
      → Signed hashes options public_key (pre_of options request) (header_width request) c
  secp256r1_instruction-Signed store public_key options request fits =
      (secp256r1_instruction-GivesSigned store public_key options request
        (λ h signing s. fits h signing.signing_fn (require_signing-fn options signing s))).gives

  -- Without a signing function, or without a slot, every method of Secp256r1Instruction fails.
  pub secp256r1_instruction-refuses :
      (store : List SolAccountMeta) (public_key : Bytes) (options : InstructionDataOptions)
      (request : AuthorityInstruction)
      → (options.signing_fn ≡ none) ⊎ (options.current_slot ≡ none)
      → secp256r1_instruction hashes store public_key options request ≡ none
  secp256r1_instruction-refuses store public_key options request missing =
      let refused = require_signing-refuses options missing in
      elim (Option-cases (secp256r1_instruction hashes store public_key options request)) [
        | inl e ↦ e
        | inr (c, e) ↦
            let signed =
              (secp256r1_instruction-GivesSigned store public_key options request
                  (λ h signing s. absurd (ground (arith, s, refused)))).gives
                c e in
            let s = signed.signing_is in absurd (ground (arith, s, refused))
      ]
