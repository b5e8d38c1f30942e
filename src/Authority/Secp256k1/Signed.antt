-- ===== src/Authority/Secp256k1/Signed.antt =====
-- What the signature of a Secp256k1 authority covers.
use swig_protocol_sdk.Common.{
  Option-cases, ◌⊎◌, inl, inr, ◌+◌, ◌≡◌, refl, true, none, some, List, Bytes, length, arith,
}
use swig_protocol_sdk.Kit.{Kit}
use swig_protocol_sdk.Coder.Instructions.Authority.{
  write_add_authority_payload, write_remove_authority_payload, write_update_authority_payload,
}
use swig_protocol_sdk.Coder.Instructions.Session.{write_create_session_payload}
use swig_protocol_sdk.Coder.Instructions.SubAccount.{
  write_sub_account_create_payload, write_sub_account_withdraw_payload,
  write_sub_account_toggle_payload,
}
use swig_protocol_sdk.Coder.Instructions.Assets.{
  write_transfer_assets_payload, write_close_token_account_payload, write_close_swig_payload,
}
use swig_protocol_sdk.Coder.Instructions.Locks.{
  write_add_authorization_lock_payload, write_remove_authorization_lock_payload,
}
use swig_protocol_sdk.Instructions.Compact.{SolAccountMeta}
use swig_protocol_sdk.Instructions.SwigInstruction.{SwigInstructionContext}
use swig_protocol_sdk.Authority.Interface.{
  SigningResult, InstructionDataOptions, AuthorityInstruction, compact,
}
use swig_protocol_sdk.Authority.Signing.{
  require_signing-fn, require_signing-refuses, Hashes, SigningOptions, require_signing,
  mark_fee_payer,
}
use swig_protocol_sdk.Authority.Signing.Covers.{header_width, is_remove_authority}
use swig_protocol_sdk.Authority.Secp256k1.Payload.{secp_authority_payload_size}
use swig_protocol_sdk.Authority.Secp256k1.Authorities.{
  add_authority_v1_instruction, remove_authority_v1_instruction, update_authority_v1_instruction,
  create_session_v1_instruction,
}
use swig_protocol_sdk.Authority.Secp256k1.Sign.{
  sign_v1_instruction, sign_v2_instruction, sub_account_sign_v1_instruction,
}
use swig_protocol_sdk.Authority.Secp256k1.SubAccounts.{
  sub_account_create_v1_instruction, sub_account_toggle_v1_instruction,
  sub_account_withdraw_v1_sol_instruction, sub_account_withdraw_v1_token_instruction,
}
use swig_protocol_sdk.Authority.Secp256k1.Assets.{
  transfer_assets_v1_instruction, close_swig_v1_instruction, close_token_account_v1_instruction,
  add_authorization_lock_v1_instruction, remove_authorization_lock_v1_instruction,
}
use swig_protocol_sdk.Authority.Secp256k1.Methods.{secp256k1_instruction}
use swig_protocol_sdk.Authority.Secp256k1.Covered.{
  Signed, GivesSigned, GivesSigned-bind, signed_instruction-GivesSigned,
}

module _ ⦃kit : Kit⦄ (hashes : Hashes) where
  secp256k1_instruction-GivesSigned :
      (store : List SolAccountMeta) (options : InstructionDataOptions)
      (request : AuthorityInstruction)
      → (is_remove_authority request ≡ true
          → (signing : SigningOptions) → require_signing options ≡ some signing
          → (h : Bytes)
          → length (signing.signing_fn h).signature + length (signing.signing_fn h).signing_prefix
            ≡ 65)
      → GivesSigned hashes options
          (header_width request)
          (secp256k1_instruction hashes store options request)
  unfolding secp256k1_instruction add_authority_v1_instruction remove_authority_v1_instruction
      update_authority_v1_instruction sign_v1_instruction sign_v2_instruction
      create_session_v1_instruction sub_account_create_v1_instruction
      sub_account_sign_v1_instruction sub_account_withdraw_v1_sol_instruction
      sub_account_withdraw_v1_token_instruction sub_account_toggle_v1_instruction
      transfer_assets_v1_instruction close_swig_v1_instruction close_token_account_v1_instruction
      add_authorization_lock_v1_instruction remove_authorization_lock_v1_instruction
      secp_authority_payload_size write_add_authority_payload write_remove_authority_payload
      write_update_authority_payload write_create_session_payload write_sub_account_create_payload
      write_sub_account_withdraw_payload write_sub_account_toggle_payload
      write_transfer_assets_payload write_close_token_account_payload write_close_swig_payload
      write_add_authorization_lock_payload write_remove_authorization_lock_payload
  secp256k1_instruction-GivesSigned store options
        (AuthorityInstruction.sign_v1 swig payer role_id inner) fits =
      GivesSigned-bind hashes (compact store swig _ inner _) _ (λ (metas, cs).
        signed_instruction-GivesSigned hashes options _ _ _ _ _ _ _ (λ p. (refl, refl, refl, refl))
          fits)
  secp256k1_instruction-GivesSigned store options
        (AuthorityInstruction.sub_account_sign swig sub role_id inner) fits =
      GivesSigned-bind hashes (compact store swig _ inner _) _ (λ (metas, cs).
        signed_instruction-GivesSigned hashes options _ _ _ _ _ _ _ (λ p. (refl, refl, refl, refl))
          fits)
  secp256k1_instruction-GivesSigned store options
        (AuthorityInstruction.sign_v2 swig system role_id inner) fits =
      GivesSigned-bind hashes (compact store swig _ inner _) _ (λ (combined, cs).
        GivesSigned-bind hashes (mark_fee_payer options.fee_payer combined) _ (λ metas.
          signed_instruction-GivesSigned hashes options _ _ _ _ _ _ _
            (λ p. (refl, refl, refl, refl)) fits))
  secp256k1_instruction-GivesSigned store options _ fits =
      signed_instruction-GivesSigned hashes options _ _ _ _ _ _ _ (λ p. (refl, refl, refl, refl))
        fits

  -- Let a method of Secp256k1Instruction give an instruction; for removeAuthority, let signature
  -- and prefix have 65 bytes together. The data of the instruction are a header, the signed bytes
  -- and the payload. The header is empty, but for the instructions that carry others, where it has
  -- 8 bytes, or 16 for the one of a sub-account. The payload is the slot, the odometer, the
  -- signature and the prefix, and the signature is what the signing function makes of the hash of
  -- those signed bytes, the accounts of this very instruction, the slot and the odometer.
  pub secp256k1_instruction-Signed :
      (store : List SolAccountMeta) (options : InstructionDataOptions)
      (request : AuthorityInstruction)
      → (is_remove_authority request ≡ true
          → (f : Bytes → SigningResult) → options.signing_fn ≡ some f
          → (h : Bytes) → length (f h).signature + length (f h).signing_prefix ≡ 65)
      → (c : SwigInstructionContext) → secp256k1_instruction hashes store options request ≡ some c
      → Signed hashes options (header_width request) c.swig_instruction
  secp256k1_instruction-Signed store options request fits =
      (secp256k1_instruction-GivesSigned store options request
        (λ h signing s. fits h signing.signing_fn (require_signing-fn options signing s))).gives

  -- Without a signing function, or without a slot, every method of Secp256k1Instruction fails.
  pub secp256k1_instruction-refuses :
      (store : List SolAccountMeta) (options : InstructionDataOptions)
      (request : AuthorityInstruction)
      → (options.signing_fn ≡ none) ⊎ (options.current_slot ≡ none)
      → secp256k1_instruction hashes store options request ≡ none
  secp256k1_instruction-refuses store options request missing =
      let refused = require_signing-refuses options missing in
      elim (Option-cases (secp256k1_instruction hashes store options request)) [
        | inl e ↦ e
        | inr (c, e) ↦
            let signed =
              (secp256k1_instruction-GivesSigned store options request
                  (λ h signing s. absurd (ground (arith, s, refused)))).gives
                c e in
            let s = signed.signing_is in absurd (ground (arith, s, refused))
      ]
