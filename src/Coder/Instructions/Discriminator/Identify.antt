-- ===== src/Coder/Instructions/Discriminator/Identify.antt =====
-- The first two bytes tell which instruction it is: what identifySwigInstruction finds.
use swig_protocol_sdk.Common.{
  ℕ, ◌+◌, ◌≡◌, refl, sym, ap, ◌∙◌, inl, inr, true, Option, some, List, [], ◌∷◌, ◌++◌, Bytes, length,
  slice, slice-middle, bytes_equal_iff, any, find, ◌==◌, ==_iff, Bool-cases, arith,
}
use swig_protocol_sdk.Kit.{Kit}
use swig_protocol_sdk.Coder.Instructions.Discriminator.{
  SwigInstructionDiscriminator, discriminator_code, identify_order, contains_bytes,
  write_discriminator, identify_among, identify_swig_instruction, Encodes-discriminator,
}

abbrev of_code : ℕ → Option SwigInstructionDiscriminator
of_code n = find (λ d. discriminator_code d == n) identify_order

of_code-code : (d : SwigInstructionDiscriminator) → of_code (discriminator_code d) ≡ some d
unfolding discriminator_code
of_code-code SwigInstructionDiscriminator.create_v1 = refl
of_code-code SwigInstructionDiscriminator.add_authority_v1 = refl
of_code-code SwigInstructionDiscriminator.remove_authority_v1 = refl
of_code-code SwigInstructionDiscriminator.update_authority_v1 = refl
of_code-code SwigInstructionDiscriminator.sign_v1 = refl
of_code-code SwigInstructionDiscriminator.create_session_v1 = refl
of_code-code SwigInstructionDiscriminator.sub_account_create_v1 = refl
of_code-code SwigInstructionDiscriminator.sub_account_withdraw_v1 = refl
of_code-code SwigInstructionDiscriminator.sub_account_sign_v1 = refl
of_code-code SwigInstructionDiscriminator.sub_account_toggle_v1 = refl
of_code-code SwigInstructionDiscriminator.sign_v2 = refl
of_code-code SwigInstructionDiscriminator.migrate_to_wallet_address_v1 = refl
of_code-code SwigInstructionDiscriminator.transfer_assets_v1 = refl
of_code-code SwigInstructionDiscriminator.close_token_account_v1 = refl
of_code-code SwigInstructionDiscriminator.close_swig_v1 = refl
of_code-code SwigInstructionDiscriminator.create_reserved_v1 = refl
of_code-code SwigInstructionDiscriminator.add_authorization_lock_v1 = refl
of_code-code SwigInstructionDiscriminator.remove_authorization_lock_v1 = refl

any-order :
    (d : SwigInstructionDiscriminator)
    → any (λ e. discriminator_code e == discriminator_code d) identify_order ≡ true
unfolding discriminator_code
any-order SwigInstructionDiscriminator.create_v1 = refl
any-order SwigInstructionDiscriminator.add_authority_v1 = refl
any-order SwigInstructionDiscriminator.remove_authority_v1 = refl
any-order SwigInstructionDiscriminator.update_authority_v1 = refl
any-order SwigInstructionDiscriminator.sign_v1 = refl
any-order SwigInstructionDiscriminator.create_session_v1 = refl
any-order SwigInstructionDiscriminator.sub_account_create_v1 = refl
any-order SwigInstructionDiscriminator.sub_account_withdraw_v1 = refl
any-order SwigInstructionDiscriminator.sub_account_sign_v1 = refl
any-order SwigInstructionDiscriminator.sub_account_toggle_v1 = refl
any-order SwigInstructionDiscriminator.sign_v2 = refl
any-order SwigInstructionDiscriminator.migrate_to_wallet_address_v1 = refl
any-order SwigInstructionDiscriminator.transfer_assets_v1 = refl
any-order SwigInstructionDiscriminator.close_token_account_v1 = refl
any-order SwigInstructionDiscriminator.close_swig_v1 = refl
any-order SwigInstructionDiscriminator.create_reserved_v1 = refl
any-order SwigInstructionDiscriminator.add_authorization_lock_v1 = refl
any-order SwigInstructionDiscriminator.remove_authorization_lock_v1 = refl

code_injective :
    (d e : SwigInstructionDiscriminator) → discriminator_code d ≡ discriminator_code e → d ≡ e
code_injective d e h = cc (of_code-code d, of_code-code e, ap of_code h)

module _ ⦃kit : Kit⦄ where
  contains_self : (p rest : Bytes) → length p ≡ 2 → contains_bytes (p ++ rest) p 0 ≡ true
  contains_self p rest h =
      let e : slice (p ++ rest) 0 (0 + length p) ≡ p =
        slice-middle [] p rest 0 (0 + length p) refl refl in
      rw e ((bytes_equal_iff p p).1 refl)

  contains-other :
      (d e : SwigInstructionDiscriminator) (p q rest : Bytes)
      → write_discriminator d ≡ some p
      → write_discriminator e ≡ some q
      → contains_bytes (p ++ rest) q 0 ≡ true
      → discriminator_code e ≡ discriminator_code d
  contains-other d e p q rest hp hq c =
      let ep = Encodes-discriminator d in
      let eq = Encodes-discriminator e in
      let kp : ep.bytes ≡ p = cc in
      let kq : eq.bytes ≡ q = cc in
      let w : length q ≡ length p = omega (arith, ap length kp, ap length kq, ep.width, eq.width) in
      let s : slice (p ++ rest) 0 (0 + length q) ≡ p =
        slice-middle [] p rest 0 (0 + length q) refl (omega arith) in
      let same : p ≡ q = sym s ∙ (bytes_equal_iff _ q).0 c in
      let rp = ep.reads [] in let rq = eq.reads [] in cc

  identify_among-prefix :
      (d : SwigInstructionDiscriminator) (p rest : Bytes) (ds : List SwigInstructionDiscriminator)
      → write_discriminator d ≡ some p
      → any (λ e. discriminator_code e == discriminator_code d) ds ≡ true
      → identify_among ds (p ++ rest) ≡ some d
  unfolding identify_among
  identify_among-prefix d p rest [] hp h = cc
  identify_among-prefix d p rest (e ∷ ds) hp h =
      let q = Encodes-discriminator e in
      elim (Bool-cases (discriminator_code e == discriminator_code d)) [
        | inl same ↦
            let k : e ≡ d = code_injective e d ((==_iff _ _).0 same) in
            let w = Encodes-discriminator d in
            let kp : w.bytes ≡ p = cc in
            let l : length p ≡ 2 = omega (arith, ap length kp, w.width) in
            rw (k, hp, contains_self p rest l)
        | inr other ↦ elim (Bool-cases (contains_bytes (p ++ rest) q.bytes 0)) [
          | inl c ↦ absurd (cc ((==_iff _ _).1 (contains-other d e p q.bytes rest hp q.written c)))
          | inr c ↦ rw (q.written, c) (identify_among-prefix d p rest ds hp (rw other at h))
        ]
      ]

  -- Data that start with the encoded number of an instruction are identified as that instruction,
  -- whatever follows.
  pub identify-prefix :
      (d : SwigInstructionDiscriminator) (p rest : Bytes)
      → write_discriminator d ≡ some p
      → identify_swig_instruction (p ++ rest) ≡ some d
  unfolding identify_swig_instruction
  identify-prefix d p rest h = identify_among-prefix d p rest identify_order h (any-order d)
