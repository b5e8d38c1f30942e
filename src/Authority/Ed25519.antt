-- ===== src/Authority/Ed25519.antt =====
-- lib/src/authority/instructions/ed25519.ts, `Ed25519Instruction`: an Ed25519 authority signs the
-- transaction, and the payload is the index of its account.
pub mod Authorised
use swig_protocol_sdk.Common.{
  ℕ, true, false, Option, none, some, List, [], ◌∷◌, ◌++◌, map, Bytes, length, ◌>>=◌,
}
use swig_protocol_sdk.Kit.{Kit}
use swig_protocol_sdk.Instructions.Keys.{sol_public_key}
use swig_protocol_sdk.Instructions.Compact.{SolAccountMeta}
use swig_protocol_sdk.Instructions.Metas.{
  AccountRole, from_kit_account_meta, add_authority_metas_with_authority,
  remove_authority_metas_with_authority, update_authority_metas_with_authority,
  sign_v1_metas_with_authority, sign_v2_metas_with_authority, create_session_metas_with_authority,
  sub_account_create_metas_with_authority, sub_account_sign_metas_with_authority,
  sub_account_toggle_metas_with_authority, transfer_assets_metas_with_authority,
  close_swig_metas_with_authority, close_token_account_metas_with_authority,
  sub_account_withdraw_sol_metas, sub_account_withdraw_token_metas, with_authority_context,
}
use swig_protocol_sdk.Instructions.Metas.Locks.{
  add_authorization_lock_metas_with_authority, remove_authorization_lock_metas_with_authority,
  get_authorization_lock_mint_bytes,
}
use swig_protocol_sdk.Instructions.SwigInstruction.{
  SwigInstructionArgs, SwigInstructionContext, build,
}
use swig_protocol_sdk.Authority.Interface.{InstructionDataOptions, AuthorityInstruction, compact}

-- `SolAccountMeta.from({ pubkey, isSigner: true, isWritable: false })`
unfoldable pub authority_meta : Bytes → SolAccountMeta
authority_meta authority = record { public_key = authority; writable = false; signer = true }

unfoldable pub token_account_meta : Bytes → SolAccountMeta
token_account_meta key = record { public_key = key; writable = true; signer = false }

module _ ⦃kit : Kit⦄ (store : List SolAccountMeta) where
  -- The methods, of the authority's key.
  unfoldable pub ed25519_method :
      Bytes → InstructionDataOptions → AuthorityInstruction → Option SwigInstructionContext
  unfolding authority_meta token_account_meta
  ed25519_method authority options (AuthorityInstruction.add_authority swig payer x) =
      let (metas, index) = add_authority_metas_with_authority swig payer authority in
      build metas (SwigInstructionArgs.add_authority (record x { authority_payload = index ∷ [] }))
        [] []
  ed25519_method authority options (AuthorityInstruction.remove_authority swig payer x) =
      let (metas, index) = remove_authority_metas_with_authority swig payer authority in
      build metas
        (SwigInstructionArgs.remove_authority (record x { authority_payload = index ∷ [] })) [] []
  ed25519_method authority options (AuthorityInstruction.update_authority swig payer x) =
      let (metas, index) = update_authority_metas_with_authority swig payer authority in
      build metas
        (SwigInstructionArgs.update_authority (record x { authority_payload = index ∷ [] })) [] []
  ed25519_method authority options (AuthorityInstruction.sign_v1 swig payer role_id inner) =
      let (own, index) = sign_v1_metas_with_authority swig payer authority in
      compact store swig own inner [] >>= λ (metas, compact_ixs).
      build metas
        (SwigInstructionArgs.sign_v1 (record {
          role_id = role_id;
          compact_instructions = compact_ixs;
          authority_payload = index ∷ [];
        }))
        [] []
  ed25519_method authority options (AuthorityInstruction.sign_v2 swig system role_id inner) =
      let (own, index) = sign_v2_metas_with_authority swig system authority in
      compact store swig own inner (system ∷ []) >>= λ (metas, compact_ixs).
      build metas
        (SwigInstructionArgs.sign_v2 (record {
          role_id = role_id;
          compact_instructions = compact_ixs;
          authority_payload = index ∷ [];
        }))
        [] []
  ed25519_method authority options (AuthorityInstruction.create_session swig payer x) =
      let (metas, index) = create_session_metas_with_authority swig payer authority in
      build metas (SwigInstructionArgs.create_session (record x { authority_payload = index ∷ [] }))
        [] []
  ed25519_method authority options (AuthorityInstruction.sub_account_create swig payer sub x) =
      let (metas, index) = sub_account_create_metas_with_authority swig payer sub authority in
      build metas
        (SwigInstructionArgs.sub_account_create (record x { authority_payload = index ∷ [] })) [] []
  ed25519_method authority options (AuthorityInstruction.sub_account_sign swig sub role_id inner) =
      let (own, index) = sub_account_sign_metas_with_authority swig sub authority in
      compact store swig own inner (sub ∷ []) >>= λ (metas, compact_ixs).
      build metas
        (SwigInstructionArgs.sub_account_sign (record {
          role_id = role_id;
          compact_instructions = compact_ixs;
          authority_payload = index ∷ [];
        }))
        [] []
  ed25519_method authority options
        (AuthorityInstruction.sub_account_withdraw_sol swig payer sub system x) =
      let (metas, index) =
        with_authority_context (sub_account_withdraw_sol_metas swig payer sub system)
          (some (authority_meta authority)) in
      build metas
        (SwigInstructionArgs.sub_account_withdraw (record x { authority_payload = index ∷ [] })) []
        []
  ed25519_method authority options
        (AuthorityInstruction.sub_account_withdraw_token swig payer sub system sub_token swig_token
          program x) =
      let (metas, index) =
        with_authority_context
          (sub_account_withdraw_token_metas swig payer sub system sub_token swig_token program)
          (some (authority_meta authority)) in
      build metas
        (SwigInstructionArgs.sub_account_withdraw (record x { authority_payload = index ∷ [] })) []
        []
  ed25519_method authority options (AuthorityInstruction.sub_account_toggle swig payer sub x) =
      let (metas, index) = sub_account_toggle_metas_with_authority swig payer sub authority in
      build metas
        (SwigInstructionArgs.sub_account_toggle (record x { authority_payload = index ∷ [] })) [] []
  ed25519_method authority options (AuthorityInstruction.transfer_assets swig payer system x) =
      let (metas, index) = transfer_assets_metas_with_authority swig payer system authority in
      build metas
        (SwigInstructionArgs.transfer_assets (record x { authority_payload = index ∷ [] })) [] []
  ed25519_method authority options (AuthorityInstruction.close_swig swig system destination x) =
      let (metas, index) = close_swig_metas_with_authority swig system destination authority in
      build metas (SwigInstructionArgs.close_swig (record x { authority_payload = index ∷ [] })) []
        []
  -- The offset of the token accounts is the number of the accounts in front of them.
  ed25519_method authority options
        (AuthorityInstruction.close_token_account swig system destination program token_accounts
          x) =
      let (base, index) =
        close_token_account_metas_with_authority swig system destination program authority in
      build (base ++ map token_account_meta token_accounts)
        (SwigInstructionArgs.close_token_account
          (record x { token_account_offset = length base; authority_payload = index ∷ [] }))
        [] []
  ed25519_method authority options
        (AuthorityInstruction.add_authorization_lock swig payer system asset mint x) =
      let (metas, index) =
        add_authorization_lock_metas_with_authority swig payer system asset mint authority in
      build metas
        (SwigInstructionArgs.add_authorization_lock (record {
          acting_role_id = x.acting_role_id;
          asset_account = asset;
          mint = get_authorization_lock_mint_bytes mint;
          amount = x.amount;
          expiry_slot = x.expiry_slot;
          authority_payload = index ∷ [];
        }))
        options.pre_instructions options.post_instructions
  ed25519_method authority options
        (AuthorityInstruction.remove_authorization_lock swig payer system rent_claimer x) =
      let (metas, index) =
        remove_authorization_lock_metas_with_authority swig payer system rent_claimer authority in
      build metas
        (SwigInstructionArgs.remove_authorization_lock (record {
          acting_role_id = x.acting_role_id;
          lock_id = x.lock_id;
          authority_payload = index ∷ [];
        }))
        options.pre_instructions options.post_instructions

  -- `Ed25519Instruction`, of the authority's data: data that are no key are refused.
  unfoldable pub ed25519_instruction :
      Bytes → InstructionDataOptions → AuthorityInstruction → Option SwigInstructionContext
  unfolding ed25519_method
  ed25519_instruction authority_data options request = do
    authority ← sol_public_key authority_data
    ed25519_method authority options request
