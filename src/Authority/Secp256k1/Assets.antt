-- ===== src/Authority/Secp256k1/Assets.antt =====
-- lib/src/authority/instructions/secp256k1.ts: the methods on the assets of a wallet and their locks.
use swig_protocol_sdk.Common.{Option, List, [], ◌++◌, map, Bytes, length}
use swig_protocol_sdk.Kit.{Kit}
use swig_protocol_sdk.Coder.Instructions.Assets.{
  TransferAssetsInstructionDataArgs, CloseTokenAccountInstructionDataArgs,
  CloseSwigInstructionDataArgs, write_transfer_assets_payload, write_close_token_account_payload,
  write_close_swig_payload,
}
use swig_protocol_sdk.Coder.Instructions.Locks.{
  AddAuthorizationLockInstructionDataArgs, RemoveAuthorizationLockInstructionDataArgs,
  write_add_authorization_lock_payload, write_remove_authorization_lock_payload,
}
use swig_protocol_sdk.Instructions.Metas.{
  transfer_assets_metas, close_swig_metas, close_token_account_metas,
}
use swig_protocol_sdk.Instructions.Metas.Locks.{
  add_authorization_lock_metas, remove_authorization_lock_metas, get_authorization_lock_mint_bytes,
}
use swig_protocol_sdk.Instructions.SwigInstruction.{SwigInstructionArgs, SwigInstructionContext}
use swig_protocol_sdk.Authority.Interface.{InstructionDataOptions, AddLockData, RemoveLockData}
use swig_protocol_sdk.Authority.Signing.{Hashes}
use swig_protocol_sdk.Authority.Ed25519.{token_account_meta}
use swig_protocol_sdk.Authority.Secp256k1.Payload.{signed_instruction}

module _ ⦃kit : Kit⦄ (hashes : Hashes) where
  unfoldable pub transfer_assets_v1_instruction :
      Bytes
      → Bytes
      → Bytes
      → TransferAssetsInstructionDataArgs
      → InstructionDataOptions
      → Option SwigInstructionContext
  unfolding transfer_assets_metas write_transfer_assets_payload
  transfer_assets_v1_instruction swig payer system x options =
      signed_instruction hashes options (transfer_assets_metas swig payer system)
        (write_transfer_assets_payload x)
        (λ payload. SwigInstructionArgs.transfer_assets (record x { authority_payload = payload }))
        [] []

  unfoldable pub close_swig_v1_instruction :
      Bytes
      → Bytes
      → Bytes
      → CloseSwigInstructionDataArgs
      → InstructionDataOptions
      → Option SwigInstructionContext
  unfolding close_swig_metas write_close_swig_payload
  close_swig_v1_instruction swig system destination x options =
      signed_instruction hashes options (close_swig_metas swig system destination)
        (write_close_swig_payload x)
        (λ payload. SwigInstructionArgs.close_swig (record x { authority_payload = payload })) [] []

  unfoldable pub close_token_account_v1_instruction :
      Bytes
      → Bytes
      → Bytes
      → Bytes
      → List Bytes
      → CloseTokenAccountInstructionDataArgs
      → InstructionDataOptions
      → Option SwigInstructionContext
  unfolding close_token_account_metas write_close_token_account_payload token_account_meta
  close_token_account_v1_instruction swig system destination program token_accounts fields options =
      let base = close_token_account_metas swig system destination program in
      let x = record fields { token_account_offset = length base } in
      signed_instruction hashes options (base ++ map token_account_meta token_accounts)
        (write_close_token_account_payload x)
        (λ payload.
          SwigInstructionArgs.close_token_account (record x { authority_payload = payload }))
        [] []

  unfoldable pub add_authorization_lock_v1_instruction :
      Bytes
      → Bytes
      → Bytes
      → Bytes
      → Option Bytes
      → AddLockData
      → InstructionDataOptions
      → Option SwigInstructionContext
  unfolding add_authorization_lock_metas write_add_authorization_lock_payload
      get_authorization_lock_mint_bytes
  add_authorization_lock_v1_instruction swig payer system asset mint fields options =
      let lock_data : Bytes → AddAuthorizationLockInstructionDataArgs = λ payload. record {
        acting_role_id = fields.acting_role_id;
        asset_account = asset;
        mint = get_authorization_lock_mint_bytes mint;
        amount = fields.amount;
        expiry_slot = fields.expiry_slot;
        authority_payload = payload;
      } in
      signed_instruction hashes options (add_authorization_lock_metas swig payer system asset mint)
        (write_add_authorization_lock_payload (lock_data []))
        (λ payload. SwigInstructionArgs.add_authorization_lock (lock_data payload))
        options.pre_instructions options.post_instructions

  unfoldable pub remove_authorization_lock_v1_instruction :
      Bytes
      → Bytes
      → Bytes
      → Option Bytes
      → RemoveLockData
      → InstructionDataOptions
      → Option SwigInstructionContext
  unfolding remove_authorization_lock_metas write_remove_authorization_lock_payload
  remove_authorization_lock_v1_instruction swig payer system rent_claimer fields options =
      let lock_data : Bytes → RemoveAuthorizationLockInstructionDataArgs = λ payload. record {
        acting_role_id = fields.acting_role_id;
        lock_id = fields.lock_id;
        authority_payload = payload;
      } in
      signed_instruction hashes options
        (remove_authorization_lock_metas swig payer system rent_claimer)
        (write_remove_authorization_lock_payload (lock_data []))
        (λ payload. SwigInstructionArgs.remove_authorization_lock (lock_data payload))
        options.pre_instructions options.post_instructions
