-- ===== src/Authority/ProgramExec/Assets.antt =====
-- lib/src/authority/instructions/programexec.ts: the methods on the assets of a wallet and their locks.
use swig_protocol_sdk.Common.{◌+◌, Option, List, [], map, Bytes, length}
use swig_protocol_sdk.Kit.{Kit}
use swig_protocol_sdk.Coder.Instructions.Assets.{
  TransferAssetsInstructionDataArgs, CloseTokenAccountInstructionDataArgs,
  CloseSwigInstructionDataArgs,
}
use swig_protocol_sdk.Instructions.Metas.{
  transfer_assets_metas, close_swig_metas, close_token_account_metas,
}
use swig_protocol_sdk.Instructions.Metas.Locks.{
  add_authorization_lock_metas, remove_authorization_lock_metas, get_authorization_lock_mint_bytes,
}
use swig_protocol_sdk.Instructions.SwigInstruction.{SwigInstructionArgs, SwigInstructionContext}
use swig_protocol_sdk.Authority.Interface.{InstructionDataOptions, AddLockData, RemoveLockData}
use swig_protocol_sdk.Authority.Ed25519.{token_account_meta}
use swig_protocol_sdk.Authority.ProgramExec.Preceding.{program_instruction}

module _ ⦃kit : Kit⦄ where
  unfoldable pub transfer_assets_v1_instruction :
      Bytes
      → Bytes
      → Bytes
      → Bytes
      → TransferAssetsInstructionDataArgs
      → InstructionDataOptions
      → Option SwigInstructionContext
  unfolding transfer_assets_metas
  transfer_assets_v1_instruction authority_data swig payer system x options =
      program_instruction authority_data swig payer options
        (transfer_assets_metas swig payer system) []
        (λ payload. SwigInstructionArgs.transfer_assets (record x { authority_payload = payload }))

  unfoldable pub close_swig_v1_instruction :
      Bytes
      → Bytes
      → Bytes
      → Bytes
      → CloseSwigInstructionDataArgs
      → InstructionDataOptions
      → Option SwigInstructionContext
  unfolding close_swig_metas
  close_swig_v1_instruction authority_data swig system destination x options =
      program_instruction authority_data swig destination options
        (close_swig_metas swig system destination) []
        (λ payload. SwigInstructionArgs.close_swig (record x { authority_payload = payload }))

  unfoldable pub close_token_account_v1_instruction :
      Bytes
      → Bytes
      → Bytes
      → Bytes
      → Bytes
      → List Bytes
      → CloseTokenAccountInstructionDataArgs
      → InstructionDataOptions
      → Option SwigInstructionContext
  unfolding close_token_account_metas token_account_meta
  close_token_account_v1_instruction authority_data swig system destination program token_accounts x
        options =
      let base_metas = close_token_account_metas swig system destination program in
      program_instruction authority_data swig destination options base_metas
        (map token_account_meta token_accounts)
        (λ payload.
          SwigInstructionArgs.close_token_account (record x {
            token_account_offset = length base_metas + 1;
            authority_payload = payload;
          }))

  unfoldable pub add_authorization_lock_v1_instruction :
      Bytes
      → Bytes
      → Bytes
      → Bytes
      → Bytes
      → Option Bytes
      → AddLockData
      → InstructionDataOptions
      → Option SwigInstructionContext
  unfolding add_authorization_lock_metas get_authorization_lock_mint_bytes
  add_authorization_lock_v1_instruction authority_data swig payer system asset mint x options =
      program_instruction authority_data swig system options
        (add_authorization_lock_metas swig payer system asset mint) []
        (λ payload. SwigInstructionArgs.add_authorization_lock (record {
          acting_role_id = x.acting_role_id;
          asset_account = asset;
          mint = get_authorization_lock_mint_bytes mint;
          amount = x.amount;
          expiry_slot = x.expiry_slot;
          authority_payload = payload;
        }))

  unfoldable pub remove_authorization_lock_v1_instruction :
      Bytes
      → Bytes
      → Bytes
      → Bytes
      → Option Bytes
      → RemoveLockData
      → InstructionDataOptions
      → Option SwigInstructionContext
  unfolding remove_authorization_lock_metas
  remove_authorization_lock_v1_instruction authority_data swig payer system rent_claimer x options =
      program_instruction authority_data swig system options
        (remove_authorization_lock_metas swig payer system rent_claimer) []
        (λ payload. SwigInstructionArgs.remove_authorization_lock (record {
          acting_role_id = x.acting_role_id;
          lock_id = x.lock_id;
          authority_payload = payload;
        }))
