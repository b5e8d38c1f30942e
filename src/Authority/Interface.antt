-- ===== src/Authority/Interface.antt =====
-- lib/src/authority/instructions/interface.ts: the methods that each kind of authority implements, as
-- one data type with a constructor per method, which holds the accounts and the data of the call. The
-- field `authority_payload` of the data is not part of the call, and every implementation sets it.
pub mod Compacted
use swig_protocol_sdk.Common.{
  ℕ, ◌+◌, zero, suc, Option, none, some, List, [], ◌∷◌, ◌++◌, Bytes, length, get_elem?, ◌>>=◌,
}
use swig_protocol_sdk.Kit.{Kit}
use swig_protocol_sdk.Coder.CompactInstructions.{CompactInstruction}
use swig_protocol_sdk.Coder.Instructions.Authority.{
  AddAuthorityInstructionDataArgs, RemoveAuthorityInstructionDataArgs,
  UpdateAuthorityInstructionDataArgs,
}
use swig_protocol_sdk.Coder.Instructions.Session.{CreateSessionInstructionDataArgs}
use swig_protocol_sdk.Coder.Instructions.SubAccount.{
  SubAccountCreateInstructionDataArgs, SubAccountWithdrawInstructionDataArgs,
  SubAccountToggleInstructionDataArgs,
}
use swig_protocol_sdk.Coder.Instructions.Assets.{
  TransferAssetsInstructionDataArgs, CloseTokenAccountInstructionDataArgs,
  CloseSwigInstructionDataArgs,
}
use swig_protocol_sdk.Instructions.Compact.{SolAccountMeta, SolInstruction, compact_instructions}
use swig_protocol_sdk.Instructions.SwigInstruction.{BuiltInstruction}

-- `prefix` is empty where there is none.
pub record SigningResult : Type 0 where
  pub signature : Bytes
  pub signing_prefix : Bytes
  pub message : Option Bytes

-- `signing_fn` is the caller's; a list that is missing is empty.
pub record InstructionDataOptions : Type 0 where
  pub signing_fn : Option (Bytes → SigningResult)
  pub current_slot : Option ℕ
  pub odometer : Option ℕ
  pub pre_instructions : List BuiltInstruction
  pub post_instructions : List BuiltInstruction
  pub fee_payer : Option Bytes

-- The data of addAuthorizationLockV1 and removeAuthorizationLockV1 without what the accounts give.
pub record AddLockData : Type 0 where
  pub acting_role_id : ℕ
  pub amount : ℕ
  pub expiry_slot : ℕ

pub record RemoveLockData : Type 0 where
  pub acting_role_id : ℕ
  pub lock_id : ℕ

pub data AuthorityInstruction : Type 0 where
  add_authority : (swig payer : Bytes) → AddAuthorityInstructionDataArgs → AuthorityInstruction
  remove_authority :
      (swig payer : Bytes) → RemoveAuthorityInstructionDataArgs → AuthorityInstruction
  update_authority :
      (swig payer : Bytes) → UpdateAuthorityInstructionDataArgs → AuthorityInstruction
  sign_v1 :
      (swig payer : Bytes) (role_id : ℕ) (inner_instructions : List SolInstruction)
      → AuthorityInstruction
  sign_v2 :
      (swig swig_system_address : Bytes) (role_id : ℕ) (inner_instructions : List SolInstruction)
      → AuthorityInstruction
  create_session : (swig payer : Bytes) → CreateSessionInstructionDataArgs → AuthorityInstruction
  sub_account_create :
      (swig payer sub_account : Bytes) → SubAccountCreateInstructionDataArgs → AuthorityInstruction
  sub_account_sign :
      (swig sub_account : Bytes) (role_id : ℕ) (inner_instructions : List SolInstruction)
      → AuthorityInstruction
  sub_account_withdraw_sol :
      (swig payer sub_account swig_system_address : Bytes)
      → SubAccountWithdrawInstructionDataArgs
      → AuthorityInstruction
  sub_account_withdraw_token :
      (swig payer sub_account swig_system_address sub_account_token swig_token
        token_program : Bytes)
      → SubAccountWithdrawInstructionDataArgs
      → AuthorityInstruction
  sub_account_toggle :
      (swig payer sub_account : Bytes) → SubAccountToggleInstructionDataArgs → AuthorityInstruction
  transfer_assets :
      (swig payer swig_system_address : Bytes)
      → TransferAssetsInstructionDataArgs
      → AuthorityInstruction
  close_swig :
      (swig swig_system_address destination : Bytes)
      → CloseSwigInstructionDataArgs
      → AuthorityInstruction
  close_token_account :
      (swig swig_system_address destination token_program : Bytes) (token_accounts : List Bytes)
      → CloseTokenAccountInstructionDataArgs
      → AuthorityInstruction
  add_authorization_lock :
      (swig payer swig_system_address asset_account : Bytes) (mint : Option Bytes)
      → AddLockData
      → AuthorityInstruction
  remove_authorization_lock :
      (swig payer swig_system_address : Bytes) (rent_claimer : Option Bytes)
      → RemoveLockData
      → AuthorityInstruction

-- The places of `n` objects from `from` on.
unfoldable pub places : ℕ → ℕ → List ℕ
places from zero = []
places from (suc n) = from ∷ places (from + 1) n

-- The objects at places.
unfoldable pub resolve : List SolAccountMeta → List ℕ → Option (List SolAccountMeta)
resolve store [] = some []
resolve store (r ∷ rs) = do meta ← get_elem? store r; metas ← resolve store rs; some (meta ∷ metas)

module _ ⦃kit : Kit⦄ where
  -- The call of `compactInstructions` with the instruction's own accounts, which are new objects
  -- behind those of the inner instructions: the combined accounts, and the compact instructions.
  unfoldable pub compact :
      List SolAccountMeta
      → Bytes
      → List SolAccountMeta
      → List SolInstruction
      → List Bytes
      → Option (List SolAccountMeta × List CompactInstruction)
  unfolding places
  compact store swig metas inner_instructions other_swig_pdas = do
    (t, compact_ixs) ←
        compact_instructions (store ++ metas) swig (places (length store) (length metas))
          inner_instructions other_swig_pdas
    accounts ← resolve t.store t.accounts
    some (accounts, compact_ixs)
