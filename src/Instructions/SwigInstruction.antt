-- ===== src/Instructions/SwigInstruction.antt =====
-- lib/src/instructions/SwigInstruction.ts: the classes SwigInstructionV1 and SwigInstructionV2, whose
-- methods encode an instruction's data; with swigInstruction and the classes SolInstruction and
-- SwigInstructionContext of lib/src/solana.ts.
pub mod Payload
use swig_protocol_sdk.Common.{ℕ, Option, none, some, List, [], ◌∷◌, ◌++◌, Bytes, length, ◌>>=◌}
use swig_protocol_sdk.Kit.{Kit}
use swig_protocol_sdk.Coder.Instructions.Discriminator.{SwigInstructionDiscriminator}
use swig_protocol_sdk.Coder.Instructions.Create.{CreateV1InstructionDataArgs, write_create_v1}
use swig_protocol_sdk.Coder.Instructions.Authority.{
  AddAuthorityInstructionDataArgs, RemoveAuthorityInstructionDataArgs,
  UpdateAuthorityInstructionDataArgs, write_add_authority, write_remove_authority,
  write_update_authority,
}
use swig_protocol_sdk.Coder.Instructions.Sign.{
  SignInstructionDataArgs, write_sign_v1, write_sign_v2, write_sub_account_sign,
}
use swig_protocol_sdk.Coder.Instructions.Session.{
  CreateSessionInstructionDataArgs, write_create_session,
}
use swig_protocol_sdk.Coder.Instructions.SubAccount.{
  SubAccountCreateInstructionDataArgs, SubAccountWithdrawInstructionDataArgs,
  SubAccountToggleInstructionDataArgs, write_sub_account_create, write_sub_account_withdraw,
  write_sub_account_toggle,
}
use swig_protocol_sdk.Coder.Instructions.Assets.{
  TransferAssetsInstructionDataArgs, CloseTokenAccountInstructionDataArgs,
  CloseSwigInstructionDataArgs, write_transfer_assets, write_close_token_account, write_close_swig,
}
use swig_protocol_sdk.Coder.Instructions.Locks.{
  AddAuthorizationLockInstructionDataArgs, RemoveAuthorizationLockInstructionDataArgs,
  write_add_authorization_lock, write_remove_authorization_lock,
}
use swig_protocol_sdk.Instructions.Consts.{swig_program_address_string}
use swig_protocol_sdk.Instructions.Compact.{SolAccountMeta}

-- A `SolInstruction` with its own accounts.
pub record BuiltInstruction : Type 0 where
  pub program : Bytes
  pub accounts : List SolAccountMeta
  pub ix_data : Bytes

pub record SwigInstructionContext : Type 0 where
  pub pre_instructions : List BuiltInstruction
  pub swig_instruction : BuiltInstruction
  pub post_instructions : List BuiltInstruction

-- The instructions in the order in which `getKitInstructions` and `getWeb3Instructions` give them.
unfoldable pub get_instructions : SwigInstructionContext → List BuiltInstruction
get_instructions c = c.pre_instructions ++ (c.swig_instruction ∷ c.post_instructions)

-- The `data` argument of each method of the two classes.
pub data SwigInstructionArgs : Type 0 where
  create : CreateV1InstructionDataArgs → SwigInstructionArgs
  add_authority : AddAuthorityInstructionDataArgs → SwigInstructionArgs
  remove_authority : RemoveAuthorityInstructionDataArgs → SwigInstructionArgs
  update_authority : UpdateAuthorityInstructionDataArgs → SwigInstructionArgs
  sign_v1 : SignInstructionDataArgs → SwigInstructionArgs
  sign_v2 : SignInstructionDataArgs → SwigInstructionArgs
  create_session : CreateSessionInstructionDataArgs → SwigInstructionArgs
  sub_account_create : SubAccountCreateInstructionDataArgs → SwigInstructionArgs
  sub_account_sign : SignInstructionDataArgs → SwigInstructionArgs
  sub_account_withdraw : SubAccountWithdrawInstructionDataArgs → SwigInstructionArgs
  sub_account_toggle : SubAccountToggleInstructionDataArgs → SwigInstructionArgs
  transfer_assets : TransferAssetsInstructionDataArgs → SwigInstructionArgs
  close_swig : CloseSwigInstructionDataArgs → SwigInstructionArgs
  close_token_account : CloseTokenAccountInstructionDataArgs → SwigInstructionArgs
  add_authorization_lock : AddAuthorizationLockInstructionDataArgs → SwigInstructionArgs
  remove_authorization_lock : RemoveAuthorizationLockInstructionDataArgs → SwigInstructionArgs

module _ ⦃kit : Kit⦄ where
  unfoldable pub swig_instruction : List SolAccountMeta → Bytes → BuiltInstruction
  swig_instruction accounts ix_data = record {
    program = kit.from_base58 swig_program_address_string;
    accounts = accounts;
    ix_data = ix_data;
  }

  -- The encoder that each method calls.
  unfoldable pub encode_args : SwigInstructionArgs → Option Bytes
  encode_args (create x) = write_create_v1 x
  encode_args (add_authority x) =
      write_add_authority (length x.authority_payload) (length x.new_authority_data) x
  encode_args (remove_authority x) = write_remove_authority (length x.authority_payload) x
  encode_args (update_authority x) = write_update_authority x
  encode_args (sign_v1 x) = write_sign_v1 (length x.authority_payload) x
  encode_args (sign_v2 x) = write_sign_v2 (length x.authority_payload) x
  encode_args (create_session x) = write_create_session x
  encode_args (sub_account_create x) = write_sub_account_create x
  encode_args (sub_account_sign x) = write_sub_account_sign x
  encode_args (sub_account_withdraw x) = write_sub_account_withdraw x
  encode_args (sub_account_toggle x) = write_sub_account_toggle x
  encode_args (transfer_assets x) = write_transfer_assets x
  encode_args (close_swig x) = write_close_swig x
  encode_args (close_token_account x) = write_close_token_account x
  encode_args (add_authorization_lock x) = write_add_authorization_lock x
  encode_args (remove_authorization_lock x) = write_remove_authorization_lock x

  -- A method's result, with the instructions that its options put in front and behind.
  unfoldable pub build :
      List SolAccountMeta
      → SwigInstructionArgs
      → List BuiltInstruction
      → List BuiltInstruction
      → Option SwigInstructionContext
  unfolding encode_args swig_instruction
  build accounts args pre_instructions post_instructions = do
    ix_data ← encode_args args
    some (record {
      pre_instructions = pre_instructions;
      swig_instruction = swig_instruction accounts ix_data;
      post_instructions = post_instructions;
    })
