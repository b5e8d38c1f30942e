-- ===== src/Coder/AccountsPayload.antt =====
-- coder/src/types/accountsPayload.ts: the accounts of an instruction, as an authority signs them.
pub mod Injective
use swig_protocol_sdk.Common.{Bool, List, [], ◌∷◌, ◌++◌, Bytes, zeros}
use swig_protocol_sdk.Kit.{Kit}

pub record AccountMetaLike : Type 0 where
  pub pubkey : Bytes
  pub is_writable : Bool
  pub is_signer : Bool

module _ ⦃kit : Kit⦄ where
  unfoldable pub write_account_payload : AccountMetaLike → Bytes
  write_account_payload x =
      kit.write_fixed 32 x.pubkey
      ++ kit.write_bool x.is_writable
      ++ kit.write_bool x.is_signer
      ++ kit.write_fixed 6 (zeros 6)

  -- The array has no size in front; the size that the encoder is given is the list's own.
  unfoldable pub write_accounts_payload : List AccountMetaLike → Bytes
  unfolding write_account_payload
  write_accounts_payload [] = []
  write_accounts_payload (x ∷ xs) = write_account_payload x ++ write_accounts_payload xs
