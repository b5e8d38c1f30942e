-- ===== src/Instructions/Metas/Role.antt =====
-- What the account lists of the instructions share: the roles of an account and the authority's place
-- (solana/typescript/packages/lib/src/instructions).
use swig_protocol_sdk.Common.{
  ℕ, Bool, true, false, Option, none, some, List, [], ◌∷◌, ◌++◌, Bytes, length, take, drop,
}
use swig_protocol_sdk.Kit.{Kit}
use swig_protocol_sdk.Instructions.Consts.{system_program_address_string}
use swig_protocol_sdk.Instructions.Compact.{SolAccountMeta}

-- `AccountRole` of @solana/kit, with `isSignerRole` and `isWritableRole`.
pub data AccountRole : Type 0 where
  readonly : AccountRole
  writable : AccountRole
  readonly_signer : AccountRole
  writable_signer : AccountRole

abbrev pub is_signer_role : AccountRole → Bool
is_signer_role AccountRole.readonly = false
is_signer_role AccountRole.writable = false
is_signer_role AccountRole.readonly_signer = true
is_signer_role AccountRole.writable_signer = true

abbrev pub is_writable_role : AccountRole → Bool
is_writable_role AccountRole.readonly = false
is_writable_role AccountRole.writable = true
is_writable_role AccountRole.readonly_signer = false
is_writable_role AccountRole.writable_signer = true

-- `SolAccountMeta.fromKitAccountMeta`, of the key that the address stands for.
unfoldable pub from_kit_account_meta : Bytes → AccountRole → SolAccountMeta
from_kit_account_meta public_key role = record {
  public_key = public_key;
  writable = is_writable_role role;
  signer = is_signer_role role;
}

-- The end that the functions `get…MetasWithAuthority` share: the authority behind the accounts, as a
-- signer, and its index.
unfoldable pub with_authority : List SolAccountMeta → Bytes → List SolAccountMeta × ℕ
unfolding from_kit_account_meta
with_authority metas authority =
    (metas ++ from_kit_account_meta authority AccountRole.readonly_signer ∷ [], length metas)

module _ ⦃kit : Kit⦄ where
  unfoldable pub system_program : Bytes
  system_program = kit.from_base58 system_program_address_string

  -- The authority goes to the fourth place; without one, the system program does.
  unfoldable pub with_authority_context :
      List SolAccountMeta → Option SolAccountMeta → List SolAccountMeta × ℕ
  unfolding from_kit_account_meta system_program
  with_authority_context metas none =
      (take 3 metas ++ from_kit_account_meta system_program AccountRole.readonly ∷ drop 3 metas, 3)
  with_authority_context metas (some authority) = (take 3 metas ++ authority ∷ drop 3 metas, 3)
