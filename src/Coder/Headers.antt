-- ===== src/Coder/Headers.antt =====
-- The fixed-size records that frame the data: coder/src/types/actionHeader.ts, position.ts,
-- swigTail.ts and authorizationLock.ts. The source only reads positions:
-- `write_position` is the layout that `read_position` takes apart, for the statements about it.
pub mod RoundTrip
use swig_protocol_sdk.Common.{ℕ, ◌^◌, ◌<◌, ◌≡◌, Option, some, Bool, Bytes, length, zeros}
use swig_protocol_sdk.Kit.{Kit, Reader, ◌>>=◌, pure, ◌then_write◌, write_enum, read_enum}
use swig_protocol_sdk.Coder.AuthorityTypes.{
  AuthorityType, authority_type_code, authority_type_variant,
}
use swig_protocol_sdk.Coder.Permissions.{Permission, permission_code, permission_variant}

pub record ActionHeader : Type 0 where
  pub permission : Permission
  pub length : ℕ
  pub boundary : ℕ

module _ ⦃kit : Kit⦄ where
  unfoldable pub write_action_header : ActionHeader → Option Bytes
  write_action_header x =
      write_enum permission_code 2 x.permission
      then_write kit.write_uint 2 x.length
      then_write kit.write_uint 4 x.boundary

  unfoldable pub read_action_header : Reader ActionHeader
  read_action_header = do
    permission ← read_enum permission_variant 2
    length ← kit.read_uint 2
    boundary ← kit.read_uint 4
    pure (record { permission = permission; length = length; boundary = boundary })

-- What a value must meet to be written and read back.
pub record IsActionHeader (x : ActionHeader) : Type 0 where
  pub length_fits : x.length < 256 ^ 2
  pub boundary_fits : x.boundary < 256 ^ 4

pub record Position : Type 0 where
  pub authority_type : AuthorityType
  pub authority_len : ℕ
  pub num_actions : ℕ
  pub padding : Bytes
  pub id : ℕ
  pub boundary : ℕ

module _ ⦃kit : Kit⦄ where
  unfoldable pub write_position : Position → Option Bytes
  write_position x =
      write_enum authority_type_code 2 x.authority_type
      then_write kit.write_uint 2 x.authority_len
      then_write kit.write_uint 2 x.num_actions
      then_write some (kit.write_fixed 2 x.padding)
      then_write kit.write_uint 4 x.id
      then_write kit.write_uint 4 x.boundary

  unfoldable pub read_position : Reader Position
  read_position = do
    authority_type ← read_enum authority_type_variant 2
    authority_len ← kit.read_uint 2
    num_actions ← kit.read_uint 2
    padding ← kit.read_fixed 2
    id ← kit.read_uint 4
    boundary ← kit.read_uint 4
    pure (record {
      authority_type = authority_type;
      authority_len = authority_len;
      num_actions = num_actions;
      padding = padding;
      id = id;
      boundary = boundary;
    })

-- What a value must meet to be written and read back.
pub record IsPosition (x : Position) : Type 0 where
  pub authority_len_fits : x.authority_len < 256 ^ 2
  pub num_actions_fits : x.num_actions < 256 ^ 2
  pub padding_fits : length x.padding ≡ 2
  pub id_fits : x.id < 256 ^ 4
  pub boundary_fits : x.boundary < 256 ^ 4

pub record SwigTailHeader : Type 0 where
  pub kind : ℕ
  pub version : ℕ
  pub value_len : ℕ
  pub payload : Bytes

module _ ⦃kit : Kit⦄ where
  unfoldable pub write_swig_tail_header : SwigTailHeader → Option Bytes
  write_swig_tail_header x =
      kit.write_uint 1 x.kind
      then_write kit.write_uint 1 x.version
      then_write kit.write_uint 2 x.value_len
      then_write some (kit.write_fixed 4 x.payload)

  unfoldable pub read_swig_tail_header : Reader SwigTailHeader
  read_swig_tail_header = do
    kind ← kit.read_uint 1
    version ← kit.read_uint 1
    value_len ← kit.read_uint 2
    payload ← kit.read_fixed 4
    pure (record { kind = kind; version = version; value_len = value_len; payload = payload })

-- What a value must meet to be written and read back.
pub record IsSwigTailHeader (x : SwigTailHeader) : Type 0 where
  pub kind_fits : x.kind < 256 ^ 1
  pub version_fits : x.version < 256 ^ 1
  pub value_len_fits : x.value_len < 256 ^ 2
  pub payload_fits : length x.payload ≡ 4

pub record AuthorizationLock : Type 0 where
  pub asset_account : Bytes
  pub mint : Bytes
  pub amount : ℕ
  pub expiry_slot : ℕ
  pub role_id : ℕ
  pub lock_id : ℕ

module _ ⦃kit : Kit⦄ where
  unfoldable pub write_authorization_lock : AuthorizationLock → Option Bytes
  write_authorization_lock x =
      some (kit.write_fixed 32 x.asset_account)
      then_write some (kit.write_fixed 32 x.mint)
      then_write kit.write_uint 8 x.amount
      then_write kit.write_uint 8 x.expiry_slot
      then_write kit.write_uint 4 x.role_id
      then_write kit.write_uint 4 x.lock_id

  unfoldable pub read_authorization_lock : Reader AuthorizationLock
  read_authorization_lock = do
    asset_account ← kit.read_fixed 32
    mint ← kit.read_fixed 32
    amount ← kit.read_uint 8
    expiry_slot ← kit.read_uint 8
    role_id ← kit.read_uint 4
    lock_id ← kit.read_uint 4
    pure (record {
      asset_account = asset_account;
      mint = mint;
      amount = amount;
      expiry_slot = expiry_slot;
      role_id = role_id;
      lock_id = lock_id;
    })

-- What a value must meet to be written and read back.
pub record IsAuthorizationLock (x : AuthorizationLock) : Type 0 where
  pub asset_account_fits : length x.asset_account ≡ 32
  pub mint_fits : length x.mint ≡ 32
  pub amount_fits : x.amount < 256 ^ 8
  pub expiry_slot_fits : x.expiry_slot < 256 ^ 8
  pub role_id_fits : x.role_id < 256 ^ 4
  pub lock_id_fits : x.lock_id < 256 ^ 4
