-- ===== src/Coder/Scopes.antt =====
-- The other action payloads of coder/src/types: programLimit.ts, programCurated.ts, programScope.ts,
-- subAccount.ts (whose encoder writes zeros for the padding) and manageAuthorizationLocks.ts.
-- The reserved bytes of `ProgramCurated` are always given: the decoder yields them, and `{}` stands
-- for zeros in the encoder, which the action builder writes out.
pub mod RoundTrip
use swig_protocol_sdk.Common.{ℕ, ◌^◌, ◌<◌, ◌≡◌, Option, some, Bool, Bytes, length, zeros}
use swig_protocol_sdk.Kit.{Kit, Reader, ◌>>=◌, pure, ◌then_write◌, write_enum, read_enum}
use swig_protocol_sdk.Coder.ScopeTypes.{NumericType, numeric_type_code, numeric_type_variant}
use swig_protocol_sdk.Coder.ScopeTypes.{
  ProgramScopeType, program_scope_type_code, program_scope_type_variant,
}

pub record ProgramLimit : Type 0 where
  pub program_id : Bytes

module _ ⦃kit : Kit⦄ where
  unfoldable pub write_program_limit : ProgramLimit → Option Bytes
  write_program_limit x = some (kit.write_fixed 32 x.program_id)

  unfoldable pub read_program_limit : Reader ProgramLimit
  read_program_limit = do program_id ← kit.read_fixed 32; pure (record { program_id = program_id })

-- What a value must meet to be written and read back.
pub record IsProgramLimit (x : ProgramLimit) : Type 0 where
  pub program_id_fits : length x.program_id ≡ 32

pub record ProgramCurated : Type 0 where
  pub reserved : Bytes

module _ ⦃kit : Kit⦄ where
  unfoldable pub write_program_curated : ProgramCurated → Option Bytes
  write_program_curated x = some (kit.write_fixed 32 x.reserved)

  unfoldable pub read_program_curated : Reader ProgramCurated
  read_program_curated = do reserved ← kit.read_fixed 32; pure (record { reserved = reserved })

-- What a value must meet to be written and read back.
pub record IsProgramCurated (x : ProgramCurated) : Type 0 where
  pub reserved_fits : length x.reserved ≡ 32

pub record ProgramScope : Type 0 where
  pub current_amount : ℕ
  pub limit : ℕ
  pub window : ℕ
  pub last_reset : ℕ
  pub program_id : Bytes
  pub target_account : Bytes
  pub scope_type : ProgramScopeType
  pub numeric_type : NumericType
  pub balance_field_start : ℕ
  pub balance_field_end : ℕ

module _ ⦃kit : Kit⦄ where
  unfoldable pub write_program_scope : ProgramScope → Option Bytes
  write_program_scope x =
      kit.write_uint 16 x.current_amount
      then_write kit.write_uint 16 x.limit
      then_write kit.write_uint 8 x.window
      then_write kit.write_uint 8 x.last_reset
      then_write some (kit.write_fixed 32 x.program_id)
      then_write some (kit.write_fixed 32 x.target_account)
      then_write write_enum program_scope_type_code 8 x.scope_type
      then_write write_enum numeric_type_code 8 x.numeric_type
      then_write kit.write_uint 8 x.balance_field_start
      then_write kit.write_uint 8 x.balance_field_end

  unfoldable pub read_program_scope : Reader ProgramScope
  read_program_scope = do
    current_amount ← kit.read_uint 16
    limit ← kit.read_uint 16
    window ← kit.read_uint 8
    last_reset ← kit.read_uint 8
    program_id ← kit.read_fixed 32
    target_account ← kit.read_fixed 32
    scope_type ← read_enum program_scope_type_variant 8
    numeric_type ← read_enum numeric_type_variant 8
    balance_field_start ← kit.read_uint 8
    balance_field_end ← kit.read_uint 8
    pure (record {
      current_amount = current_amount;
      limit = limit;
      window = window;
      last_reset = last_reset;
      program_id = program_id;
      target_account = target_account;
      scope_type = scope_type;
      numeric_type = numeric_type;
      balance_field_start = balance_field_start;
      balance_field_end = balance_field_end;
    })

-- What a value must meet to be written and read back.
pub record IsProgramScope (x : ProgramScope) : Type 0 where
  pub current_amount_fits : x.current_amount < 256 ^ 16
  pub limit_fits : x.limit < 256 ^ 16
  pub window_fits : x.window < 256 ^ 8
  pub last_reset_fits : x.last_reset < 256 ^ 8
  pub program_id_fits : length x.program_id ≡ 32
  pub target_account_fits : length x.target_account ≡ 32
  pub balance_field_start_fits : x.balance_field_start < 256 ^ 8
  pub balance_field_end_fits : x.balance_field_end < 256 ^ 8

pub record SubAccount : Type 0 where
  pub sub_account : Bytes
  pub bump : ℕ
  pub enabled : Bool
  pub padding : Bytes
  pub role_id : ℕ
  pub swig_id : Bytes

module _ ⦃kit : Kit⦄ where
  unfoldable pub write_sub_account : SubAccount → Option Bytes
  write_sub_account x =
      some (kit.write_fixed 32 x.sub_account)
      then_write kit.write_uint 1 x.bump
      then_write some (kit.write_bool x.enabled)
      then_write some (kit.write_fixed 2 (zeros 2))
      then_write kit.write_uint 4 x.role_id
      then_write some (kit.write_fixed 32 x.swig_id)

  unfoldable pub read_sub_account : Reader SubAccount
  read_sub_account = do
    sub_account ← kit.read_fixed 32
    bump ← kit.read_uint 1
    enabled ← kit.read_bool
    padding ← kit.read_fixed 2
    role_id ← kit.read_uint 4
    swig_id ← kit.read_fixed 32
    pure (record {
      sub_account = sub_account;
      bump = bump;
      enabled = enabled;
      padding = padding;
      role_id = role_id;
      swig_id = swig_id;
    })

-- What a value must meet to be written and read back.
pub record IsSubAccount (x : SubAccount) : Type 0 where
  pub sub_account_fits : length x.sub_account ≡ 32
  pub bump_fits : x.bump < 256 ^ 1
  pub role_id_fits : x.role_id < 256 ^ 4
  pub swig_id_fits : length x.swig_id ≡ 32

pub record ManageAuthorizationLocks : Type 0 where
  pub max_duration_slots : ℕ

module _ ⦃kit : Kit⦄ where
  unfoldable pub write_manage_authorization_locks : ManageAuthorizationLocks → Option Bytes
  write_manage_authorization_locks x = kit.write_uint 8 x.max_duration_slots

  unfoldable pub read_manage_authorization_locks : Reader ManageAuthorizationLocks
  read_manage_authorization_locks = do
    max_duration_slots ← kit.read_uint 8
    pure (record { max_duration_slots = max_duration_slots })

-- What a value must meet to be written and read back.
pub record IsManageAuthorizationLocks (x : ManageAuthorizationLocks) : Type 0 where
  pub max_duration_slots_fits : x.max_duration_slots < 256 ^ 8
