-- ===== src/Coder/Accounts.antt =====
-- coder/src/accounts/swig.ts: the account that holds a wallet's configuration.
pub mod RoundTrip
use swig_protocol_sdk.Common.{ℕ, ◌^◌, ◌<◌, ◌≡◌, Option, some, Bytes, length}
use swig_protocol_sdk.Kit.{Kit, Reader, ◌>>=◌, pure, read_rest, ◌then_write◌}

pub record SwigAccount : Type 0 where
  pub discriminator : ℕ
  pub bump : ℕ
  pub id : Bytes
  pub roles : ℕ
  pub role_counter : ℕ
  pub reserved_lamports_or_bump : ℕ
  pub roles_buffer : Bytes

module _ ⦃kit : Kit⦄ where
  unfoldable pub write_swig_account : SwigAccount → Option Bytes
  write_swig_account x =
      kit.write_uint 1 x.discriminator
      then_write kit.write_uint 1 x.bump
      then_write some (kit.write_fixed 32 x.id)
      then_write kit.write_uint 2 x.roles
      then_write kit.write_uint 4 x.role_counter
      then_write kit.write_uint 8 x.reserved_lamports_or_bump
      then_write some x.roles_buffer

  unfoldable pub read_swig_account : Reader SwigAccount
  read_swig_account = do
    discriminator ← kit.read_uint 1
    bump ← kit.read_uint 1
    id ← kit.read_fixed 32
    roles ← kit.read_uint 2
    role_counter ← kit.read_uint 4
    reserved_lamports_or_bump ← kit.read_uint 8
    roles_buffer ← read_rest
    pure (record {
      discriminator = discriminator;
      bump = bump;
      id = id;
      roles = roles;
      role_counter = role_counter;
      reserved_lamports_or_bump = reserved_lamports_or_bump;
      roles_buffer = roles_buffer;
    })

-- What an account must meet to be written and read back.
pub record IsSwigAccount (x : SwigAccount) : Type 0 where
  pub discriminator_fits : x.discriminator < 256 ^ 1
  pub bump_fits : x.bump < 256 ^ 1
  pub id_fits : length x.id ≡ 32
  pub roles_fits : x.roles < 256 ^ 2
  pub role_counter_fits : x.role_counter < 256 ^ 4
  pub reserved_lamports_or_bump_fits : x.reserved_lamports_or_bump < 256 ^ 8
