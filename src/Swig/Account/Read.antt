-- ===== src/Swig/Account/Read.antt =====
-- Reading back an account.
use swig_protocol_sdk.Common.{◌+◌, ◌≡◌, some, List, ◌++◌, Bytes, length}
use swig_protocol_sdk.Kit.{Kit}
use swig_protocol_sdk.Coder.Accounts.{SwigAccount, IsSwigAccount, write_swig_account}
use swig_protocol_sdk.Coder.Accounts.RoundTrip.{EncodesAll-swig_account}
use swig_protocol_sdk.Roles.{Role}
use swig_protocol_sdk.Roles.Layout.{RolesLayout, deserialize_roles-Layout}
use swig_protocol_sdk.Swig.Account.{from_raw_account_data, roles, tail}

module _ ⦃kit : Kit⦄ where
  -- For an account with numbers in range whose roles buffer holds as many roles as it says in the
  -- format and any tail behind them: what its encoder writes is 48 bytes longer than that buffer, and
  -- the `Swig` that `fromRawAccountData` makes of it has the account, these roles and this tail.
  pub from_raw_account_data-written :
      (address : Bytes) (x : SwigAccount) (rs : List Role) (bs rest : Bytes)
      → IsSwigAccount x
      → RolesLayout address x.id 0 rs bs
      → x.roles_buffer ≡ bs ++ rest
      → x.roles ≡ length rs
      → (written : Bytes) × (write_swig_account x ≡ some written)
        × (length written ≡ 48 + length x.roles_buffer)
        × (from_raw_account_data address written ≡ some (record { address = address; account = x }))
        × (roles (record { address = address; account = x }) ≡ some rs)
        × (tail (record { address = address; account = x }) ≡ some rest)
  unfolding from_raw_account_data roles tail
  from_raw_account_data-written address x rs bs rest v l eb en =
      let e = EncodesAll-swig_account x v in
      let (read, end) = deserialize_roles-Layout address x.id rs bs rest l in
      (e.bytes, e.written, e.width, rw (e.reads), rw (eb, en) read, rw (eb, en) end)
