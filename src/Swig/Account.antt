-- ===== src/Swig/Account.antt =====
-- The class `Swig` of lib/src/swig/index.ts over the record of coder/src/accounts/swig.ts: what is
-- read from an account. A call that throws returns `none`.
pub mod Version
pub mod Read
use swig_protocol_sdk.Common.{
  ℕ, ◌+◌, ◌/◌, ◌%◌, ◌^◌, ◌<◌, ◌≡◌, Bool, true, false, not, ◌&&◌, Option, none, some, List, [], ◌∷◌,
  if◌then◌else◌, ltb, ◌==◌, Bytes, length, find, ◌>>=◌,
}
use swig_protocol_sdk.Kit.{Kit, decode}
use swig_protocol_sdk.Coder.Accounts.{SwigAccount, read_swig_account}
use swig_protocol_sdk.Coder.Headers.{AuthorizationLock}
use swig_protocol_sdk.Roles
use swig_protocol_sdk.Roles.{Role, deserialize_roles}
use swig_protocol_sdk.Swig.Tail.{
  SwigAuthorizationLocks, get_swig_tail, decode_authorization_locks, decode_rent_claimer,
}
use swig_protocol_sdk.Swig.Locks.{get_active_authorization_locks}

pub record Swig : Type 0 where
  pub address : Bytes
  pub account : SwigAccount

pub data AccountVersion : Type 0 where
  v1 : AccountVersion
  v2 : AccountVersion

-- The low 32 bits are the wallet's bump and three zero bytes.
unfoldable pub account_version : Swig → AccountVersion
account_version swig =
    let window = swig.account.reserved_lamports_or_bump % 2 ^ 32 in
    if not (window % 256 == 0) && window / 256 == 0 then v2 else v1

-- The high 32 bits; `none` is `null`.
unfoldable pub sub_account_v2_counter : Swig → Option ℕ
unfolding account_version
sub_account_v2_counter swig = elim (account_version swig) [
  | v2 ↦ some (swig.account.reserved_lamports_or_bump / 2 ^ 32)
  | v1 ↦ none
]

module _ ⦃kit : Kit⦄ where
  -- `Swig.fromRawAccountData`.
  unfoldable pub from_raw_account_data : Bytes → Bytes → Option Swig
  unfolding read_swig_account
  from_raw_account_data swig_address account_data = do
    account ← decode read_swig_account account_data
    some (record { address = swig_address; account = account })

  unfoldable pub roles : Swig → Option (List Role)
  unfolding deserialize_roles
  roles swig =
      deserialize_roles swig.address swig.account.roles_buffer swig.account.roles swig.account.id

  unfoldable pub tail : Swig → Option Bytes
  unfolding get_swig_tail
  tail swig = get_swig_tail swig.account.roles swig.account.roles_buffer

  unfoldable pub authorization_locks : Swig → Option SwigAuthorizationLocks
  unfolding tail decode_authorization_locks
  authorization_locks swig = do bytes ← tail swig; decode_authorization_locks bytes

  unfoldable pub active_authorization_locks : Swig → ℕ → Option (List AuthorizationLock)
  unfolding authorization_locks get_active_authorization_locks
  active_authorization_locks swig current_slot = do
    result ← authorization_locks swig
    some (get_active_authorization_locks result.locks current_slot)

  -- `none` outside is a throw, `some none` is `null`.
  unfoldable pub rent_claimer : Swig → Option (Option Bytes)
  unfolding tail decode_rent_claimer
  rent_claimer swig = do bytes ← tail swig; decode_rent_claimer bytes

  -- `none` outside is a throw, `some none` is `null`.
  unfoldable pub find_role_by_id : Swig → ℕ → Option (Option Role)
  unfolding roles
  find_role_by_id swig id = do all ← roles swig; some (find (λ role. Roles.id role == id) all)
