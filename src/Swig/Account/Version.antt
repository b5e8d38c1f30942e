-- ===== src/Swig/Account/Version.antt =====
-- The two generations of accounts.
use swig_protocol_sdk.Common.{
  ℕ, ◌+◌, ◌*◌, ◌/◌, ◌%◌, ◌^◌, ◌<◌, ◌≡◌, ◌↔◌, ltb, ◌==◌, not, ◌&&◌, if◌then◌else◌, none, some, arith,
}
use swig_protocol_sdk.Swig.Account.{Swig, AccountVersion, account_version, sub_account_v2_counter}

by_bump :
    (bump : ℕ)
    → (if not (bump % 256 == 0) && bump / 256 == 0 then AccountVersion.v2 else AccountVersion.v1)
      ≡ (if ltb 0 bump && ltb bump 256 then AccountVersion.v2 else AccountVersion.v1)
by_bump bump = ground arith

is_v2 :
    (bump : ℕ) {v : AccountVersion}
    → v ≡ (if ltb 0 bump && ltb bump 256 then AccountVersion.v2 else AccountVersion.v1)
    → ((v ≡ AccountVersion.v2) ↔ ((0 < bump) × (bump < 256)))
is_v2 bump e = ground (arith, e)

-- Let the u64 slot of an account hold `bump` in its low 32 bits and `counter` in the high ones. The
-- account is of version 2 exactly if `bump` is from 1 to 255, whatever the counter is; then the
-- counter of sub-accounts is `counter`, else it is null.
pub sub_account_v2_counter-account_version :
    (swig : Swig) (bump counter : ℕ)
    → bump < 2 ^ 32
    → swig.account.reserved_lamports_or_bump ≡ bump + 2 ^ 32 * counter
    → ((account_version swig ≡ AccountVersion.v2) ↔ ((0 < bump) × (bump < 256)))
      × (sub_account_v2_counter swig ≡ (if ltb 0 bump && ltb bump 256 then some counter else none))
sub_account_v2_counter-account_version swig bump counter h e =
    let low : swig.account.reserved_lamports_or_bump % 2 ^ 32 ≡ bump = omega arith in
    let high : swig.account.reserved_lamports_or_bump / 2 ^ 32 ≡ counter = omega arith in
    let version : account_version swig
        ≡ (if ltb 0 bump && ltb bump 256 then AccountVersion.v2 else AccountVersion.v1) =
      unfold account_version in rw low (by_bump bump) in
    (is_v2 bump version, unfold sub_account_v2_counter in ground (arith, version, high))
