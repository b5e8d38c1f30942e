-- ===== src/Swig/Locks.antt =====
-- lib/src/swig/tail.ts: which authorization locks are in force, and what they reserve.
pub mod Reserve
use swig_protocol_sdk.Common.{
  ℕ, ◌+◌, ◌-◌, Bool, true, false, not, ◌&&◌, List, [], ◌∷◌, if◌then◌else◌, ltb, ◌==◌, Bytes, every,
  keep,
}
use swig_protocol_sdk.Coder.Headers.{AuthorizationLock}
use swig_protocol_sdk.Swig.Tail.{is_zero}

unfoldable pub is_authorization_lock_active : AuthorizationLock → ℕ → Bool
is_authorization_lock_active lock current_slot =
    ltb 0 lock.amount && ltb current_slot lock.expiry_slot

unfoldable pub get_active_authorization_locks : List AuthorizationLock → ℕ → List AuthorizationLock
unfolding is_authorization_lock_active
get_active_authorization_locks locks current_slot =
    keep (λ lock. is_authorization_lock_active lock current_slot) locks

unfoldable pub is_authorization_lock_prunable : AuthorizationLock → ℕ → Bool
unfolding is_authorization_lock_active
is_authorization_lock_prunable lock current_slot =
    not (is_authorization_lock_active lock current_slot)

-- `assetAccount.every((byte, i) => byte === asset[i])`.
unfoldable pub starts_asset : Bytes → Bytes → Bool
starts_asset [] asset = true
starts_asset (byte ∷ rest) [] = false
starts_asset (byte ∷ rest) (a ∷ asset) = byte == a && starts_asset rest asset

unfoldable pub sum_amounts : ℕ → List AuthorizationLock → ℕ
sum_amounts sum [] = sum
sum_amounts sum (lock ∷ rest) = sum_amounts (sum + lock.amount) rest

unfoldable pub get_authorization_lock_reserved_amount : List AuthorizationLock → Bytes → ℕ → ℕ → ℕ
unfolding get_active_authorization_locks starts_asset sum_amounts
get_authorization_lock_reserved_amount locks asset role_id current_slot = sum_amounts 0 (
    keep (λ lock. not (lock.role_id == role_id) && starts_asset lock.asset_account asset)
      (get_active_authorization_locks locks current_slot))

unfoldable pub get_authorization_lock_available_amount :
    ℕ → List AuthorizationLock → Bytes → ℕ → ℕ → ℕ
get_authorization_lock_available_amount balance locks asset role_id current_slot =
    let reserved = get_authorization_lock_reserved_amount locks asset role_id current_slot in
    if ltb reserved balance then balance - reserved else 0

unfoldable pub is_native_sol_authorization_lock : AuthorizationLock → Bool
unfolding is_zero
is_native_sol_authorization_lock lock = every is_zero lock.mint
