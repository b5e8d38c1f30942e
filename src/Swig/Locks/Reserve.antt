-- ===== src/Swig/Locks/Reserve.antt =====
-- What locks reserve, and what is left to spend.
use swig_protocol_sdk.Common.{
  ℕ, min, ◌+◌, ◌≤◌, ◌≡◌, ◌↔◌, ◌∙◌, not, ◌&&◌, List, [], ◌∷◌, if◌then◌else◌, ◌==◌, Bytes, keep,
  arith,
}
use swig_protocol_sdk.Coder.Headers.{AuthorizationLock}
use swig_protocol_sdk.Swig.Locks.{
  is_authorization_lock_active, get_active_authorization_locks, starts_asset, sum_amounts,
  get_authorization_lock_reserved_amount, get_authorization_lock_available_amount,
}

-- What one lock holds back from `role_id` on the account `asset` at a slot.
abbrev pub share : Bytes → ℕ → ℕ → AuthorizationLock → ℕ
share asset role_id slot lock =
    if is_authorization_lock_active lock slot
      && (not (lock.role_id == role_id) && starts_asset lock.asset_account asset)
    then lock.amount
    else 0

abbrev pub sum_shares : Bytes → ℕ → ℕ → List AuthorizationLock → ℕ
sum_shares asset role_id slot [] = 0
sum_shares asset role_id slot (lock ∷ rest) =
    share asset role_id slot lock + sum_shares asset role_id slot rest

sum_amounts-shares :
    (asset : Bytes) (role_id slot sum : ℕ) (locks : List AuthorizationLock)
    → sum_amounts sum (
        keep
          (λ lock. not (lock.role_id == role_id) && starts_asset lock.asset_account asset)
          (keep (λ lock. is_authorization_lock_active lock slot) locks))
      ≡ sum + sum_shares asset role_id slot locks
unfolding sum_amounts
sum_amounts-shares asset role_id slot sum [] = omega arith
sum_amounts-shares asset role_id slot sum (lock ∷ rest) = ground (
  arith,
  sum_amounts-shares asset role_id slot sum rest,
  sum_amounts-shares asset role_id slot (sum + lock.amount) rest,
)

-- The reserved amount is the sum of the shares of all locks: the amount of each lock that is in
-- force, that another role holds and whose account is the one asked for.
pub reserved-sum_shares :
    (locks : List AuthorizationLock) (asset : Bytes) (role_id slot : ℕ)
    → get_authorization_lock_reserved_amount locks asset role_id slot
      ≡ sum_shares asset role_id slot locks
unfolding get_authorization_lock_reserved_amount get_active_authorization_locks
reserved-sum_shares locks asset role_id slot =
    sum_amounts-shares asset role_id slot 0 locks ∙ omega arith

share_mono :
    (asset : Bytes) (role_id slot later : ℕ) (lock : AuthorizationLock)
    → slot ≤ later
    → share asset role_id later lock ≤ share asset role_id slot lock
unfolding is_authorization_lock_active
share_mono asset role_id slot later lock h = ground arith

sum_shares_mono :
    (asset : Bytes) (role_id slot later : ℕ) (locks : List AuthorizationLock)
    → slot ≤ later
    → sum_shares asset role_id later locks ≤ sum_shares asset role_id slot locks
sum_shares_mono asset role_id slot later [] h = omega arith
sum_shares_mono asset role_id slot later (lock ∷ rest) h = omega (
  arith,
  share_mono asset role_id slot later lock h,
  sum_shares_mono asset role_id slot later rest h,
)

-- Time only releases: at a later slot no more is reserved, and no less may be spent.
pub available_mono :
    (balance : ℕ) (locks : List AuthorizationLock) (asset : Bytes) (role_id slot later : ℕ)
    → slot ≤ later
    → (get_authorization_lock_reserved_amount locks asset role_id later
        ≤ get_authorization_lock_reserved_amount locks asset role_id slot)
      × (get_authorization_lock_available_amount balance locks asset role_id slot
          ≤ get_authorization_lock_available_amount balance locks asset role_id later)
unfolding get_authorization_lock_available_amount
available_mono balance locks asset role_id slot later h =
    let fewer : get_authorization_lock_reserved_amount locks asset role_id later
        ≤ get_authorization_lock_reserved_amount locks asset role_id slot =
      omega (
        arith,
        reserved-sum_shares locks asset role_id later,
        reserved-sum_shares locks asset role_id slot,
        sum_shares_mono asset role_id slot later locks h,
      ) in
    (fewer, ground (arith, fewer))

-- What may be spent and what is reserved make up the balance, where the reserve counts only as far
-- as the balance reaches: after all that may be spent, the smaller of balance and reserve is left.
-- Nothing may be spent exactly if the balance is no more than the reserve.
pub available-reserve :
    (balance : ℕ) (locks : List AuthorizationLock) (asset : Bytes) (role_id slot : ℕ)
    → (get_authorization_lock_available_amount balance locks asset role_id slot
          + min balance (get_authorization_lock_reserved_amount locks asset role_id slot)
        ≡ balance)
      × ((get_authorization_lock_available_amount balance locks asset role_id slot ≡ 0)
          ↔ (balance ≤ get_authorization_lock_reserved_amount locks asset role_id slot))
unfolding get_authorization_lock_available_amount
available-reserve balance locks asset role_id slot =
    (ground arith, ((λ e. ground (arith, e)), λ h. ground (arith, h)))
