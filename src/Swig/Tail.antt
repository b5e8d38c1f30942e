-- ===== src/Swig/Tail.antt =====
-- lib/src/swig/tail.ts: the typed entries behind the roles of a swig config account.
-- A function that throws returns `none`.
pub mod Entries
pub mod Valid
pub mod Suffix
use swig_protocol_sdk.Common.{
  ℕ, zero, suc, ◌+◌, ◌-◌, ◌*◌, ◌/◌, ◌%◌, Bool, true, false, not, ◌&&◌, ◌||◌, Option, none, some,
  List, [], ◌∷◌, if◌then◌else◌, ltb, leb, ◌==◌, Bytes, length, slice, drop, any, every, find, keep,
  guard, ◌>>=◌, ◌>>◌, get_u32,
}
use swig_protocol_sdk.Kit.{Kit, decode}
use swig_protocol_sdk.Coder.Headers.{
  read_position, SwigTailHeader, read_swig_tail_header, AuthorizationLock, read_authorization_lock,
}

abbrev pub position_length : ℕ
position_length = 16

abbrev pub tail_header_length : ℕ
tail_header_length = 8

abbrev pub authorization_lock_length : ℕ
authorization_lock_length = 88

abbrev pub rent_claimer_value_length : ℕ
rent_claimer_value_length = 32

abbrev pub active_sub_account_count_value_length : ℕ
active_sub_account_count_value_length = 8

abbrev pub max_config_seed_prefix_length : ℕ
max_config_seed_prefix_length = 32

abbrev pub max_authorization_locks : ℕ
max_authorization_locks = 32

abbrev pub tail_version : ℕ
tail_version = 1

pub record SwigTailEntry : Type 0 where
  pub header : SwigTailHeader
  pub value : Bytes

pub record SwigAuthorizationLocks : Type 0 where
  pub next_lock_id : ℕ
  pub locks : List AuthorizationLock

module _ ⦃kit : Kit⦄ where
  -- The loop of `getSwigTail`: the cursor behind the last role.
  unfoldable pub roles_end : Bytes → ℕ → ℕ → Option ℕ
  roles_end roles_buffer cursor zero = some cursor
  roles_end roles_buffer cursor (suc roles) = do
    guard (leb (cursor + position_length) (length roles_buffer))
    position ← decode read_position (slice roles_buffer cursor (cursor + position_length))
    guard (
        leb (cursor + position_length) position.boundary
        && leb position.boundary (length roles_buffer))
    roles_end roles_buffer position.boundary roles

  -- `getSwigTail`, of the account's number of roles and its roles buffer.
  unfoldable pub get_swig_tail : ℕ → Bytes → Option Bytes
  unfolding roles_end
  get_swig_tail roles roles_buffer = do
    cursor ← roles_end roles_buffer 0 roles
    some (drop cursor roles_buffer)

  -- The `while` loop of `decodeSwigTail`, on fuel; each round moves the cursor by eight at least.
  unfoldable pub decode_entries : ℕ → Bytes → ℕ → Option (List SwigTailEntry)
  decode_entries zero tail cursor = none
  decode_entries (suc fuel) tail cursor =
      let round = do
        guard (leb (cursor + tail_header_length) (length tail))
        header ← decode read_swig_tail_header (slice tail cursor (cursor + tail_header_length))
        guard (leb (cursor + tail_header_length + header.value_len) (length tail))
        rest ← decode_entries fuel tail (cursor + tail_header_length + header.value_len)
        some (
            record {
              header = header;
              value =
                  slice tail (cursor + tail_header_length)
                    (cursor + tail_header_length + header.value_len);
            }
            ∷ rest)
      in if ltb cursor (length tail) then round else some []

  unfoldable pub decode_swig_tail : Bytes → Option (List SwigTailEntry)
  unfolding decode_entries
  decode_swig_tail tail = decode_entries (suc (length tail)) tail 0

  -- The lock records of an entry's value, `count` of them from `offset` on.
  unfoldable pub decode_locks : Bytes → ℕ → ℕ → Option (List AuthorizationLock)
  decode_locks value offset zero = some []
  decode_locks value offset (suc count) = do
    lock ← decode read_authorization_lock (slice value offset (offset + authorization_lock_length))
    rest ← decode_locks value (offset + authorization_lock_length) count
    some (lock ∷ rest)

  -- `for (offset = 0; offset < value.length; offset += 88)`.
  unfoldable pub all_locks : Bytes → Option (List AuthorizationLock)
  unfolding decode_locks
  all_locks value =
      decode_locks value 0
        ((length value + (authorization_lock_length - 1)) / authorization_lock_length)

-- The check of the lock records: each id is above the one before it and below `next`.
-- `after` is `previousId + 1`.
unfoldable pub check_lock_ids : ℕ → ℕ → List AuthorizationLock → Option (Unit {0})
check_lock_ids after next [] = some tt
check_lock_ids after next (lock ∷ rest) = do
  guard (not (ltb lock.lock_id after || leb next lock.lock_id))
  check_lock_ids (lock.lock_id + 1) next rest

unfoldable pub is_zero : ℕ → Bool
is_zero byte = byte == 0

module _ ⦃kit : Kit⦄ where
  unfoldable pub check_rent_claimer : SwigTailEntry → Option (Unit {0})
  unfolding is_zero
  check_rent_claimer e =
      guard (length e.value == rent_claimer_value_length && every is_zero e.header.payload)

  unfoldable pub check_active_sub_account_count : SwigTailEntry → Option (Unit {0})
  unfolding is_zero
  check_active_sub_account_count e = guard (
      length e.value == active_sub_account_count_value_length
      && (every is_zero e.header.payload && every is_zero (drop 4 e.value)))

  unfoldable pub check_config_seed_prefix : SwigTailEntry → Option (Unit {0})
  unfolding is_zero
  check_config_seed_prefix e = guard (
      not (length e.value == 0)
      && (leb (length e.value) max_config_seed_prefix_length && every is_zero e.header.payload))

  unfoldable pub check_authorization_locks : SwigTailEntry → Option (Unit {0})
  unfolding all_locks check_lock_ids
  check_authorization_locks e = do
    guard (
        length e.value % authorization_lock_length == 0
        && leb (length e.value) (max_authorization_locks * authorization_lock_length))
    next_lock_id ← get_u32 e.header.payload
    locks ← all_locks e.value
    check_lock_ids 0 next_lock_id locks

  -- The `switch` on the kind; an unknown kind is refused.
  unfoldable pub check_kind : SwigTailEntry → Option (Unit {0})
  unfolding check_rent_claimer check_active_sub_account_count check_authorization_locks
      check_config_seed_prefix
  check_kind e =
      if e.header.kind == 1
      then check_rent_claimer e
      else if e.header.kind == 2
      then check_active_sub_account_count e
      else if e.header.kind == 4
      then check_config_seed_prefix e
      else if e.header.kind == 3
      then check_authorization_locks e
      else none

  -- The loop of `validatedTailEntries`; `seen` holds the kinds so far.
  unfoldable pub check_entries : List ℕ → List SwigTailEntry → Option (Unit {0})
  unfolding check_kind
  check_entries seen [] = some tt
  check_entries seen (e ∷ rest) = do
    guard (not (any (λ kind. kind == e.header.kind) seen))
    guard (e.header.version == tail_version)
    check_kind e
    check_entries (e.header.kind ∷ seen) rest

  unfoldable pub validated_tail_entries : Bytes → Option (List SwigTailEntry)
  unfolding decode_swig_tail check_entries
  validated_tail_entries tail = do
    entries ← decode_swig_tail tail
    check_entries [] entries
    some entries

  -- The locks of the entry that was found, if any.
  unfoldable pub locks_of_entry : Option SwigTailEntry → Option SwigAuthorizationLocks
  unfolding all_locks
  locks_of_entry none = some (record { next_lock_id = 0; locks = [] })
  locks_of_entry (some e) = do
    next_lock_id ← get_u32 e.header.payload
    locks ← all_locks e.value
    some (record { next_lock_id = next_lock_id; locks = locks })

  unfoldable pub decode_authorization_locks : Bytes → Option SwigAuthorizationLocks
  unfolding validated_tail_entries locks_of_entry
  decode_authorization_locks tail = do
    entries ← validated_tail_entries tail
    locks_of_entry (find (λ e. e.header.kind == 3) entries)

  unfoldable pub get_swig_authorization_locks : ℕ → Bytes → Option SwigAuthorizationLocks
  unfolding get_swig_tail decode_authorization_locks
  get_swig_authorization_locks roles roles_buffer = do
    tail ← get_swig_tail roles roles_buffer
    decode_authorization_locks tail

  -- `none` outside is a throw, `some none` is `null`.
  unfoldable pub decode_rent_claimer : Bytes → Option (Option Bytes)
  unfolding validated_tail_entries
  decode_rent_claimer tail = do
    entries ← validated_tail_entries tail
    some (elim (find (λ e. e.header.kind == 1) entries) [ none ↦ none | some e ↦ some e.value ])
