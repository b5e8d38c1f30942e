-- ===== src/Swig/Tests.antt =====
-- lib/src/swig/tail.ts: a tail with a rent claimer and one authorization lock, run with
-- little-endian codecs.
mod Account
use swig_protocol_sdk.Common.{
  ◌+◌, min, ◌≤◌, ◌≡◌, ◌↔◌, refl, some, List, [], ◌∷◌, ◌++◌, All, Bytes, length, replicate, zeros,
  arith,
}
use swig_protocol_sdk.Kit.LittleEndian.{little_endian, read_le, le_value}
use swig_protocol_sdk.Coder.Headers.{
  read_swig_tail_header, AuthorizationLock, read_authorization_lock,
}
use swig_protocol_sdk.Swig.Tail.{
  SwigTailEntry, SwigAuthorizationLocks, decode_entries, decode_swig_tail, decode_locks, all_locks,
  check_lock_ids, is_zero, check_rent_claimer, check_authorization_locks, check_kind, check_entries,
  validated_tail_entries, decode_authorization_locks,
}
use swig_protocol_sdk.Swig.Tail.Entries.{Entries, decode_swig_tail-Entries}
use swig_protocol_sdk.Swig.Tail.Valid.{
  Increasing, DistinctKinds, Checked, validated_tail_entries-Checked,
  decode_authorization_locks-Increasing,
}
use swig_protocol_sdk.Swig.Locks.{
  get_authorization_lock_reserved_amount, get_authorization_lock_available_amount,
}
use swig_protocol_sdk.Swig.Locks.Reserve.{
  sum_shares, reserved-sum_shares, available_mono, available-reserve,
}

abbrev lock : AuthorizationLock
lock = record {
  asset_account = replicate 32 1;
  mint = zeros 32;
  amount = 50;
  expiry_slot = 1000;
  role_id = 1;
  lock_id = 0;
}

abbrev lock_bytes : Bytes
lock_bytes =
    replicate 32 1
    ++ (zeros 32 ++ (50 ∷ zeros 7 ++ (232 ∷ 3 ∷ zeros 6 ++ (1 ∷ zeros 3 ++ zeros 4))))

abbrev tail : Bytes
tail = 1 ∷ 1 ∷ 32 ∷ 0 ∷ zeros 4 ++ (replicate 32 9 ++ (3 ∷ 1 ∷ 88 ∷ 0 ∷ 1 ∷ zeros 3 ++ lock_bytes))

abbrev entries : List SwigTailEntry
entries =
    record {
      header = record { kind = 1; version = 1; value_len = 32; payload = zeros 4 };
      value = replicate 32 9;
    }
    ∷ record {
      header = record { kind = 3; version = 1; value_len = 88; payload = 1 ∷ zeros 3 };
      value = lock_bytes;
    }
    ∷ []

decode_swig_tail-Entries_example : (decode_swig_tail tail ≡ some entries) ↔ Entries entries tail
decode_swig_tail-Entries_example = decode_swig_tail-Entries tail entries

tail_validated : validated_tail_entries tail ≡ some entries
unfolding validated_tail_entries decode_swig_tail decode_entries check_entries check_kind
    check_rent_claimer check_authorization_locks is_zero all_locks decode_locks check_lock_ids
    read_swig_tail_header read_authorization_lock read_le le_value
tail_validated = refl

validated_tail_entries-Checked_example :
    (decode_swig_tail tail ≡ some entries) × All Checked entries × DistinctKinds entries
validated_tail_entries-Checked_example = validated_tail_entries-Checked tail entries tail_validated

decode_authorization_locks-Increasing_example :
    (r : SwigAuthorizationLocks) × (decode_authorization_locks tail ≡ some r)
    × Increasing 0 r.next_lock_id r.locks
    × (length r.locks ≤ 32)
decode_authorization_locks-Increasing_example =
    decode_authorization_locks-Increasing tail entries tail_validated

abbrev locks : List AuthorizationLock
locks = lock ∷ record lock { lock_id = 1; role_id = 2; amount = 7 } ∷ []

reserved-sum_shares_example :
    get_authorization_lock_reserved_amount locks (replicate 32 1) 2 500
    ≡ sum_shares (replicate 32 1) 2 500 locks
reserved-sum_shares_example = reserved-sum_shares locks (replicate 32 1) 2 500

available_mono_example :
    (get_authorization_lock_reserved_amount locks (replicate 32 1) 2 1000
      ≤ get_authorization_lock_reserved_amount locks (replicate 32 1) 2 500)
    × (get_authorization_lock_available_amount 60 locks (replicate 32 1) 2 500
        ≤ get_authorization_lock_available_amount 60 locks (replicate 32 1) 2 1000)
available_mono_example = available_mono 60 locks (replicate 32 1) 2 500 1000 (omega arith)

available-reserve_example :
    (get_authorization_lock_available_amount 60 locks (replicate 32 1) 2 500
        + min 60 (get_authorization_lock_reserved_amount locks (replicate 32 1) 2 500)
      ≡ 60)
    × ((get_authorization_lock_available_amount 60 locks (replicate 32 1) 2 500 ≡ 0)
        ↔ (60 ≤ get_authorization_lock_reserved_amount locks (replicate 32 1) 2 500))
available-reserve_example = available-reserve 60 locks (replicate 32 1) 2 500
