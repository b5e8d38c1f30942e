-- ===== src/Swig/Tail/Valid.antt =====
-- What the checks of `validatedTailEntries` promise of a tail that passes them.
use swig_protocol_sdk.Common.{
  ℕ, zero, suc, ◌+◌, ◌/◌, ◌%◌, ◌*◌, ◌≤◌, ◌<◌, ◌≡◌, ◌≢◌, refl, Bool, true, false, not, ◌&&◌, Option,
  none, some, List, [], ◌∷◌, Bytes, length, slice, any, All, find, find-All, find-some, leb, ◌==◌,
  ==_iff, guard, guard-true, >>=-eq-some, get_u32, arith,
}
use swig_protocol_sdk.Kit.{Kit, decode}
use swig_protocol_sdk.Coder.Headers.{AuthorizationLock, read_authorization_lock}
use swig_protocol_sdk.Swig.Tail.{
  SwigTailEntry, SwigAuthorizationLocks, decode_swig_tail, decode_locks, all_locks, check_lock_ids,
  check_authorization_locks, check_kind, check_entries, validated_tail_entries, locks_of_entry,
  decode_authorization_locks,
}

not-true : (b : Bool) → not b ≡ true → b ≡ false
not-true b h = ground arith

-- Lock ids from `after` on, each above the one before it, and all below `next`.
abbrev pub Increasing : ℕ → ℕ → List AuthorizationLock → Type 0
Increasing after next [] = Unit
Increasing after next (lock ∷ rest) =
    (after ≤ lock.lock_id) × (lock.lock_id < next) × Increasing (lock.lock_id + 1) next rest

check_lock_ids-Increasing :
    (after next : ℕ) (locks : List AuthorizationLock)
    → check_lock_ids after next locks ≡ some tt
    → Increasing after next locks
unfolding check_lock_ids
check_lock_ids-Increasing after next [] e = tt
check_lock_ids-Increasing after next (lock ∷ rest) e =
    ground (arith, check_lock_ids-Increasing (lock.lock_id + 1) next rest)

-- Each entry has another kind than those behind it.
abbrev pub DistinctKinds : List SwigTailEntry → Type 0
DistinctKinds [] = Unit
DistinctKinds (e ∷ rest) = All (λ f. f.header.kind ≢ e.header.kind) rest × DistinctKinds rest

module _ ⦃kit : Kit⦄ where
  length-decode_locks :
      (value : Bytes) (offset count : ℕ) {locks : List AuthorizationLock}
      → decode_locks value offset count ≡ some locks
      → length locks ≡ count
  unfolding decode_locks
  length-decode_locks value offset zero e = ground arith
  length-decode_locks value offset (suc count) e =
      let (lock, el, e₁) =
        >>=-eq-some (decode read_authorization_lock (slice value offset (offset + 88))) _ e in
      let (rest, er, e₂) = >>=-eq-some (decode_locks value (offset + 88) count) _ e₁ in
      ground (arith, length-decode_locks value (offset + 88) count er)

  -- What passes for one entry.
  pub record Checked (e : SwigTailEntry) : Type 0 where
    pub version : e.header.version ≡ 1
    pub kind_pos : 1 ≤ e.header.kind
    pub kind_le : e.header.kind ≤ 4
    pub kind_checked : check_kind e ≡ some tt

  -- `kind` is none of the kinds seen.
  abbrev Unseen : List ℕ → SwigTailEntry → Type 0
  Unseen seen e = any (λ kind. kind == e.header.kind) seen ≡ false

  check_kind-range :
      (e : SwigTailEntry) → check_kind e ≡ some tt → (1 ≤ e.header.kind) × (e.header.kind ≤ 4)
  unfolding check_kind
  check_kind-range e h = ground arith

  Unseen-tail :
      (k : ℕ) (seen : List ℕ) (es : List SwigTailEntry)
      → All (Unseen (k ∷ seen)) es
      → All (Unseen seen) es × All (λ f. f.header.kind ≢ k) es
  Unseen-tail k seen [] h = (tt, tt)
  Unseen-tail k seen (e ∷ es) h = ground (arith, Unseen-tail k seen es h.1)

  check_entries-Checked :
      (seen : List ℕ) (es : List SwigTailEntry)
      → check_entries seen es ≡ some tt
      → All Checked es × DistinctKinds es × All (Unseen seen) es
  unfolding check_entries
  check_entries-Checked seen [] h = (tt, tt, tt)
  check_entries-Checked seen (e ∷ rest) h =
      let (_, g₁, h₁) = >>=-eq-some (guard (not (any (λ kind. kind == e.header.kind) seen))) _ h in
      let (_, g₂, h₂) = >>=-eq-some (guard (e.header.version == 1)) _ h₁ in
      let (_, c, h₃) = >>=-eq-some (check_kind e) _ h₂ in
      let (all_checked, distinct, unseen) = check_entries-Checked (e.header.kind ∷ seen) rest h₃ in
      let (unseen_rest, others) = Unseen-tail e.header.kind seen rest unseen in
      let range = check_kind-range e c in
      (
        (
          record {
            version = (==_iff _ 1).0 (guard-true _ g₂);
            kind_pos = range.0;
            kind_le = range.1;
            kind_checked = c;
          },
          all_checked,
        ),
        (others, distinct),
        (not-true _ (guard-true _ g₁), unseen_rest),
      )

  -- A tail that `validatedTailEntries` accepts holds the entries that `decodeSwigTail` reads; each
  -- has version 1 and a known kind whose own check it passes, and no kind stands there twice.
  pub validated_tail_entries-Checked :
      (tail : Bytes) (es : List SwigTailEntry)
      → validated_tail_entries tail ≡ some es
      → (decode_swig_tail tail ≡ some es) × All Checked es × DistinctKinds es
  unfolding validated_tail_entries
  validated_tail_entries-Checked tail es h =
      let (entries, d, h₁) = >>=-eq-some (decode_swig_tail tail) _ h in
      let (_, c, h₂) = >>=-eq-some (check_entries [] entries) _ h₁ in
      let same : entries ≡ es = ground (arith, h₂) in
      let (checked, distinct, _) = check_entries-Checked [] es (rw same at c) in
      (rw same at d, checked, distinct)

  length-all_locks :
      (value : Bytes) {locks : List AuthorizationLock}
      → all_locks value ≡ some locks
      → length value ≤ 2816
      → length locks ≤ 32
  unfolding all_locks
  length-all_locks value e h =
      omega (arith, length-decode_locks value 0 ((length value + 87) / 88) e)

  -- An entry that passes the check of its locks, with what that check read.
  record LocksChecked (e : SwigTailEntry) : Type 0 where
    result : SwigAuthorizationLocks
    decoded : locks_of_entry (some e) ≡ some result
    increasing : Increasing 0 result.next_lock_id result.locks
    few : length result.locks ≤ 32

  check_authorization_locks-LocksChecked :
      (e : SwigTailEntry) → check_authorization_locks e ≡ some tt → LocksChecked e
  unfolding check_authorization_locks
  check_authorization_locks-LocksChecked e h =
      let (_, g, h₁) =
        >>=-eq-some (guard (length e.value % 88 == 0 && leb (length e.value) (32 * 88))) _ h in
      let (next, n, h₂) = >>=-eq-some (get_u32 e.header.payload) _ h₁ in
      let (locks, l, h₃) = >>=-eq-some (all_locks e.value) _ h₂ in
      let fits : length e.value ≤ 2816 = ground (arith, guard-true _ g) in
      record {
        result = record { next_lock_id = next; locks = locks };
        decoded = unfold locks_of_entry in rw (n, l);
        increasing = check_lock_ids-Increasing 0 next locks h₃;
        few = length-all_locks e.value l fits;
      }

  locks_kind :
      (e : SwigTailEntry)
      → e.header.kind ≡ 3
      → check_kind e ≡ some tt
      → check_authorization_locks e ≡ some tt
  unfolding check_kind
  locks_kind e three c = rw three at c

  locks_of_found :
      (es : List SwigTailEntry) (found : Option SwigTailEntry)
      → All Checked es
      → find (λ e. e.header.kind == 3) es ≡ found
      → (r : SwigAuthorizationLocks) × (locks_of_entry found ≡ some r)
        × Increasing 0 r.next_lock_id r.locks
        × (length r.locks ≤ 32)
  locks_of_found es none c e =
      (record { next_lock_id = 0; locks = [] }, unfold locks_of_entry in refl, tt, omega arith)
  locks_of_found es (some f) c e =
      let checked = find-All Checked (λ e. e.header.kind == 3) es c e in
      let three : f.header.kind ≡ 3 =
        (==_iff f.header.kind 3).0 (find-some (λ e. e.header.kind == 3) es e) in
      let l = check_authorization_locks-LocksChecked f (locks_kind f three checked.kind_checked) in
      (l.result, l.decoded, l.increasing, l.few)

  -- `decodeAuthorizationLocks` succeeds on every tail that passes `validatedTailEntries`. It returns
  -- at most 32 locks; their ids rise strictly, and all stand below the id of the next lock.
  pub decode_authorization_locks-Increasing :
      (tail : Bytes) (es : List SwigTailEntry)
      → validated_tail_entries tail ≡ some es
      → (r : SwigAuthorizationLocks) × (decode_authorization_locks tail ≡ some r)
        × Increasing 0 r.next_lock_id r.locks
        × (length r.locks ≤ 32)
  unfolding decode_authorization_locks
  decode_authorization_locks-Increasing tail es h =
      let (_, c, _) = validated_tail_entries-Checked tail es h in
      let (r, found, increasing, few) = locks_of_found es _ c refl in
      (r, rw h found, increasing, few)
