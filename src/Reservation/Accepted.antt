-- ===== src/Reservation/Accepted.antt =====
-- What a package that `fromBytes` accepts is known to hold.
use swig_protocol_sdk.Common.{
  ℕ, ◌≡◌, sym, ap, ◌∙◌, Bool, true, not, ◌&&◌, ◌||◌, Option, some, if◌then◌else◌, ◌==◌, Bytes,
  length, slice, drop, bytes_equal, bytes_equal_iff, guard, guard-true, >>=-eq-some, arith,
}
use swig_protocol_sdk.Coder.AuthorityTypes.{authority_type_code}
use swig_protocol_sdk.Instructions.Keys.{sol_public_key}
use swig_protocol_sdk.Reservation.{
  Curves, ReservationV1, first_is, get_u16, canonical_public_key, reservation_v1, from_bytes,
  to_bytes,
}
use swig_protocol_sdk.Reservation.Canonical.{canonical_public_key-canonical_public_key}

module _ ⦃curves : Curves⦄ where
  -- The checks that were passed.
  record Checks (bytes expected_program_id : Bytes) (r : ReservationV1) : Type 0 where
    expected : Bytes
    type : ℕ
    canonical : Bytes
    start : ((length bytes == 99 || length bytes == 100) && first_is 1 bytes) ≡ true
    expected_is : sol_public_key expected_program_id ≡ some expected
    program : bytes_equal (slice bytes 1 33) expected ≡ true
    type_is : get_u16 (drop 65 bytes) ≡ some type
    sized :
        not (
          (type == 1 && not (length bytes == 99))
          || ((type == 3 || type == 5) && not (length bytes == 100)))
        ≡ true
    canonical_is : canonical_public_key type (drop 67 bytes) ≡ some canonical
    own : bytes_equal (drop 67 bytes) canonical ≡ true
    kept : ◌≡◌ {A = Option ReservationV1} (some (record { package_bytes = bytes })) (some r)

  checks :
      (bytes expected_program_id : Bytes) (r : ReservationV1)
      → reservation_v1 bytes expected_program_id ≡ some r
      → Checks bytes expected_program_id r
  unfolding reservation_v1 authority_type_code
  checks bytes expected_program_id r e =
      let (_, g₁, e₁) =
        >>=-eq-some (guard ((length bytes == 99 || length bytes == 100) && first_is 1 bytes)) _ e in
      let (expected, p, e₂) = >>=-eq-some (sol_public_key expected_program_id) _ e₁ in
      let (_, g₃, e₃) = >>=-eq-some (guard (bytes_equal (slice bytes 1 33) expected)) _ e₂ in
      let (type, t, e₄) = >>=-eq-some (get_u16 (drop 65 bytes)) _ e₃ in
      let (_, g₅, e₅) =
        >>=-eq-some
          (guard (
            not (
              (type == 1 && not (length bytes == 99))
              || ((type == 3 || type == 5) && not (length bytes == 100)))))
          _ e₄ in
      let (canonical, c, e₆) = >>=-eq-some (canonical_public_key type (drop 67 bytes)) _ e₅ in
      let (_, g₇, e₇) = >>=-eq-some (guard (bytes_equal (drop 67 bytes) canonical)) _ e₆ in
      record {
        expected = expected;
        type = type;
        canonical = canonical;
        start = guard-true _ g₁;
        expected_is = p;
        program = guard-true _ g₃;
        type_is = t;
        sized = guard-true _ g₅;
        canonical_is = c;
        own = guard-true _ g₇;
        kept = e₇;
      }

  sol_public_key_lem :
      (p : Bytes) {expected : Bytes} → sol_public_key p ≡ some expected → p ≡ expected
  unfolding sol_public_key
  sol_public_key_lem p e = ground (arith, e)

  size_of :
      (n type : ℕ)
      → (n == 99 || n == 100) ≡ true
      → not ((type == 1 && not (n == 99)) || ((type == 3 || type == 5) && not (n == 100))) ≡ true
      → (type == 1 || (type == 3 || type == 5)) ≡ true
      → n ≡ (if type == 1 then 99 else 100)
  size_of n type h s k = ground arith

  -- A package that `fromBytes` accepts is kept as it is. It starts with the byte 1 and holds the
  -- expected program id; the owner's type in it is one of the three, the package has that type's
  -- length, and the owner's key behind the header is its own canonical form.
  pub from_bytes-canonical_public_key :
      (bytes expected_program_id : Bytes) (r : ReservationV1)
      → from_bytes bytes expected_program_id ≡ some r
      → (to_bytes r ≡ bytes)
        × (first_is 1 bytes ≡ true)
        × (slice bytes 1 33 ≡ expected_program_id)
        × ((type : ℕ) × (get_u16 (drop 65 bytes) ≡ some type)
            × ((type == 1 || (type == 3 || type == 5)) ≡ true)
            × (length bytes ≡ (if type == 1 then 99 else 100))
            × (canonical_public_key type (drop 67 bytes) ≡ some (drop 67 bytes)))
  unfolding from_bytes to_bytes
  from_bytes-canonical_public_key bytes expected_program_id r e =
      let s = checks bytes expected_program_id r e in
      let own : drop 67 bytes ≡ s.canonical = (bytes_equal_iff _ _).0 s.own in
      let (_, _, known) =
        canonical_public_key-canonical_public_key s.type (drop 67 bytes) s.canonical
          s.canonical_is in
      let (either, first) = both _ _ s.start in
      (
        kept_bytes bytes r s.kept,
        first,
        (bytes_equal_iff _ _).0 s.program
            ∙ sym (sol_public_key_lem expected_program_id s.expected_is),
        (
          s.type,
          s.type_is,
          known,
          size_of (length bytes) s.type either s.sized known,
          s.canonical_is ∙ ap some (sym own),
        ),
      )
    where
      both : (a b : Bool) → (a && b) ≡ true → (a ≡ true) × (b ≡ true)
      both a b h = ground arith

      kept_bytes :
          (bytes : Bytes) (r : ReservationV1)
          → ◌≡◌ {A = Option ReservationV1} (some (record { package_bytes = bytes })) (some r)
          → r.package_bytes ≡ bytes
      kept_bytes bytes r e = ground (arith, e)
