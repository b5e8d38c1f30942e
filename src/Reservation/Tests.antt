-- ===== src/Reservation/Tests.antt =====
-- lib/src/reservation.ts: packages of two owners, run with curves that take every key of the right
-- form for a point.
use swig_protocol_sdk.Instructions.Keys.{sol_public_key}
use swig_protocol_sdk.Common.{
  ℕ, ◌≡◌, refl, true, false, ◌&&◌, ◌||◌, Option, none, some, ◌∷◌, ◌++◌, if◌then◌else◌, ◌==◌, Bytes,
  length, slice, drop, zeros, replicate, u32_bytes, arith,
}
use swig_protocol_sdk.Coder.AuthorityTypes.{authority_type_code}
use swig_protocol_sdk.Reservation.{
  Curves, ReservationV1, first_is, is_sec1, get_u16, salt_of, canonical_ed25519, sec1_of,
  canonical_sec1, canonical_public_key, reservation_v1, from_bytes, create, to_bytes, account_index,
}
use swig_protocol_sdk.Reservation.Package.{package_of, create-package_of}
use swig_protocol_sdk.Reservation.Accepted.{from_bytes-canonical_public_key}

abbrev edwards : Bytes → Option Bytes
edwards key = if length key == 32 then some key else none

abbrev weierstrass : Bytes → Option Bytes
weierstrass key = if length key == 33 && (first_is 2 key || first_is 3 key) then some key else none

edwards_width : (key c : Bytes) → edwards key ≡ some c → length c ≡ 32
edwards_width key c e = ground arith

weierstrass_lem :
    (key c : Bytes)
    → weierstrass key ≡ some c
    → (length c ≡ 33) × ((first_is 2 c || first_is 3 c) ≡ true) × (weierstrass c ≡ some c)
weierstrass_lem key c e = ground arith

instance abbrev sample_curves : Curves
sample_curves = record {
  ed25519_raw = edwards;
  ed25519_is_small_order = λ key. false;
  secp256k1_compressed = weierstrass;
  p256_compressed = weierstrass;
  ed25519_width = edwards_width;
  secp256k1_lem = weierstrass_lem;
  p256_lem = weierstrass_lem;
}

abbrev program : Bytes
program = replicate 32 3

abbrev owner : Bytes
owner = replicate 32 7

owner_canonical : canonical_public_key 1 owner ≡ some owner
unfolding canonical_public_key canonical_ed25519 authority_type_code
owner_canonical = refl

index_salt : salt_of (some (account_index 5)) ≡ some (zeros 28 ++ u32_bytes 5)
unfolding salt_of
index_salt = refl

create-package_of_example :
    (r : ReservationV1) × (create program 1 owner (some (account_index 5)) ≡ some r)
    × (to_bytes r ≡ package_of program (zeros 28 ++ u32_bytes 5) 1 owner)
    × (length (to_bytes r) ≡ (if 1 == 1 then 99 else 100))
    × (from_bytes (to_bytes r) program ≡ some r)
create-package_of_example =
    create-package_of program 1 owner (some (account_index 5)) (zeros 28 ++ u32_bytes 5) owner refl
      owner_canonical index_salt

-- A package with a secp256k1 owner.
abbrev bytes : Bytes
bytes = package_of program (zeros 32) 3 (2 ∷ owner)

bytes_accepted : from_bytes bytes program ≡ some (record { package_bytes = bytes })
unfolding from_bytes reservation_v1 sol_public_key canonical_public_key canonical_sec1 sec1_of
    is_sec1 authority_type_code
bytes_accepted = refl

from_bytes-canonical_public_key_example :
    (to_bytes (record { package_bytes = bytes }) ≡ bytes)
    × (first_is 1 bytes ≡ true)
    × (slice bytes 1 33 ≡ program)
    × ((type : ℕ) × (get_u16 (drop 65 bytes) ≡ some type)
        × ((type == 1 || (type == 3 || type == 5)) ≡ true)
        × (length bytes ≡ (if type == 1 then 99 else 100))
        × (canonical_public_key type (drop 67 bytes) ≡ some (drop 67 bytes)))
from_bytes-canonical_public_key_example =
    from_bytes-canonical_public_key bytes program (record { package_bytes = bytes }) bytes_accepted
