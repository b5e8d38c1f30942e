-- ===== src/Reservation.antt =====
-- lib/src/reservation.ts: the package of a reservation, which fixes an address before the account
-- exists. The curves are those of the package @noble/curves, which is not part of the repository.
pub mod Canonical
pub mod Package
pub mod Accepted
mod Tests
use swig_protocol_sdk.Instructions.Keys.{sol_public_key}
use swig_protocol_sdk.Common.{
  ℕ, ◌+◌, ◌*◌, ◌/◌, ◌%◌, ◌≡◌, Bool, true, false, not, ◌&&◌, ◌||◌, Option, none, some, List, [], ◌∷◌,
  if◌then◌else◌, ltb, ◌==◌, Bytes, length, slice, drop, zeros, set_bytes, u32_bytes, bytes_equal,
  guard, ◌>>=◌, ◌>>◌,
}
use swig_protocol_sdk.Coder.AuthorityTypes.{AuthorityType, authority_type_code}

-- `key[0] === b`.
abbrev pub first_is : ℕ → Bytes → Bool
first_is b [] = false
first_is b (x ∷ rest) = x == b

-- What the code uses of the curves. The laws state what the package documents: the width of a
-- point's bytes, and that the compressed bytes of a point are read as that point.
pub record Curves : Type 0 where
  -- `ed25519.ExtendedPoint.fromHex(key, false).toRawBytes()`
  pub ed25519_raw : Bytes → Option Bytes
  pub ed25519_is_small_order : Bytes → Bool
  -- `ProjectivePoint.fromHex(sec1).toRawBytes(true)` of each curve
  pub secp256k1_compressed : Bytes → Option Bytes
  pub p256_compressed : Bytes → Option Bytes
  pub ed25519_width : (key c : Bytes) → ed25519_raw key ≡ some c → length c ≡ 32
  pub secp256k1_lem :
      (key c : Bytes)
      → secp256k1_compressed key ≡ some c
      → (length c ≡ 33)
        × ((first_is 2 c || first_is 3 c) ≡ true)
        × (secp256k1_compressed c ≡ some c)
  pub p256_lem :
      (key c : Bytes)
      → p256_compressed key ≡ some c
      → (length c ≡ 33) × ((first_is 2 c || first_is 3 c) ≡ true) × (p256_compressed c ≡ some c)

abbrev pub header_length : ℕ
header_length = 67

pub data ReservationAddressOptions : Type 0 where
  account_index : ℕ → ReservationAddressOptions
  salt : Bytes → ReservationAddressOptions

pub record ReservationV1 : Type 0 where
  pub package_bytes : Bytes

-- `setUint16(0, n, true)` and `getUint16(0, true)`.
abbrev pub u16_bytes : ℕ → Bytes
u16_bytes n = n % 256 ∷ n / 256 % 256 ∷ []

abbrev pub get_u16 : Bytes → Option ℕ
get_u16 (a ∷ b ∷ rest) = some (a + 256 * b)
get_u16 _ = none

-- The salt that the options stand for.
unfoldable pub salt_of : Option ReservationAddressOptions → Option Bytes
salt_of none = some (zeros 32)
salt_of (some (salt bytes)) = do guard (length bytes == 32); set_bytes (zeros 32) bytes 0
salt_of (some (account_index index)) = do
  guard (not (ltb 0xffffffff index))
  set_bytes (zeros 32) (u32_bytes index) 28

unfoldable pub is_sec1 : Bytes → Bool
is_sec1 sec1 =
    (length sec1 == 33 && (first_is 2 sec1 || first_is 3 sec1))
    || (length sec1 == 65 && first_is 4 sec1)

-- secp256k1 keys of 64 bytes lack the prefix of an uncompressed point.
unfoldable pub sec1_of : ℕ → Bytes → Bytes
unfolding authority_type_code
sec1_of type key =
    if type == authority_type_code AuthorityType.secp256k1 && length key == 64 then 4 ∷ key else key

module _ ⦃curves : Curves⦄ where
  unfoldable pub canonical_ed25519 : Bytes → Option Bytes
  canonical_ed25519 key = do
    canonical ← curves.ed25519_raw key
    guard (not (curves.ed25519_is_small_order key) && bytes_equal key canonical)
    some canonical

  unfoldable pub canonical_sec1 : ℕ → Bytes → Option Bytes
  unfolding authority_type_code is_sec1
  canonical_sec1 type sec1 = do
    guard (is_sec1 sec1)
    if type == authority_type_code AuthorityType.secp256k1
        then curves.secp256k1_compressed sec1
        else curves.p256_compressed sec1

  -- `canonicalPublicKey`, of the number of the authority's type.
  unfoldable pub canonical_public_key : ℕ → Bytes → Option Bytes
  unfolding authority_type_code canonical_ed25519 canonical_sec1 sec1_of
  canonical_public_key type key =
      if type == authority_type_code AuthorityType.ed25519
      then canonical_ed25519 key
      else if type == authority_type_code AuthorityType.secp256k1
          || type == authority_type_code AuthorityType.secp256r1
      then canonical_sec1 type (sec1_of type key)
      else none

  -- The constructor, which checks a package.
  unfoldable pub reservation_v1 : Bytes → Bytes → Option ReservationV1
  unfolding authority_type_code
  reservation_v1 bytes expected_program_id = do
    guard ((length bytes == 99 || length bytes == 100) && first_is 1 bytes)
    expected ← sol_public_key expected_program_id
    guard (bytes_equal (slice bytes 1 33) expected)
    type ← get_u16 (drop 65 bytes)
    guard (
        not (
          (type == authority_type_code AuthorityType.ed25519 && not (length bytes == 99))
          || ((type == authority_type_code AuthorityType.secp256k1
                || type == authority_type_code AuthorityType.secp256r1)
              && not (length bytes == 100))))
    canonical ← canonical_public_key type (drop header_length bytes)
    guard (bytes_equal (drop header_length bytes) canonical)
    some (record { package_bytes = bytes })

  -- `ReservationV1.fromBytes`.
  unfoldable pub from_bytes : Bytes → Bytes → Option ReservationV1
  from_bytes bytes expected_program_id = reservation_v1 bytes expected_program_id

  -- `ReservationV1.create`.
  unfoldable pub create :
      Bytes → ℕ → Bytes → Option ReservationAddressOptions → Option ReservationV1
  unfolding canonical_public_key salt_of
  create program_id type key options = do
    program ← sol_public_key program_id
    public_key ← canonical_public_key type key
    address_salt ← salt_of options
    b₁ ← set_bytes (zeros (header_length + length public_key)) (1 ∷ []) 0
    b₂ ← set_bytes b₁ program 1
    b₃ ← set_bytes b₂ address_salt 33
    b₄ ← set_bytes b₃ (u16_bytes type) 65
    bytes ← set_bytes b₄ public_key header_length
    reservation_v1 bytes program

-- `toBytes`.
unfoldable pub to_bytes : ReservationV1 → Bytes
to_bytes r = r.package_bytes
