-- ===== src/Kit/LittleEndian.antt =====
-- A kit by little-endian digits, which shows that the laws of `Kit` can hold, and runs in the tests.
use native.Mathlib.Nat.{pow-suc}
use swig_protocol_sdk.Common.{
  ℕ, zero, suc, ◌+◌, ◌-◌, ◌*◌, ◌/◌, ◌%◌, ◌^◌, ◌≤◌, ◌<◌, ◌≡◌, ◌==◌, Bool, true, false, refl, ap,
  Option, none, some, [], ◌∷◌, ◌++◌, Bytes, length, take, drop, zeros, arith, leb, ltb, le→leb,
  if◌then◌else◌, length-append, take-append, drop-append, length-take,
}
use swig_protocol_sdk.Kit.{Kit}

unfoldable pub le_digits : ℕ → ℕ → Bytes
le_digits zero n = []
le_digits (suc w) n = n % 256 ∷ le_digits w (n / 256)

unfoldable pub le_value : Bytes → ℕ
le_value [] = 0
le_value (b ∷ bs) = b % 256 + 256 * le_value bs

unfoldable pub write_le : ℕ → ℕ → Option Bytes
unfolding le_digits
write_le w n = if ltb n (256 ^ w) then some (le_digits w n) else none

unfoldable pub read_le : ℕ → Bytes → Option (ℕ × Bytes)
unfolding le_value
read_le w bs = if leb w (length bs) then some (le_value (take w bs), drop w bs) else none

length-le_digits : (w n : ℕ) → length (le_digits w n) ≡ w
unfolding le_digits
length-le_digits zero n = refl
length-le_digits (suc w) n = ap suc (length-le_digits w (n / 256))

le_value-digits : (w n : ℕ) → n < 256 ^ w → le_value (le_digits w n) ≡ n
unfolding le_digits le_value
le_value-digits zero n h = omega arith
le_value-digits (suc w) n h =
    omega (arith, le_value-digits w (n / 256) (omega (arith, pow-suc 256 w)))

le_value-lt : (bs : Bytes) → le_value bs < 256 ^ length bs
unfolding le_value
le_value-lt [] = omega arith
le_value-lt (b ∷ bs) = omega (arith, le_value-lt bs, pow-suc 256 (length bs))

pub write_le_in : (w n : ℕ) → n < 256 ^ w → (b : Bytes) × (write_le w n ≡ some b) × (length b ≡ w)
unfolding write_le
write_le_in w n h = (le_digits w n, ground arith, length-le_digits w n)

pub write_le_out : (w n : ℕ) → 256 ^ w ≤ n → write_le w n ≡ none
unfolding write_le
write_le_out w n h = ground arith

pub read-write_le :
    (w n : ℕ) (b rest : Bytes) → write_le w n ≡ some b → read_le w (b ++ rest) ≡ some (n, rest)
unfolding write_le read_le
read-write_le w n b rest e = ground (
  arith,
  length-le_digits w n,
  length-append (le_digits w n) rest,
  take-append w (le_digits w n) rest,
  drop-append w (le_digits w n) rest,
  le_value-digits w n,
)

pub read_le_short : (w : ℕ) (bs : Bytes) → length bs < w → read_le w bs ≡ none
unfolding read_le
read_le_short w bs h = ground arith

pub read_le_enough :
    (w : ℕ) (bs : Bytes)
    → w ≤ length bs
    → (n : ℕ) × (read_le w bs ≡ some (n, drop w bs)) × (n < 256 ^ w)
unfolding read_le
read_le_enough w bs h = (
  le_value (take w bs),
  rw (le→leb w (length bs) h),
  let whole : length (take w bs) ≡ w = omega (arith, length-take w bs) in
      rw whole at (le_value-lt (take w bs)),
)

abbrev pub bool_bytes : Bool → Bytes
bool_bytes true = 1 ∷ []
bool_bytes false = 0 ∷ []

abbrev pub bool_read : Bytes → Option (Bool × Bytes)
bool_read [] = none
bool_read (b ∷ rest) = some (b == 1, rest)

pub length-bool_bytes : (b : Bool) → length (bool_bytes b) ≡ 1
length-bool_bytes true = refl
length-bool_bytes false = refl

pub bool_read-bytes : (b : Bool) (rest : Bytes) → bool_read (bool_bytes b ++ rest) ≡ some (b, rest)
bool_read-bytes true rest = refl
bool_read-bytes false rest = refl

instance abbrev pub little_endian : Kit
little_endian = record {
  write_uint = write_le;
  read_uint = read_le;
  write_fixed = λ n b. take n b ++ zeros (n - length b);
  read_fixed = λ n bs. if leb n (length bs) then some (take n bs, drop n bs) else none;
  write_bool = bool_bytes;
  read_bool = bool_read;
  base58 = λ b. b;
  from_base58 = λ b. b;
  write_in_range = write_le_in;
  write_out_of_range = write_le_out;
  read_written = read-write_le;
  read_short = read_le_short;
  read_enough = read_le_enough;
  write_fixed_lem = λ n b. refl;
  read_fixed_lem = λ n bs. refl;
  length-write_bool = length-bool_bytes;
  read_written_bool = bool_read-bytes;
  from_base58_lem = λ a h. refl;
}
