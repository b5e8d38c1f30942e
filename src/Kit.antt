-- ===== src/Kit.antt =====
-- What the code uses of the package @solana/kit, which is not part of the repository: the codecs of
-- unsigned integers and of byte arrays of a fixed size, and the Base58 text of an address.
-- The operations are fields, and the documented behaviour is stated by the laws among the fields.
-- A struct codec runs the codecs of its fields one after the other, and `decode` reads from the
-- front and ignores what is left: `Reader`, `◌>>=◌`, `then_write` and `decode` write that out.
pub mod Laws
pub mod LittleEndian
pub mod Arrays
use swig_protocol_sdk.Common.{
  ℕ, ◌-◌, ◌^◌, ◌≤◌, ◌<◌, ◌≡◌, Bool, Option, none, some, [], ◌++◌, Bytes, length, take, drop, zeros,
  leb, if◌then◌else◌,
}

-- `getU8Encoder`, `getU16Encoder`, … are `write_uint 1`, `write_uint 2`, …, by the width in bytes;
-- `fixEncoderSize(getBytesEncoder(), n)` is `write_fixed n`, which cuts or pads with zeros.
pub record Kit : Type 0 where
  pub write_uint : ℕ → ℕ → Option Bytes
  pub read_uint : ℕ → Bytes → Option (ℕ × Bytes)
  pub write_fixed : ℕ → Bytes → Bytes
  pub read_fixed : ℕ → Bytes → Option (Bytes × Bytes)
  -- `getBooleanEncoder`, one byte
  pub write_bool : Bool → Bytes
  pub read_bool : Bytes → Option (Bool × Bytes)
  pub base58 : Bytes → Bytes
  -- `getAddressEncoder().encode`, from the text
  pub from_base58 : Bytes → Bytes
  -- a number in range is written in as many bytes as the width says
  pub write_in_range :
      (w n : ℕ) → n < 256 ^ w → (b : Bytes) × (write_uint w n ≡ some b) × (length b ≡ w)
  -- any other is refused
  pub write_out_of_range : (w n : ℕ) → 256 ^ w ≤ n → write_uint w n ≡ none
  -- what was written is read back, whatever follows it
  pub read_written :
      (w n : ℕ) (b rest : Bytes)
      → write_uint w n ≡ some b
      → read_uint w (b ++ rest) ≡ some (n, rest)
  -- too few bytes are refused
  pub read_short : (w : ℕ) (bs : Bytes) → length bs < w → read_uint w bs ≡ none
  -- enough bytes give a number in range, and the rest of them
  pub read_enough :
      (w : ℕ) (bs : Bytes)
      → w ≤ length bs
      → (n : ℕ) × (read_uint w bs ≡ some (n, drop w bs)) × (n < 256 ^ w)
  pub write_fixed_lem : (n : ℕ) (b : Bytes) → write_fixed n b ≡ take n b ++ zeros (n - length b)
  pub read_fixed_lem :
      (n : ℕ) (bs : Bytes)
      → read_fixed n bs ≡ (if leb n (length bs) then some (take n bs, drop n bs) else none)
  pub length-write_bool : (b : Bool) → length (write_bool b) ≡ 1
  pub read_written_bool :
      (b : Bool) (rest : Bytes) → read_bool (write_bool b ++ rest) ≡ some (b, rest)
  -- the text of an address is read back
  pub from_base58_lem : (a : Bytes) → length a ≡ 32 → from_base58 (base58 a) ≡ a

-- A decoder's `read`: the value, and the bytes behind it.
abbrev pub Reader {ℓ} : Type ℓ → Type ℓ
Reader A = Bytes → Option (A × Bytes)

infixl 5 ◌>>=◌
abbrev pub ◌>>=◌ {ℓ κ} : {A : Type ℓ} {B : Type κ} → Reader A → (A → Reader B) → Reader B
◌>>=◌ d f bs = elim (d bs) [ none ↦ none | some (a, rest) ↦ f a rest ]

abbrev pub pure {ℓ} : {A : Type ℓ} → A → Reader A
pure a bs = some (a, bs)

-- `getBytesDecoder()` with no size: all that is left.
abbrev pub read_rest : Reader Bytes
read_rest bs = some (bs, [])

-- `decoder.decode(bytes)`.
abbrev pub decode {ℓ} : {A : Type ℓ} → Reader A → Bytes → Option A
decode d bs = elim (d bs) [ none ↦ none | some (a, rest) ↦ some a ]

-- Two fields of a struct encoder, one after the other.
infixr 64 ◌then_write◌
abbrev pub ◌then_write◌ : Option Bytes → Option Bytes → Option Bytes
none then_write m = none
some a then_write none = none
some a then_write some b = some (a ++ b)

-- `write` puts down `w` bytes from which `read` takes `x` back, whatever follows.
pub record Encodes {ℓ} {A : Type ℓ} (write : Option Bytes) (w : ℕ) (read : Reader A) (x : A)
    : Type ℓ where
  pub bytes : Bytes
  pub written : write ≡ some bytes
  pub width : length bytes ≡ w
  pub reads : (rest : Bytes) → read (bytes ++ rest) ≡ some (x, rest)

-- The same where nothing follows, since `read` takes all that is left.
pub record EncodesAll {ℓ} {A : Type ℓ} (write : Option Bytes) (w : ℕ) (read : Reader A) (x : A)
    : Type ℓ where
  pub bytes : Bytes
  pub written : write ≡ some bytes
  pub width : length bytes ≡ w
  pub reads : decode read bytes ≡ some x

-- `getEnumEncoder(E, { size })` and `getEnumDecoder(E, { size })`: the variant's number in `w` bytes;
-- a number that stands for no variant is refused. The numbers of the variants are the enum's own.
module _ ⦃kit : Kit⦄ {E : Type 0} where
  abbrev pub write_enum : (E → ℕ) → ℕ → E → Option Bytes
  write_enum code w e = kit.write_uint w (code e)

  abbrev pub read_enum : (ℕ → Option E) → ℕ → Reader E
  read_enum variant w bs = elim (kit.read_uint w bs) [
    | none ↦ none
    | some (n, rest) ↦ elim (variant n) [ none ↦ none | some e ↦ some (e, rest) ]
  ]
