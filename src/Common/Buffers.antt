-- ===== src/Common/Buffers.antt =====
-- Byte arrays, and the parts of them that are cut out or written over.
use Prim.Native.Nat.{ℕ, zero, suc, ◌+◌, ◌-◌, ◌*◌, ◌/◌, ◌%◌, ◌^◌, ◌≤◌, ◌<◌}
use mathlib.Core.Path.{◌≡◌, refl, ap, sym}
use mathlib.Core.Bool.{Bool, true, false, ◌&&◌}
use mathlib.Core.Logic.{◌↔◌}
use mathlib.Core.List.{List, [], ◌∷◌, ◌++◌}
use mathlib.Core.Option.{Option, none, some}
use native.Mathlib.Omega.{arith}
use swig_protocol_sdk.Common.Tests.{if◌then◌else◌, ◌==◌, leb, le→leb}
use swig_protocol_sdk.Common.Lists.{
  length, take, drop, replicate, length-append, length-take, length-drop, take-append-drop,
  take-append, drop-append, drop-drop,
}

-- A `Uint8Array` is the list of its bytes.
abbrev pub Bytes : Type 0
Bytes = List ℕ

-- `new Uint8Array(n)`.
abbrev pub zeros : ℕ → Bytes
zeros n = replicate n 0

-- `Uint8Array.prototype.slice(from, to)`: the ends are clamped to the array.
abbrev pub slice : Bytes → ℕ → ℕ → Bytes
slice bs from to = take (to - from) (drop from bs)

-- `a.set(data, offset)`: a `RangeError` where the data does not fit.
abbrev pub set_bytes : Bytes → Bytes → ℕ → Option Bytes
set_bytes bs source offset =
    if leb (offset + length source) (length bs)
    then some (take offset bs ++ (source ++ drop (offset + length source) bs))
    else none

-- `DataView.prototype.setUint32(0, n, true)` on four bytes, and `getUint32(0, true)`.
abbrev pub u32_bytes : ℕ → Bytes
u32_bytes n = n % 256 ∷ n / 256 % 256 ∷ n / 65536 % 256 ∷ n / 16777216 % 256 ∷ []

abbrev pub get_u32 : Bytes → Option ℕ
get_u32 (a ∷ b ∷ c ∷ d ∷ rest) = some (a + 256 * b + 65536 * c + 16777216 * d)
get_u32 _ = none

-- Byte arrays compared element by element.
abbrev pub bytes_equal : Bytes → Bytes → Bool
bytes_equal [] [] = true
bytes_equal (a ∷ as') (b ∷ bs) = a == b && bytes_equal as' bs
bytes_equal _ _ = false

pub bytes_equal_iff : (a b : Bytes) → (bytes_equal a b ≡ true) ↔ (a ≡ b)
bytes_equal_iff (x ∷ a) (y ∷ b) = ground (arith, bytes_equal_iff a b)
bytes_equal_iff _ _ = ground arith

pub get_u32-bytes : (n : ℕ) (rest : Bytes) → n < 2 ^ 32 → get_u32 (u32_bytes n ++ rest) ≡ some n
get_u32-bytes n rest h = ap some (omega arith)

pub zeros-add : (m n : ℕ) → zeros (m + n) ≡ zeros m ++ zeros n
zeros-add zero n = ap zeros (omega arith)
zeros-add (suc m) n = let e : suc m + n ≡ suc (m + n) = omega arith in rw (e, zeros-add m n)

-- A write over a stretch of the same length.
pub set_bytes-middle :
    (front old back new : Bytes)
    → length old ≡ length new
    → set_bytes (front ++ (old ++ back)) new (length front) ≡ some (front ++ (new ++ back))
set_bytes-middle front old back new h = rw (
  fits,
  take-append (length front) front (old ++ back) refl,
  ← drop-drop (length front) (length new) (front ++ (old ++ back)),
  drop-append (length front) front (old ++ back) refl,
  drop-append (length new) old back h,
)
  where
    fits : leb (length front + length new) (length (front ++ (old ++ back))) ≡ true
    fits = le→leb _ _ (omega (arith, length-append front (old ++ back), length-append old back, h))

pub slice-middle :
    (front mid back : Bytes) (from to : ℕ)
    → length front ≡ from
    → from + length mid ≡ to
    → slice (front ++ (mid ++ back)) from to ≡ mid
slice-middle front mid back from to hf ht =
    rw (drop-append from front (mid ++ back) hf, take-append (to - from) mid back (omega arith))

-- A stretch of a buffer, and what follows it.
pub drop-slice :
    (bs : Bytes) (from n : ℕ) → drop from bs ≡ slice bs from (from + n) ++ drop (from + n) bs
drop-slice bs from n =
    let e : from + n - from ≡ n = omega arith in
    rw (e, ← drop-drop from n bs) (sym (take-append-drop n (drop from bs)))

pub length-slice :
    (bs : Bytes) (from n : ℕ) → from + n ≤ length bs → length (slice bs from (from + n)) ≡ n
length-slice bs from n h =
    omega (arith, length-take (from + n - from) (drop from bs), length-drop from bs)
