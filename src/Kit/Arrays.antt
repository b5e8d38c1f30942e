-- ===== src/Kit/Arrays.antt =====
-- The array codecs of the package @solana/kit, built from its codecs of integers: the number of items
-- in `w` bytes, then the items, and `addEncoderSizePrefix` of a byte array.
use swig_protocol_sdk.Common.{
  ℕ, zero, suc, ◌+◌, ◌^◌, ◌<◌, refl, Option, none, some, List, [], ◌∷◌, ◌++◌, Bytes, length, take,
  drop, All, leb, le→leb, if◌then◌else◌, arith, length-append, take-append, drop-append,
}
use swig_protocol_sdk.Kit.{Kit, Reader, ◌>>=◌, pure, ◌then_write◌, Encodes}
use swig_protocol_sdk.Kit.Laws.{Encodes-then, Encodes-last, Encodes-uint}

module _ {A : Type 0} where
  abbrev pub write_items : (A → Option Bytes) → List A → Option Bytes
  write_items enc [] = some []
  write_items enc (x ∷ xs) = enc x then_write write_items enc xs

  abbrev pub read_items : ℕ → Reader A → Reader (List A)
  read_items zero d = pure []
  read_items (suc n) d = d >>= λ x. read_items n d >>= λ xs. pure (x ∷ xs)

  -- The bytes of all items.
  abbrev pub total : (A → ℕ) → List A → ℕ
  total size [] = 0
  total size (x ∷ xs) = size x + total size xs

  pub Encodes-items :
      (enc : A → Option Bytes) (d : Reader A) (size : A → ℕ) (xs : List A)
      → All (λ x. Encodes (enc x) (size x) d x) xs
      → Encodes (write_items enc xs) (total size xs) (read_items (length xs) d) xs
  Encodes-items enc d size [] h = record {
    bytes = [];
    written = refl;
    width = refl;
    reads = λ rest. refl;
  }
  Encodes-items enc d size (x ∷ xs) (e, h) =
      Encodes-then _ e (Encodes-last _ (Encodes-items enc d size xs h))

-- A byte array behind its length: `n` bytes from the front.
abbrev pub read_exactly : ℕ → Reader Bytes
read_exactly n bs = if leb n (length bs) then some (take n bs, drop n bs) else none

Encodes-exactly : (b : Bytes) → Encodes (some b) (length b) (read_exactly (length b)) b
Encodes-exactly b = record {
  bytes = b;
  written = refl;
  width = refl;
  reads = λ rest. rw (
    le→leb (length b) (length (b ++ rest)) (omega (arith, length-append b rest)),
    take-append (length b) b rest refl,
    drop-append (length b) b rest refl,
  );
}

module _ ⦃kit : Kit⦄ where
  -- `getArrayEncoder(item, { size })` and `getArrayDecoder(item, { size })`
  abbrev pub write_array : {A : Type 0} → ℕ → (A → Option Bytes) → List A → Option Bytes
  write_array w enc xs = kit.write_uint w (length xs) then_write write_items enc xs

  abbrev pub read_array : {A : Type 0} → ℕ → Reader A → Reader (List A)
  read_array w d = kit.read_uint w >>= λ n. read_items n d

  -- `addEncoderSizePrefix(getBytesEncoder(), size)`
  abbrev pub write_prefixed : ℕ → Bytes → Option Bytes
  write_prefixed w b = kit.write_uint w (length b) then_write some b

  abbrev pub read_prefixed : ℕ → Reader Bytes
  read_prefixed w = kit.read_uint w >>= read_exactly

  pub Encodes-array :
      {A : Type 0} (enc : A → Option Bytes) (d : Reader A) (w : ℕ) (size : A → ℕ) (xs : List A)
      → length xs < 256 ^ w
      → All (λ x. Encodes (enc x) (size x) d x) xs
      → Encodes (write_array w enc xs) (w + total size xs) (read_array w d) xs
  Encodes-array enc d w size xs h es =
      Encodes-then _ (Encodes-uint w (length xs) h) (Encodes-items enc d size xs es)

  pub Encodes-prefixed :
      (w : ℕ) (b : Bytes)
      → length b < 256 ^ w
      → Encodes (write_prefixed w b) (w + length b) (read_prefixed w) b
  Encodes-prefixed w b h = Encodes-then _ (Encodes-uint w (length b) h) (Encodes-exactly b)
