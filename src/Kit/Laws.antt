-- ===== src/Kit/Laws.antt =====
-- How a struct codec's round trip follows from those of its fields.
use swig_protocol_sdk.Common.{
  ℕ, ◌+◌, ◌-◌, ◌^◌, ◌<◌, ◌≡◌, refl, ap, Bool, ◌∙◌, Option, some, [], ◌++◌, append_assoc, append-nil,
  Bytes, length, arith, le→leb, length-append, take-append, drop-append, take-length,
}
use swig_protocol_sdk.Kit.{
  Kit, Reader, ◌>>=◌, pure, decode, read_rest, ◌then_write◌, Encodes, EncodesAll, write_enum,
  read_enum,
}

module _ {ℓ κ} {A : Type ℓ} {B : Type κ} where
  -- a field, and the fields behind it
  pub Encodes-then :
      {o₁ o₂ : Option Bytes} {w₁ w₂ : ℕ} {d : Reader A} (f : A → Reader B) {x : A} {y : B}
      → Encodes o₁ w₁ d x
      → Encodes o₂ w₂ (f x) y
      → Encodes (o₁ then_write o₂) (w₁ + w₂) (d >>= f) y
  Encodes-then f e₁ e₂ = record {
    bytes = e₁.bytes ++ e₂.bytes;
    written = rw (e₁.written, e₂.written);
    width = omega (arith, length-append e₁.bytes e₂.bytes, e₁.width, e₂.width);
    reads = λ rest. rw (append_assoc, e₁.reads (e₂.bytes ++ rest), ◌>>=◌) (e₂.reads rest);
  }

  -- the last field
  pub Encodes-last :
      {o : Option Bytes} {w : ℕ} {d : Reader A} {x : A} (f : A → B)
      → Encodes o w d x
      → Encodes o w (d >>= λ a. pure (f a)) (f x)
  Encodes-last f e = record {
    bytes = e.bytes;
    written = e.written;
    width = e.width;
    reads = λ rest. rw (e.reads rest, ◌>>=◌);
  }

  -- a field, and the fields behind it, of which the last takes all that is left
  pub EncodesAll-then :
      {o₁ o₂ : Option Bytes} {w₁ w₂ : ℕ} {d : Reader A} (f : A → Reader B) {x : A} {y : B}
      → Encodes o₁ w₁ d x
      → EncodesAll o₂ w₂ (f x) y
      → EncodesAll (o₁ then_write o₂) (w₁ + w₂) (d >>= f) y
  EncodesAll-then f e₁ e₂ = record {
    bytes = e₁.bytes ++ e₂.bytes;
    written = rw (e₁.written, e₂.written);
    width = omega (arith, length-append e₁.bytes e₂.bytes, e₁.width, e₂.width);
    reads = rw (e₁.reads e₂.bytes, decode, ◌>>=◌) (e₂.reads);
  }

-- a last field that takes all that is left
pub EncodesAll-rest {ℓ} :
    {B : Type ℓ} (b : Bytes) (f : Bytes → B)
    → EncodesAll (some b) (length b) (read_rest >>= λ a. pure (f a)) (f b)
EncodesAll-rest b f = record { bytes = b; written = refl; width = refl; reads = refl }

module _ {ℓ} {A : Type ℓ} where
  pub Encodes-decode :
      {o : Option Bytes} {w : ℕ} {d : Reader A} {x : A} (e : Encodes o w d x)
      → decode d e.bytes ≡ some x
  Encodes-decode {d} {x} e = rw (← append-nil e.bytes, e.reads [], decode)

module _ ⦃kit : Kit⦄ where
  pub Encodes-uint : (w n : ℕ) → n < 256 ^ w → Encodes (kit.write_uint w n) w (kit.read_uint w) n
  Encodes-uint w n h =
      let (b, written, width) = kit.write_in_range w n h in
      record {
        bytes = b;
        written = written;
        width = width;
        reads = λ rest. kit.read_written w n b rest written;
      }

  pub Encodes-fixed :
      (n : ℕ) (b : Bytes)
      → length b ≡ n
      → Encodes (some (kit.write_fixed n b)) n (kit.read_fixed n) b
  Encodes-fixed n b h = record {
    bytes = b;
    written = ap some (whole b h);
    width = h;
    reads = λ rest.
        kit.read_fixed_lem n (b ++ rest)
        ∙ rw (
          le→leb n (length (b ++ rest)) (omega (arith, length-append b rest)),
          take-append n b rest h,
          drop-append n b rest h,
        );
  }
    where
      whole : (b : Bytes) → length b ≡ n → kit.write_fixed n b ≡ b
      whole b h =
          kit.write_fixed_lem n b ∙ rw (take-length n b (omega arith), none_left) (append-nil b)
        where
          none_left : n - length b ≡ 0
          none_left = omega arith

  -- a value of the size that is asked for
  pub write_fixed-length : (b : Bytes) → kit.write_fixed (length b) b ≡ b
  write_fixed-length b =
      let e : length b - length b ≡ 0 = omega arith in
      kit.write_fixed_lem (length b) b
      ∙ rw (take-length (length b) b (omega arith), e) (append-nil b)

  pub Encodes-enum :
      {E : Type 0} (code : E → ℕ) (variant : ℕ → Option E) (w : ℕ) (e : E)
      → code e < 256 ^ w
      → variant (code e) ≡ some e
      → Encodes (write_enum code w e) w (read_enum variant w) e
  Encodes-enum code variant w e h back =
      let n = Encodes-uint w (code e) h in
      record {
        bytes = n.bytes;
        written = n.written;
        width = n.width;
        reads = λ rest. rw (n.reads rest, read_enum, back);
      }

  pub Encodes-bool : (b : Bool) → Encodes (some (kit.write_bool b)) 1 kit.read_bool b
  Encodes-bool b = record {
    bytes = kit.write_bool b;
    written = refl;
    width = kit.length-write_bool b;
    reads = kit.read_written_bool b;
  }
