-- ===== src/Coder/CompactInstructions/Decoder.antt =====
-- What the decoder of compact instructions makes of the encoder's bytes: it reads the number of the
-- accounts from four bytes where the encoder writes one, and the data without their length.
use swig_protocol_sdk.Common.{
  ℕ, zero, suc, ◌+◌, ◌<◌, ◌≡◌, ◌≢◌, refl, ap, inl, inr, Option, none, some, List, [], ◌∷◌, Bytes,
  length, drop, leb, leb→le, Bool-cases, arith, length-drop,
}
use swig_protocol_sdk.Kit.{Kit, Reader, ◌>>=◌, pure, decode, read_rest}
use swig_protocol_sdk.Kit.Arrays.{read_items, read_array, total}
use swig_protocol_sdk.Coder.CompactInstructions.{
  CompactInstruction, write_compact_instruction, read_compact_instruction,
}
use swig_protocol_sdk.Coder.CompactInstructions.RoundTrip.{
  IsCompactInstruction, wire_size, Encodes-compact_instruction,
}

-- A reader that succeeds has read a first part.
>>=-some :
    {A B : Type 0} (d : Reader A) (f : A → Reader B) (bs : Bytes) {y : B} {rest : Bytes}
    → (d >>= f) bs ≡ some (y, rest)
    → (a : A) × (mid : Bytes) × (d bs ≡ some (a, mid)) × (f a mid ≡ some (y, rest))
>>=-some d f bs h = split (d bs) f h
  where
    split :
        {A B : Type 0} (o : Option (A × Bytes)) (f : A → Reader B) {y : B × Bytes}
        → elim o [ none ↦ none | some (a, rest) ↦ f a rest ] ≡ some y
        → (a : A) × (mid : Bytes) × (o ≡ some (a, mid)) × (f a mid ≡ some y)
    split none f h = cc
    split (some (a, mid)) f h = (a, mid, refl, h)

decode-some :
    {A : Type 0} (d : Reader A) (bs : Bytes) {y : A}
    → decode d bs ≡ some y
    → (rest : Bytes) × (d bs ≡ some (y, rest))
decode-some d bs h = split (d bs) h
  where
    split :
        {A : Type 0} (o : Option (A × Bytes)) {y : A}
        → elim o [ none ↦ none | some (a, rest) ↦ some a ] ≡ some y
        → (rest : Bytes) × (o ≡ some (y, rest))
    split none h = cc
    split (some (a, rest)) h = (rest, cc)

total-ones : (xs : List ℕ) → total (λ _. 1) xs ≡ length xs
total-ones [] = refl
total-ones (x ∷ xs) = omega (arith, total-ones xs)

module _ ⦃kit : Kit⦄ where
  length-read_uint :
      (w : ℕ) (bs : Bytes) {n : ℕ} {rest : Bytes}
      → kit.read_uint w bs ≡ some (n, rest)
      → length bs ≡ w + length rest
  length-read_uint w bs {n} {rest} h = elim (Bool-cases (leb w (length bs))) [
    | inl e ↦
        let (m, r, _) = kit.read_enough w bs (leb→le w (length bs) e) in
        let k : drop w bs ≡ rest = cc in
        omega (arith, leb→le w (length bs) e, length-drop w bs, ap length k)
    | inr e ↦ let s : length bs < w = ground arith in let k = kit.read_short w bs s in absurd (cc)
  ]

  length-read_items :
      (n : ℕ) (bs : Bytes) {xs : List ℕ} {rest : Bytes}
      → read_items n (kit.read_uint 1) bs ≡ some (xs, rest)
      → length bs ≡ length xs + length rest
  length-read_items zero bs {xs} {rest} h =
      let k : [] ≡ xs = cc in let k' : bs ≡ rest = cc in omega (arith, ap length k, ap length k')
  length-read_items (suc n) bs {xs} {rest} h =
      let (x, mid, e, h') =
        >>=-some (kit.read_uint 1) (λ x. read_items n (kit.read_uint 1) >>= λ xs. pure (x ∷ xs)) bs
          h in
      let (xs', mid', e', h'') =
        >>=-some (read_items n (kit.read_uint 1)) (λ xs. pure (x ∷ xs)) mid h' in
      let k : x ∷ xs' ≡ xs = cc in
      let k' : mid' ≡ rest = cc in
      omega (arith, length-read_uint 1 bs e, length-read_items n mid e', ap length k, ap length k')

  -- The decoder takes five bytes beside the accounts and the data.
  length-read_compact_instruction :
      (bs : Bytes) {y : CompactInstruction}
      → decode read_compact_instruction bs ≡ some y
      → length bs ≡ 5 + length y.accounts + length y.ix_data
  unfolding read_compact_instruction
  length-read_compact_instruction bs {y} h =
      let (end, r) = decode-some read_compact_instruction bs h in
      let (p, b₁, e₁, r₁) = >>=-some (kit.read_uint 1) after_program bs r in
      let (xs, b₂, e₂, r₂) = >>=-some (read_array 4 (kit.read_uint 1)) (after_accounts p) b₁ r₁ in
      let (n, b₃, e₃, r₃) =
        >>=-some (kit.read_uint 4) (λ n. read_items n (kit.read_uint 1)) b₁ e₂ in
      let k : record { program_id_index = p; accounts = xs; ix_data = b₂ } ≡ y = cc in
      omega (
        arith,
        length-read_uint 1 bs e₁,
        length-read_uint 4 b₁ e₃,
        length-read_items n b₃ r₃,
        ap (λ c. length c.accounts) k,
        ap (λ c. length c.ix_data) k,
      )
    where
      after_accounts : ℕ → List ℕ → Reader CompactInstruction
      after_accounts p xs =
          read_rest >>= λ b. pure (record { program_id_index = p; accounts = xs; ix_data = b })

      after_program : ℕ → Reader CompactInstruction
      after_program p = read_array 4 (kit.read_uint 1) >>= after_accounts p

  -- For a compact instruction with indices below 256, fewer than 256 accounts and fewer than 65536
  -- bytes of data, the decoder never gives back the instruction from the bytes that the encoder
  -- writes for it.
  pub read_compact_instruction-write :
      (x : CompactInstruction)
      → IsCompactInstruction x
      → (b : Bytes) → write_compact_instruction x ≡ some b
      → decode read_compact_instruction b ≢ some x
  unfolding wire_size
  read_compact_instruction-write x v b h d =
      let e = Encodes-compact_instruction x v in
      let k : e.bytes ≡ b = cc in
      omega
        (arith, length-read_compact_instruction b d, e.width, ap length k, total-ones x.accounts)
