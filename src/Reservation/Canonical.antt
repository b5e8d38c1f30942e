-- ===== src/Reservation/Canonical.antt =====
-- A canonical key is its own canonical form.
use swig_protocol_sdk.Common.{
  ℕ, ◌≡◌, ◌∙◌, true, not, ◌&&◌, ◌||◌, some, if◌then◌else◌, ◌==◌, Bytes, length, bytes_equal,
  bytes_equal_iff, guard, guard-true, >>=-eq-some, Bool-cases, inl, inr, arith,
}
use swig_protocol_sdk.Coder.AuthorityTypes.{authority_type_code}
use swig_protocol_sdk.Reservation.{
  Curves, first_is, is_sec1, canonical_ed25519, sec1_of, canonical_sec1, canonical_public_key,
}

-- The width of a key of each type.
abbrev pub key_length : ℕ → ℕ
key_length type = if type == 1 then 32 else 33

module _ ⦃curves : Curves⦄ where
  ed25519_canonical :
      (key c : Bytes)
      → canonical_ed25519 key ≡ some c
      → (canonical_ed25519 c ≡ some c) × (length c ≡ 32)
  unfolding canonical_ed25519
  ed25519_canonical key c e =
      let (raw, er, e₁) = >>=-eq-some (curves.ed25519_raw key) _ e in
      let (_, g, e₂) =
        >>=-eq-some (guard (not (curves.ed25519_is_small_order key) && bytes_equal key raw)) _ e₁ in
      let same : raw ≡ c = ground (arith, e₂) in
      let own : key ≡ raw = (bytes_equal_iff key raw).0 (ground (arith, guard-true _ g)) in
      (rw (own ∙ same) at e, curves.ed25519_width key c (rw same at er))

  compressed_sec1 :
      (c : Bytes) → length c ≡ 33 → (first_is 2 c || first_is 3 c) ≡ true → is_sec1 c ≡ true
  unfolding is_sec1
  compressed_sec1 c h e = ground (arith, h, e)

  sec1_of_compressed : (type : ℕ) (c : Bytes) → length c ≡ 33 → sec1_of type c ≡ c
  unfolding sec1_of
  sec1_of_compressed type c h = ground (arith, h)

  compress_lem :
      (type : ℕ) (sec1 c : Bytes)
      → canonical_sec1 type sec1 ≡ some c
      → (length c ≡ 33)
        × ((first_is 2 c || first_is 3 c) ≡ true)
        × ((if type == 3 then curves.secp256k1_compressed c else curves.p256_compressed c) ≡ some c)
  unfolding canonical_sec1 authority_type_code
  compress_lem type sec1 c e =
      let (_, _, e₁) = >>=-eq-some (guard (is_sec1 sec1)) _ e in
      elim (Bool-cases (type == 3)) [
        | inl k1 ↦ rw k1 (curves.secp256k1_lem sec1 c (rw k1 at e₁))
        | inr r1 ↦ rw r1 (curves.p256_lem sec1 c (rw r1 at e₁))
      ]

  sec1_canonical :
      (type : ℕ) (sec1 c : Bytes)
      → canonical_sec1 type sec1 ≡ some c
      → (canonical_sec1 type (sec1_of type c) ≡ some c) × (length c ≡ 33)
  sec1_canonical type sec1 c e =
      let (width, first, again) = compress_lem type sec1 c e in
      (
        rw (sec1_of_compressed type c width)
            (unfold canonical_sec1 authority_type_code in rw (compressed_sec1 c width first) again),
        width,
      )

  -- What `canonicalPublicKey` returns it returns again, and it has the width of its type.
  pub canonical_public_key-canonical_public_key :
      (type : ℕ) (key c : Bytes)
      → canonical_public_key type key ≡ some c
      → (canonical_public_key type c ≡ some c)
        × (length c ≡ key_length type)
        × ((type == 1 || (type == 3 || type == 5)) ≡ true)
  unfolding canonical_public_key authority_type_code
  canonical_public_key-canonical_public_key type key c e = elim (Bool-cases (type == 1)) [
    | inl ed ↦
        let (again, width) = ed25519_canonical key c (rw ed at e) in
        (rw ed again, ground (arith, ed, width), ground (arith, ed))
    | inr not_ed ↦ elim (Bool-cases (type == 3 || type == 5)) [
      | inl ec ↦
          let (again, width) = sec1_canonical type (sec1_of type key) c (rw (not_ed, ec) at e) in
          (rw (not_ed, ec) again, ground (arith, not_ed, width), ground (arith, ec))
      | inr other ↦ absurd (ground (arith, not_ed, other, e))
    ]
  ]
