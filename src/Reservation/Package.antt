-- ===== src/Reservation/Package.antt =====
-- What a package is made of, and that it is accepted again.
use swig_protocol_sdk.Instructions.Keys.{sol_public_key}
use swig_protocol_sdk.Common.{
  ℕ, ◌+◌, ◌≤◌, ◌≡◌, refl, sym, ap, true, not, ◌&&◌, ◌||◌, Option, none, some, [], ◌∷◌, ◌++◌,
  append-nil, append_assoc, if◌then◌else◌, ◌==◌, Bytes, length, slice, take, drop, zeros, zeros-add,
  set_bytes, set_bytes-middle, slice-middle, drop-append, length-append, length-replicate,
  bytes_equal, bytes_equal_iff, guard, u32_bytes, ltb, >>=-eq-some, arith, length-take, length-drop,
  leb, leb→le, Bool-cases, inl, inr,
}
use swig_protocol_sdk.Coder.AuthorityTypes.{authority_type_code}
use swig_protocol_sdk.Reservation.{
  Curves, ReservationAddressOptions, ReservationV1, first_is, u16_bytes, get_u16, salt_of,
  canonical_public_key, reservation_v1, from_bytes, create, to_bytes, account_index, salt,
}
use swig_protocol_sdk.Reservation.Canonical.{key_length, canonical_public_key-canonical_public_key}

-- The parts of a package, one behind the other.
abbrev pub package_of : Bytes → Bytes → ℕ → Bytes → Bytes
package_of program address_salt type key =
    (1 ∷ []) ++ (program ++ (address_salt ++ (u16_bytes type ++ key)))

set_at :
    (front old back new : Bytes) (k : ℕ)
    → length front ≡ k
    → length old ≡ length new
    → set_bytes (front ++ (old ++ back)) new k ≡ some (front ++ (new ++ back))
set_at front old back new k hk h = rw (← hk) (set_bytes-middle front old back new h)

behind :
    (program address_salt : Bytes) (type : ℕ) (rest : Bytes)
    → program ++ (address_salt ++ (u16_bytes type ++ rest))
      ≡ (program ++ (address_salt ++ u16_bytes type)) ++ rest
behind program address_salt type rest =
    rw
      (
        append_assoc program (address_salt ++ u16_bytes type) rest,
        append_assoc address_salt (u16_bytes type) rest,
      )
      refl

-- The buffer as `create` fills it.
filled :
    (program address_salt key : Bytes) (type : ℕ)
    → length program ≡ 32
    → length address_salt ≡ 32
    → (b₁ : Bytes) × (b₂ : Bytes) × (b₃ : Bytes) × (b₄ : Bytes) × (set_bytes
          (zeros (67 + length key))
          (1 ∷ [])
          0
        ≡ some b₁)
      × (set_bytes b₁ program 1 ≡ some b₂)
      × (set_bytes b₂ address_salt 33 ≡ some b₃)
      × (set_bytes b₃ (u16_bytes type) 65 ≡ some b₄)
      × (set_bytes b₄ key 67 ≡ some (package_of program address_salt type key))
filled program address_salt key type hp hs =
    let n = length key in
    let parts : zeros (67 + n) ≡ zeros 1 ++ (zeros 32 ++ (zeros 32 ++ (zeros 2 ++ zeros n))) =
      zeros-add 67 n in
    let one : Bytes = 1 ∷ [] in
    (
      one ++ (zeros 32 ++ (zeros 32 ++ (zeros 2 ++ zeros n))),
      one ++ (program ++ (zeros 32 ++ (zeros 2 ++ zeros n))),
      one ++ (program ++ (address_salt ++ (zeros 2 ++ zeros n))),
      one ++ (program ++ (address_salt ++ (u16_bytes type ++ zeros n))),
      rw parts
          (set_bytes-middle [] (zeros 1) (zeros 32 ++ (zeros 32 ++ (zeros 2 ++ zeros n))) one refl),
      set_bytes-middle one (zeros 32) (zeros 32 ++ (zeros 2 ++ zeros n)) program (sym hp),
      set_at (one ++ program) (zeros 32) (zeros 2 ++ zeros n) address_salt 33 (omega (arith, hp))
          (sym hs),
      rw
          (
            ← append_assoc program address_salt (zeros 2 ++ zeros n),
            ← append_assoc program address_salt (u16_bytes type ++ zeros n),
          )
          (set_at (one ++ (program ++ address_salt)) (zeros 2) (zeros n) (u16_bytes type) 65
            (omega (arith, hp, hs, length-append program address_salt)) refl),
      rw (behind program address_salt type (zeros n), behind program address_salt type key)
          (rw (append-nil (zeros n), append-nil key) at
            (set_at (one ++ (program ++ (address_salt ++ u16_bytes type))) (zeros n) [] key 67
              (omega (
                arith,
                hp,
                hs,
                length-append program (address_salt ++ u16_bytes type),
                length-append address_salt (u16_bytes type),
              ))
              (length-replicate {A = ℕ} n 0))),
    )

length-set_bytes :
    (bs source : Bytes) (offset : ℕ) {r : Bytes}
    → set_bytes bs source offset ≡ some r
    → length r ≡ length bs
length-set_bytes bs source offset {r} e =
    elim (Bool-cases (leb (offset + length source) (length bs))) [
      | inl fits ↦
          let made : take offset bs ++ (source ++ drop (offset + length source) bs) ≡ r =
            ground (arith, fits, e) in
          rw (← made) (
            omega (
              arith,
              leb→le _ _ fits,
              length-append (take offset bs) (source ++ drop (offset + length source) bs),
              length-append source (drop (offset + length source) bs),
              length-take offset bs,
              length-drop (offset + length source) bs,
            ))
      | inr over ↦ absurd (ground (arith, over, e))
    ]

length-salt_of :
    (options : Option ReservationAddressOptions) {s : Bytes}
    → salt_of options ≡ some s
    → length s ≡ 32
unfolding salt_of
length-salt_of none e = ground (arith, e, length-replicate {A = ℕ} 32 0)
length-salt_of (some (salt bytes)) e =
    let (_, _, e₁) = >>=-eq-some (guard (length bytes == 32)) _ e in
    length-set_bytes (zeros 32) bytes 0 e₁
length-salt_of (some (account_index index)) e =
    let (_, _, e₁) = >>=-eq-some (guard (not (ltb 0xffffffff index))) _ e in
    length-set_bytes (zeros 32) (u32_bytes index) 28 e₁

module _ ⦃curves : Curves⦄ where
  -- A package that is made of valid parts passes the checks of the constructor.
  package_accepted :
      (program address_salt k : Bytes) (type : ℕ)
      → length program ≡ 32
      → length address_salt ≡ 32
      → canonical_public_key type k ≡ some k
      → length k ≡ key_length type
      → (type == 1 || (type == 3 || type == 5)) ≡ true
      → reservation_v1 (package_of program address_salt type k) program
        ≡ some (record { package_bytes = package_of program address_salt type k })
  unfolding reservation_v1 sol_public_key authority_type_code
  package_accepted program address_salt k type hp hs canonical width known =
      simp (long, whole_program, cut, own_program, number, fits, tail, canonical, own_key)
    where
      bytes : Bytes
      bytes = package_of program address_salt type k

      size : length bytes ≡ 67 + length k
      size = omega (
        arith,
        hp,
        hs,
        length-append program (address_salt ++ (u16_bytes type ++ k)),
        length-append address_salt (u16_bytes type ++ k),
      )

      long : ((length bytes == 99 || length bytes == 100) && first_is 1 bytes) ≡ true
      long = ground (arith, size, width)

      whole_program : (length program == 32) ≡ true
      whole_program = ground (arith, hp)

      cut : slice bytes 1 33 ≡ program
      cut =
          slice-middle (1 ∷ []) program (address_salt ++ (u16_bytes type ++ k)) 1 33 refl
            (omega (arith, hp))

      own_program : bytes_equal program program ≡ true
      own_program = (bytes_equal_iff program program).1 refl

      small : type ≤ 5
      small = ground (arith, known)

      number : get_u16 (drop 65 bytes) ≡ some type
      number =
          let behind_salt : drop 65 bytes ≡ u16_bytes type ++ k =
            rw (append_assoc program address_salt (u16_bytes type ++ k)) at (
              drop-append 65 ((1 ∷ []) ++ (program ++ address_salt)) (u16_bytes type ++ k)
                (omega (arith, hp, hs, length-append program address_salt))) in
          rw behind_salt (ap some (omega (arith, small)))

      fits :
          not (
            (type == 1 && not (length bytes == 99))
            || ((type == 3 || type == 5) && not (length bytes == 100)))
          ≡ true
      fits = ground (arith, size, width)

      tail : drop 67 bytes ≡ k
      tail = rw (behind program address_salt type k) (
          drop-append 67 ((1 ∷ []) ++ (program ++ (address_salt ++ u16_bytes type))) k (
            omega (
              arith,
              hp,
              hs,
              length-append program (address_salt ++ u16_bytes type),
              length-append address_salt (u16_bytes type),
            )))

      own_key : bytes_equal k k ≡ true
      own_key = (bytes_equal_iff k k).1 refl

  -- For a program id of 32 bytes, an owner key with a canonical form `k` and address options that
  -- stand for a salt, `create` succeeds. Its package is the byte 1, the program id, the salt, the
  -- owner's type in two bytes and `k`, 99 bytes long for Ed25519 and 100 for the other two types, and
  -- `fromBytes` accepts it for that program.
  pub create-package_of :
      (program_id : Bytes) (type : ℕ) (key : Bytes) (options : Option ReservationAddressOptions)
      (address_salt k : Bytes)
      → length program_id ≡ 32
      → canonical_public_key type key ≡ some k
      → salt_of options ≡ some address_salt
      → (r : ReservationV1) × (create program_id type key options ≡ some r)
        × (to_bytes r ≡ package_of program_id address_salt type k)
        × (length (to_bytes r) ≡ (if type == 1 then 99 else 100))
        × (from_bytes (to_bytes r) program_id ≡ some r)
  unfolding create from_bytes to_bytes
  create-package_of program_id type key options address_salt k hp canonical salted =
      let (again, width, known) = canonical_public_key-canonical_public_key type key k canonical in
      let hs = length-salt_of options salted in
      let (b₁, b₂, b₃, b₄, e₁, e₂, e₃, e₄, e₅) = filled program_id address_salt k type hp hs in
      let accepted = package_accepted program_id address_salt k type hp hs again width known in
      let own_program : sol_public_key program_id ≡ some program_id =
        unfold sol_public_key in ground (arith, hp) in
      let size : length (package_of program_id address_salt type k) ≡ 67 + length k = omega (
        arith,
        hp,
        hs,
        length-append program_id (address_salt ++ (u16_bytes type ++ k)),
        length-append address_salt (u16_bytes type ++ k),
      ) in
      (
        record { package_bytes = package_of program_id address_salt type k },
        simp (own_program, canonical, salted, e₁, e₂, e₃, e₄, e₅, accepted),
        refl,
        ground (arith, size, width),
        accepted,
      )
