-- ===== src/Swig/Tail/Suffix.antt =====
-- Where `getSwigTail` cuts the roles buffer.
use swig_protocol_sdk.Common.{
  ℕ, zero, suc, ◌+◌, ◌*◌, ◌≤◌, ◌≡◌, some, ◌++◌, Bytes, length, slice, take, drop, take-append-drop,
  length-take, leb, guard, guard-true, >>=-eq-some, ◌&&◌, arith,
}
use swig_protocol_sdk.Kit.{Kit, decode}
use swig_protocol_sdk.Coder.Headers.{read_position}
use swig_protocol_sdk.Swig.Tail.{roles_end, get_swig_tail}

module _ ⦃kit : Kit⦄ where
  roles_end-le :
      (buffer : Bytes) (cursor roles : ℕ) {end : ℕ}
      → cursor ≤ length buffer
      → roles_end buffer cursor roles ≡ some end
      → (cursor + 16 * roles ≤ end) × (end ≤ length buffer)
  unfolding roles_end
  roles_end-le buffer cursor zero h e = ground arith
  roles_end-le buffer cursor (suc roles) h e =
      let (_, _, e₁) = >>=-eq-some (guard (leb (cursor + 16) (length buffer))) _ e in
      let (position, _, e₂) =
        >>=-eq-some (decode read_position (slice buffer cursor (cursor + 16))) _ e₁ in
      let (_, g, e₃) =
        >>=-eq-some
          (guard (leb (cursor + 16) position.boundary && leb position.boundary (length buffer))) _
          e₂ in
      let ordered : (cursor + 16 ≤ position.boundary) × (position.boundary ≤ length buffer) =
        ground (arith, guard-true _ g) in
      let (low, high) = roles_end-le buffer position.boundary roles ordered.1 e₃ in
      (omega arith, high)

  -- Where `getSwigTail` succeeds, the tail is a suffix of the roles buffer, behind at least sixteen
  -- bytes for each role.
  pub get_swig_tail-suffix :
      (roles : ℕ) (buffer tail : Bytes)
      → get_swig_tail roles buffer ≡ some tail
      → (front : Bytes) × (front ++ tail ≡ buffer) × (16 * roles ≤ length front)
  unfolding get_swig_tail
  get_swig_tail-suffix roles buffer tail e =
      let (end, ee, et) = >>=-eq-some (roles_end buffer 0 roles) _ e in
      let (low, high) = roles_end-le buffer 0 roles (omega arith) ee in
      let cut : drop end buffer ≡ tail = ground (arith, et) in
      (
        take end buffer,
        rw (← cut) (take-append-drop end buffer),
        omega (arith, length-take end buffer),
      )
