-- ===== src/Roles/Layout.antt =====
-- The format of a roles buffer, described apart from the code, and that the two readers of it,
-- `deserializeRoles` and `getSwigTail`, agree about where the roles end.
use swig_protocol_sdk.Common.{
  ℕ, suc, ◌+◌, ◌≤◌, ◌≡◌, refl, ap, true, some, List, [], ◌∷◌, ◌++◌, append-nil, append_assoc, Bytes,
  length, slice, take-append, drop-append, length-append, slice-middle, leb, arith,
}
use swig_protocol_sdk.Kit.{Kit, decode}
use swig_protocol_sdk.Coder.Headers.{Position, read_position}
use swig_protocol_sdk.Actions.Action.{Action}
use swig_protocol_sdk.Actions.Layout
use swig_protocol_sdk.Actions.Layout.{deserialize-Layout}
use swig_protocol_sdk.Actions.Collection.{from, deserialize_actions}
use swig_protocol_sdk.Roles.{
  Authority, Role, get_authority, role_from, deserialize_roles_from, deserialize_roles,
}
use swig_protocol_sdk.Swig.Tail.{roles_end, get_swig_tail}

module _ ⦃kit : Kit⦄ (swig_address swig_id : Bytes) where
  -- From `cursor` on: a position of sixteen bytes, the authority's bytes and the actions up to the
  -- position's boundary, and the next role at that boundary.
  pub data RolesLayout : ℕ → List Role → Bytes → Type 0 where
    done : (cursor : ℕ) → RolesLayout cursor [] []
    role :
        {cursor : ℕ} {position : Position} {authority : Authority} {actions : List Action}
        {rest : List Role} {bs : Bytes} (h a b : Bytes)
        → length h ≡ 16
        → decode read_position h ≡ some position
        → length a ≡ position.authority_len
        → get_authority position.authority_type a ≡ some authority
        → Layout.Layout 0 actions b
        → length actions ≡ position.num_actions
        → cursor + (16 + (length a + length b)) ≡ position.boundary
        → RolesLayout position.boundary rest bs
        → RolesLayout cursor
            (record {
              swig_address = swig_address;
              position = position;
              authority = authority;
              actions = record { raw = b; actions = actions };
              swig_id = swig_id;
            }
              ∷ rest)
            (h ++ ((a ++ b) ++ bs))

  from-Layout :
      {actions : List Action} {b : Bytes} (n : ℕ)
      → Layout.Layout 0 actions b
      → length actions ≡ n
      → from b n ≡ some (record { raw = b; actions = actions })
  unfolding from deserialize_actions
  from-Layout {actions} {b} n l h =
      let decoded = rw (append-nil b, h) at (deserialize-Layout [] [] l refl) in rw decoded

  role_from-Layout :
      (position : Position) {authority : Authority} {actions : List Action} (a b : Bytes)
      → length a ≡ position.authority_len
      → get_authority position.authority_type a ≡ some authority
      → Layout.Layout 0 actions b
      → length actions ≡ position.num_actions
      → role_from swig_address position (a ++ b) swig_id
        ≡ some (record {
          swig_address = swig_address;
          position = position;
          authority = authority;
          actions = record { raw = b; actions = actions };
          swig_id = swig_id;
        })
  unfolding role_from
  role_from-Layout position a b ha ea l hn = rw (
    take-append position.authority_len a b ha,
    drop-append position.authority_len a b ha,
    ea,
    from-Layout position.num_actions l hn,
  )

  deserialize_roles_step :
      (buffer : Bytes) (cursor count : ℕ) (position : Position) (r : Role) (rest : List Role)
      (h d : Bytes)
      → slice buffer cursor (cursor + 16) ≡ h
      → decode read_position h ≡ some position
      → slice buffer (cursor + 16) position.boundary ≡ d
      → role_from swig_address position d swig_id ≡ some r
      → deserialize_roles_from swig_address swig_id buffer position.boundary count ≡ some rest
      → deserialize_roles_from swig_address swig_id buffer cursor (suc count) ≡ some (r ∷ rest)
  unfolding deserialize_roles_from
  deserialize_roles_step buffer cursor count position r rest h d sh eh sd ed er =
      simp (sh, eh, sd, ed, er)

  roles_end_step :
      (buffer : Bytes) (cursor count : ℕ) (position : Position) {end : ℕ} (h : Bytes)
      → cursor + 16 ≤ position.boundary
      → position.boundary ≤ length buffer
      → slice buffer cursor (cursor + 16) ≡ h
      → decode read_position h ≡ some position
      → roles_end buffer position.boundary count ≡ some end
      → roles_end buffer cursor (suc count) ≡ some end
  unfolding roles_end
  roles_end_step buffer cursor count position h h₁ h₂ sh eh er =
      simp (fits, starts, ends, sh, eh, er)
    where
      fits : leb (cursor + 16) (length buffer) ≡ true
      fits = ground arith

      starts : leb (cursor + 16) position.boundary ≡ true
      starts = ground arith

      ends : leb position.boundary (length buffer) ≡ true
      ends = ground arith

  -- What both loops do with a role, given what they do behind it.
  read_step :
      {cursor : ℕ} {rest : List Role} (position : Position) (r : Role) (front h d bs back : Bytes)
      → length h ≡ 16
      → decode read_position h ≡ some position
      → role_from swig_address position d swig_id ≡ some r
      → cursor + (16 + length d) ≡ position.boundary
      → length front ≡ cursor
      → (deserialize_roles_from swig_address swig_id
            (((front ++ h) ++ d) ++ (bs ++ back))
            position.boundary
            (length rest)
          ≡ some rest)
        × (roles_end (((front ++ h) ++ d) ++ (bs ++ back)) position.boundary (length rest)
            ≡ some (length ((front ++ h) ++ d) + length bs))
      → (deserialize_roles_from swig_address swig_id
            (front ++ ((h ++ (d ++ bs)) ++ back))
            cursor
            (suc (length rest))
          ≡ some (r ∷ rest))
        × (roles_end (front ++ ((h ++ (d ++ bs)) ++ back)) cursor (suc (length rest))
            ≡ some (length front + length (h ++ (d ++ bs))))
  read_step {cursor} {rest} position r front h d bs back hh eh ed hb hf ih =
      let whole : front ++ ((h ++ (d ++ bs)) ++ back) ≡ ((front ++ h) ++ d) ++ (bs ++ back) =
        rw
          (
            append_assoc h (d ++ bs) back,
            append_assoc d bs back,
            append_assoc (front ++ h) d (bs ++ back),
            append_assoc front h (d ++ (bs ++ back)),
          )
          refl in
      let header : slice (((front ++ h) ++ d) ++ (bs ++ back)) cursor (cursor + 16) ≡ h =
        rw (append_assoc (front ++ h) d (bs ++ back), append_assoc front h (d ++ (bs ++ back)))
          (slice-middle front h (d ++ (bs ++ back)) cursor (cursor + 16) hf (omega arith)) in
      let boundary : length ((front ++ h) ++ d) ≡ position.boundary =
        omega (arith, length-append (front ++ h) d, length-append front h) in
      let body : slice (((front ++ h) ++ d) ++ (bs ++ back)) (cursor + 16) position.boundary ≡ d =
        rw (append_assoc (front ++ h) d (bs ++ back)) (
          slice-middle (front ++ h) d (bs ++ back) (cursor + 16) position.boundary
            (omega (arith, length-append front h)) (omega arith)) in
      let end : length ((front ++ h) ++ d) + length bs ≡ length front + length (h ++ (d ++ bs)) =
        omega (
          arith,
          length-append (front ++ h) d,
          length-append front h,
          length-append h (d ++ bs),
          length-append d bs,
        ) in
      rw whole (
        deserialize_roles_step _ cursor (length rest) position r rest h d header eh body ed ih.0,
        roles_end_step _ cursor (length rest) position h (omega arith)
            (omega (arith, length-append ((front ++ h) ++ d) (bs ++ back))) header eh
            (rw end at (ih.1)),
      )

  -- Both loops, with anything before the roles and anything behind them.
  pub RolesLayout-read :
      {cursor : ℕ} {roles : List Role} {bs : Bytes} (front back : Bytes)
      → RolesLayout cursor roles bs
      → length front ≡ cursor
      → (deserialize_roles_from swig_address swig_id (front ++ (bs ++ back)) cursor (length roles)
          ≡ some roles)
        × (roles_end (front ++ (bs ++ back)) cursor (length roles)
            ≡ some (length front + length bs))
  RolesLayout-read front back (done cursor) hf =
      (unfold deserialize_roles_from in refl, unfold roles_end in ap some (omega arith))
  RolesLayout-read front back
        (role {cursor} {position} {authority} {actions} {rest} {bs} h a b hh eh ha ea l hn hb ls)
        hf =
      read_step position _ front h (a ++ b) bs back hh eh (role_from-Layout position a b ha ea l hn)
        (omega (arith, length-append a b)) hf
        (RolesLayout-read ((front ++ h) ++ (a ++ b)) back ls (
          omega
            (arith, length-append (front ++ h) (a ++ b), length-append front h, length-append a b)))

  -- On a roles buffer in the format, with any tail behind the roles, `deserializeRoles` returns the
  -- roles and `getSwigTail` returns the tail, whatever its bytes are.
  pub deserialize_roles-Layout :
      (roles : List Role) (bs tail : Bytes)
      → RolesLayout 0 roles bs
      → (deserialize_roles swig_address (bs ++ tail) (length roles) swig_id ≡ some roles)
        × (get_swig_tail (length roles) (bs ++ tail) ≡ some tail)
  unfolding deserialize_roles get_swig_tail
  deserialize_roles-Layout roles bs tail l =
      let (read, end) = RolesLayout-read [] tail l refl in
      (read, rw (end, drop-append (0 + length bs) bs tail (omega arith)))
