-- ===== src/Actions/Layout.antt =====
-- The format of an action buffer, described apart from the code that writes it and that reads it,
-- and that `deserialize_from` reads it.
use swig_protocol_sdk.Common.{
  ℕ, suc, ◌+◌, ◌≡◌, refl, some, List, [], ◌∷◌, ◌++◌, append-nil, append_assoc, Bytes, length, slice,
  length-append, slice-middle, arith,
}
use swig_protocol_sdk.Kit.{Kit, decode}
use swig_protocol_sdk.Coder.Headers.{read_action_header}
use swig_protocol_sdk.Actions.Payload.{decode_action_payload}
use swig_protocol_sdk.Actions.Action.{Action}
use swig_protocol_sdk.Actions.Collection.{deserialize_from}

module _ ⦃kit : Kit⦄ where
  -- From `cursor` on: a header of eight bytes, its payload up to the header's boundary, and the next
  -- action at that boundary.
  pub data Layout : ℕ → List Action → Bytes → Type 0 where
    done : (cursor : ℕ) → Layout cursor [] []
    action :
        {cursor : ℕ} {a : Action} {rest : List Action} {bs : Bytes} (h p : Bytes)
        → length h ≡ 8
        → decode read_action_header h ≡ some a.header
        → decode_action_payload a.header.permission p ≡ some a.payload
        → cursor + (8 + length p) ≡ a.header.boundary
        → Layout a.header.boundary rest bs
        → Layout cursor (a ∷ rest) (h ++ (p ++ bs))

  -- One round of the loop.
  pub deserialize_step :
      (raw : Bytes) (cursor count : ℕ) (a : Action) (rest : List Action) (h p : Bytes)
      → slice raw cursor (cursor + 8) ≡ h
      → decode read_action_header h ≡ some a.header
      → slice raw (cursor + 8) a.header.boundary ≡ p
      → decode_action_payload a.header.permission p ≡ some a.payload
      → deserialize_from raw a.header.boundary count ≡ some rest
      → deserialize_from raw cursor (suc count) ≡ some (a ∷ rest)
  unfolding deserialize_from
  deserialize_step raw cursor count a rest h p sh eh sp ep er = simp (sh, eh, sp, ep, er)

  -- Whatever stands before the cursor and behind the actions, of which `m` more are read.
  pub deserialize-Layout_more :
      {cursor : ℕ} {actions : List Action} {bs : Bytes} (front back : Bytes) (m : ℕ)
      {more : List Action}
      → Layout cursor actions bs
      → length front ≡ cursor
      → deserialize_from (front ++ (bs ++ back)) (cursor + length bs) m ≡ some more
      → deserialize_from (front ++ (bs ++ back)) cursor (length actions + m)
        ≡ some (actions ++ more)
  deserialize-Layout_more front back m (done cursor) hf hm =
      let e : cursor + 0 ≡ cursor = omega arith in
      let z : 0 + m ≡ m = omega arith in rw z (rw e at hm)
  deserialize-Layout_more front back m {more} (action {cursor} {a} {rest} {bs} h p hh eh ep hb l) hf
        hm =
      let ends : cursor + length (h ++ (p ++ bs)) ≡ a.header.boundary + length bs =
        omega (arith, length-append h (p ++ bs), length-append p bs) in
      let z : suc (length rest) + m ≡ suc (length rest + m) = omega arith in
      rw z (
        deserialize_step _ cursor (length rest + m) a (rest ++ more) h p
          (rw (append_assoc h (p ++ bs) back)
            (slice-middle front h ((p ++ bs) ++ back) cursor (cursor + 8) hf (omega arith)))
          eh
          (rw (append_assoc h (p ++ bs) back, append_assoc p bs back, ← append_assoc front h _)
            (slice-middle (front ++ h) p (bs ++ back) (cursor + 8) a.header.boundary
              (omega (arith, length-append front h)) (omega arith)))
          ep
          (rw
            (
              append_assoc h (p ++ bs) back,
              append_assoc p bs back,
              ← append_assoc front h _,
              ← append_assoc (front ++ h) p _,
            )
            (deserialize-Layout_more ((front ++ h) ++ p) back m l
              (omega (arith, length-append front h, length-append (front ++ h) p))
              (rw
                (
                  ends,
                  append_assoc h (p ++ bs) back,
                  append_assoc p bs back,
                  ← append_assoc front h (p ++ (bs ++ back)),
                  ← append_assoc (front ++ h) p (bs ++ back),
                )
                at hm))))

  -- All the actions, and no more.
  pub deserialize-Layout :
      {cursor : ℕ} {actions : List Action} {bs : Bytes} (front back : Bytes)
      → Layout cursor actions bs
      → length front ≡ cursor
      → deserialize_from (front ++ (bs ++ back)) cursor (length actions) ≡ some actions
  deserialize-Layout {cursor} {actions} {bs} front back l hf =
      let e : length actions + 0 ≡ length actions = omega arith in
      rw (e, append-nil actions) at
        (deserialize-Layout_more front back 0 {more = []} l hf (unfold deserialize_from in refl))
