-- ===== src/Actions/Collection/Decode.antt =====
-- What `Actions.from` promises of any buffer that it accepts.
use swig_protocol_sdk.Common.{
  ℕ, zero, suc, ◌≡◌, some, List, All, Bytes, length, slice, >>=-eq-some, arith, ◌+◌,
}
use swig_protocol_sdk.Kit.{Kit, decode}
use swig_protocol_sdk.Coder.Headers.{read_action_header}
use swig_protocol_sdk.Actions.Payload.{payload_permission, decode_action_payload, permission-decode}
use swig_protocol_sdk.Actions.Action.{Action}
use swig_protocol_sdk.Actions.Collection.{
  Actions, deserialize_from, deserialize_actions, from, count,
}

-- The payload is of the kind that the header names.
abbrev pub Agrees : Action → Type 0
Agrees a = payload_permission a.payload ≡ a.header.permission

module _ ⦃kit : Kit⦄ where
  deserialize_from-Agrees :
      (raw : Bytes) (n cursor : ℕ) {actions : List Action}
      → deserialize_from raw cursor n ≡ some actions
      → All Agrees actions × (length actions ≡ n)
  unfolding deserialize_from
  deserialize_from-Agrees raw zero cursor e = ground arith
  deserialize_from-Agrees raw (suc n) cursor e =
      let (header, eh, e₁) =
        >>=-eq-some (decode read_action_header (slice raw cursor (cursor + 8))) _ e in
      let (payload, ep, e₂) =
        >>=-eq-some
          (decode_action_payload header.permission (slice raw (cursor + 8) header.boundary)) _ e₁ in
      let (rest, er, e₃) = >>=-eq-some (deserialize_from raw header.boundary n) _ e₂ in
      let ih = deserialize_from-Agrees raw n header.boundary er in
      ground
        (arith, ih, permission-decode header.permission (slice raw (cursor + 8) header.boundary) ep)

  -- Of any buffer that `Actions.from` accepts, it decodes as many actions as were asked for, and each
  -- has a payload of the kind that its header's permission names; the buffer is kept as it was.
  pub from-Agrees :
      (raw : Bytes) (n : ℕ) {s : Actions}
      → from raw n ≡ some s
      → All Agrees s.actions × (count s ≡ n) × (s.raw ≡ raw)
  unfolding from deserialize_actions count
  from-Agrees raw n {s} e =
      let (actions, ed, es) = >>=-eq-some (deserialize_from raw 0 n) _ e in
      let ok = deserialize_from-Agrees raw n 0 ed in ground (arith, ok)
