-- ===== src/Actions/Config/Header.antt =====
-- `encodeWithHeader`: a header of eight bytes, and the payload behind it.
use swig_protocol_sdk.Common.{
  ℕ, ◌+◌, ◌^◌, ◌≤◌, ◌<◌, ◌≡◌, refl, ap, ◌∙◌, some, [], ◌∷◌, ◌++◌, append-nil, Bytes, length, zeros,
  zeros-add, set_bytes, set_bytes-middle, length-replicate, arith, ltb, if◌then◌else◌, Bool-cases,
  inl, inr, ◌>>=◌,
}
use swig_protocol_sdk.Kit.{Kit, decode}
use swig_protocol_sdk.Kit.Laws.{Encodes-decode}
use swig_protocol_sdk.Coder.Headers.{read_action_header}
use swig_protocol_sdk.Coder.Headers.RoundTrip.{Encodes-action_header}
use swig_protocol_sdk.Actions.Payload.{ActionPayload, decode_action_payload}
use swig_protocol_sdk.Actions.Config.{
  ActionConfig, all_config, config_length, config_permission, config_header, length_with_header,
  encode_with_header,
}
use swig_protocol_sdk.Actions.Config.Carries.{Carries, Carries-Written}

config_length-le : (c : ActionConfig) → config_length c ≤ 144
unfolding config_length
config_length-le all_config = omega arith
config_length-le _ = omega arith

-- The header is set at the front of the empty buffer, and the payload over what is left.
set_header :
    (n : ℕ) (h : Bytes) → length h ≡ 8 → set_bytes (zeros (8 + n)) h 0 ≡ some (h ++ zeros n)
set_header n h e = rw (zeros-add 8 n) (set_bytes-middle [] (zeros 8) (zeros n) h (omega arith))

set_payload :
    (n : ℕ) (h p : Bytes)
    → length h ≡ 8
    → length p ≡ n
    → set_bytes (h ++ zeros n) p 8 ≡ some (h ++ p)
set_payload n h p e ep =
    rw (append-nil (zeros n), append-nil p, e) at
      (set_bytes-middle h (zeros n) [] p (omega (arith, length-replicate {A = ℕ} n 0)))

no_payload : (h p : Bytes) → length p ≡ 0 → h ++ zeros 0 ≡ h ++ p
no_payload h [] e = refl
no_payload h (x ∷ p) e = absurd (omega arith)

module _ ⦃kit : Kit⦄ where
  pub record Framed (c : ActionConfig) (x : ActionPayload) (boundary : ℕ) : Type 0 where
    pub header_bytes : Bytes
    pub payload_bytes : Bytes
    pub encoded : encode_with_header c boundary ≡ some (header_bytes ++ payload_bytes)
    pub header_width : length header_bytes ≡ 8
    pub header_decoded : decode read_action_header header_bytes ≡ some (config_header c boundary)
    pub payload_width : length payload_bytes ≡ config_length c
    pub payload_decoded : decode_action_payload (config_permission c) payload_bytes ≡ some x

  assemble :
      (c : ActionConfig) (boundary : ℕ) (h p : Bytes)
      → length h ≡ 8
      → length p ≡ config_length c
      → (do
        bytes ← set_bytes (zeros (length_with_header c)) h 0
        if ltb 8 (length_with_header c) then set_bytes bytes p 8 else some bytes)
        ≡ some (h ++ p)
  unfolding length_with_header
  assemble c boundary h p hh hp = elim (Bool-cases (ltb 8 (8 + config_length c))) [
    | inl more ↦
        rw (set_header (config_length c) h hh, more) (set_payload (config_length c) h p hh hp)
    | inr none_left ↦
        let z : config_length c ≡ 0 = ground arith in
        rw (set_header (config_length c) h hh, none_left) (ap some (rw z (no_payload h p (hp ∙ z))))
  ]

  pub Carries-Framed :
      {c : ActionConfig} {x : ActionPayload} (boundary : ℕ)
      → Carries c x
      → boundary < 256 ^ 4
      → Framed c x boundary
  unfolding encode_with_header
  Carries-Framed {c} boundary k hb =
      let w = Carries-Written k in
      let e = Encodes-action_header (config_header c boundary) (
        unfold config_header in
        record { length_fits = omega (arith, config_length-le c); boundary_fits = hb }) in
      record {
        header_bytes = e.bytes;
        payload_bytes = w.bytes;
        encoded = rw (w.encoded, e.written) (assemble c boundary e.bytes w.bytes e.width w.width);
        header_width = e.width;
        header_decoded = Encodes-decode e;
        payload_width = w.width;
        payload_decoded = w.decoded;
      }
