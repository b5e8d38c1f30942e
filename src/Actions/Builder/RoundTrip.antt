-- ===== src/Actions/Builder/RoundTrip.antt =====
-- `ActionsBuilder.get`: what was composed is written in the format of `Layout` and decoded again.
use swig_protocol_sdk.Common.{
  ℕ, suc, ◌+◌, ◌^◌, ◌<◌, ◌≡◌, refl, sym, ap, subst, ◌∙◌, some, List, [], ◌∷◌, ◌++◌, append-nil,
  append_assoc, Bytes, length, zeros, zeros-add, set_bytes, set_bytes-middle, length-replicate,
  length-append, arith,
}
use swig_protocol_sdk.Kit.{Kit}
use swig_protocol_sdk.Actions.Payload.{ActionPayload}
use swig_protocol_sdk.Actions.Action.{Action}
use swig_protocol_sdk.Actions.Collection.{Actions, from, deserialize_actions}
use swig_protocol_sdk.Actions.Layout.{Layout, done, action, deserialize-Layout}
use swig_protocol_sdk.Actions.Config.{
  ActionConfig, config_permission, config_header, length_with_header, encode_with_header,
}
use swig_protocol_sdk.Actions.Config.Carries.{Carries}
use swig_protocol_sdk.Actions.Config.Header.{Carries-Framed}
use swig_protocol_sdk.Actions.Builder.{
  ActionsBuilder, sum_lengths, buffer_length, data_loop, data_bytes, get_actions,
}

-- Each configuration with the payload that it stands for.
abbrev pub CarryAll : List ActionConfig → List ActionPayload → Type 0
CarryAll [] [] = Unit
CarryAll [] (x ∷ xs) = ⊥
CarryAll (c ∷ cs) [] = ⊥
CarryAll (c ∷ cs) (x ∷ xs) = Carries c x × CarryAll cs xs

-- The bytes of all configurations.
abbrev pub total : List ActionConfig → ℕ
total [] = 0
total (c ∷ cs) = length_with_header c + total cs

-- The actions that the configurations make, from a cursor on: the boundary of each is its own end.
abbrev pub built : ℕ → List ActionConfig → List ActionPayload → List Action
built cursor (c ∷ cs) (x ∷ xs) =
    record { header = config_header c (cursor + length_with_header c); payload = x }
    ∷ built (cursor + length_with_header c) cs xs
built cursor _ _ = []

pub length-built :
    (cursor : ℕ) (cs : List ActionConfig) (xs : List ActionPayload)
    → CarryAll cs xs
    → length (built cursor cs xs) ≡ length cs
length-built cursor [] [] k = refl
length-built cursor (c ∷ cs) (x ∷ xs) k =
    ap suc (length-built (cursor + length_with_header c) cs xs k.1)
length-built cursor [] (x ∷ xs) k = elim k [ ]
length-built cursor (c ∷ cs) [] k = elim k [ ]

sum_lengths-total : (sum : ℕ) (cs : List ActionConfig) → sum_lengths sum cs ≡ sum + total cs
unfolding sum_lengths
sum_lengths-total sum [] = omega arith
sum_lengths-total sum (c ∷ cs) = omega (arith, sum_lengths-total (sum + length_with_header c) cs)

pub buffer_length-total : (b : ActionsBuilder) → buffer_length b ≡ total b.action_configs
unfolding buffer_length
buffer_length-total b = omega (arith, sum_lengths-total 0 b.action_configs)

module _ ⦃kit : Kit⦄ where
  -- What the loop of `data` leaves: the bytes before the cursor, and a layout behind them.
  pub record Wrote (cursor : ℕ) (cs : List ActionConfig) (xs : List ActionPayload) (front : Bytes)
      : Type 0 where
    pub bytes : Bytes
    pub looped : data_loop cs (front ++ zeros (total cs)) cursor ≡ some (front ++ bytes)
    pub laid : Layout cursor (built cursor cs xs) bytes
    pub width : length bytes ≡ total cs

  data_loop_step :
      (c : ActionConfig) (cs : List ActionConfig) (front e : Bytes) (n cursor : ℕ)
      → length front ≡ cursor
      → encode_with_header c (cursor + length_with_header c) ≡ some e
      → length e ≡ length_with_header c
      → data_loop (c ∷ cs) (front ++ zeros (length_with_header c + n)) cursor
        ≡ data_loop cs ((front ++ e) ++ zeros n) (cursor + length_with_header c)
  unfolding data_loop
  data_loop_step c cs front e n cursor hf he hw = simp (he, set)
    where
      set :
          set_bytes (front ++ zeros (length_with_header c + n)) e cursor
          ≡ some ((front ++ e) ++ zeros n)
      set =
          rw (zeros-add (length_with_header c) n, ← hf, append_assoc)
            (set_bytes-middle front (zeros (length_with_header c)) (zeros n) e
              (omega (arith, length-replicate {A = ℕ} (length_with_header c) 0)))

  pub data_loop-Layout :
      (cs : List ActionConfig) (xs : List ActionPayload) (front : Bytes) (cursor : ℕ)
      → CarryAll cs xs
      → length front ≡ cursor
      → cursor + total cs < 256 ^ 4
      → Wrote cursor cs xs front
  unfolding config_header config_permission
  data_loop-Layout [] [] front cursor k hf hb = record {
    bytes = [];
    looped = unfold data_loop in refl;
    laid = done cursor;
    width = refl;
  }
  data_loop-Layout [] (x ∷ xs) front cursor k hf hb = elim k [ ]
  data_loop-Layout (c ∷ cs) [] front cursor k hf hb = elim k [ ]
  data_loop-Layout (c ∷ cs) (x ∷ xs) front cursor k hf hb =
      let f = Carries-Framed (cursor + length_with_header c) k.0 (omega arith) in
      let e = f.header_bytes ++ f.payload_bytes in
      let he : length e ≡ length_with_header c =
        unfold length_with_header in
        omega
          (arith, f.header_width, f.payload_width, length-append f.header_bytes f.payload_bytes) in
      let w =
        data_loop-Layout cs xs (front ++ e) (cursor + length_with_header c) k.1
          (omega (arith, length-append front e)) (omega arith) in
      let end : cursor + (8 + length f.payload_bytes) ≡ cursor + length_with_header c =
        unfold length_with_header in omega (arith, f.payload_width) in
      record {
        bytes = f.header_bytes ++ (f.payload_bytes ++ w.bytes);
        looped =
            data_loop_step c cs front e (total cs) cursor hf f.encoded he
            ∙ w.looped
            ∙ rw
                (append_assoc front e w.bytes, append_assoc f.header_bytes f.payload_bytes w.bytes);
        laid =
            action f.header_bytes f.payload_bytes f.header_width f.header_decoded f.payload_decoded
              end w.laid;
        width = omega (
          arith,
          length-append f.header_bytes (f.payload_bytes ++ w.bytes),
          length-append f.payload_bytes w.bytes,
          length-append f.header_bytes f.payload_bytes,
          he,
          w.width,
        );
      }

  -- The buffer of a builder whose configurations carry the payloads `xs`.
  pub record Buffer (b : ActionsBuilder) (xs : List ActionPayload) : Type 0 where
    pub bytes : Bytes
    pub written : data_bytes b ≡ some bytes
    pub laid : Layout 0 (built 0 b.action_configs xs) bytes
    pub width : length bytes ≡ buffer_length b

  pub data_bytes-Layout :
      (b : ActionsBuilder) (xs : List ActionPayload)
      → CarryAll b.action_configs xs
      → buffer_length b < 256 ^ 4
      → Buffer b xs
  unfolding data_bytes
  data_bytes-Layout b xs k h =
      let e = buffer_length-total b in
      let w = data_loop-Layout b.action_configs xs [] 0 k refl (omega (arith, e)) in
      record {
        bytes = w.bytes;
        written =
            subst (λ n. data_loop b.action_configs (zeros n) 0 ≡ some w.bytes) (sym e) w.looped;
        laid = w.laid;
        width = w.width ∙ sym e;
      }

  pub get_actions-Buffer :
      (b : ActionsBuilder) (xs : List ActionPayload)
      → CarryAll b.action_configs xs
      → (w : Buffer b xs)
      → get_actions b ≡ some (record { raw = w.bytes; actions = built 0 b.action_configs xs })
  unfolding get_actions from deserialize_actions
  get_actions-Buffer b xs k w =
      let decoded =
        rw (append-nil w.bytes, length-built 0 b.action_configs xs k) at
          (deserialize-Layout [] [] w.laid refl) in
      rw (w.written, decoded)

  -- For a builder whose configurations carry the payloads `xs` with numbers in range, and whose
  -- buffer is shorter than 2^32 bytes, `get` succeeds: the buffer is as long as `bufferLength` says,
  -- and the decoded actions carry exactly `xs` in order, each under the permission and the length
  -- that were asked for and with its own end in the buffer as its boundary.
  pub get_actions-built :
      (b : ActionsBuilder) (xs : List ActionPayload)
      → CarryAll b.action_configs xs
      → buffer_length b < 256 ^ 4
      → (s : Actions) × (get_actions b ≡ some s)
        × (s.actions ≡ built 0 b.action_configs xs)
        × (length s.raw ≡ buffer_length b)
  get_actions-built b xs k h =
      let w = data_bytes-Layout b xs k h in
      (
        record { raw = w.bytes; actions = built 0 b.action_configs xs },
        get_actions-Buffer b xs k w,
        refl,
        w.width,
      )
