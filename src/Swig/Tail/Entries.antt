-- ===== src/Swig/Tail/Entries.antt =====
-- The format of a swig tail, described apart from the code, and that `decodeSwigTail` accepts exactly
-- the tails of that format.
use swig_protocol_sdk.Common.{
  ℕ, zero, suc, ◌+◌, ◌≤◌, ◌<◌, ◌≡◌, refl, ap, ◌∙◌, ◌↔◌, true, false, some, List, [], ◌∷◌, ◌++◌,
  append_assoc, append-nil, Bytes, length, slice, drop, drop-slice, length-slice, length-append,
  slice-middle, drop-length, leb, ltb, leb→le, guard, guard-true, >>=-eq-some, Bool-cases, inl, inr,
  arith,
}
use swig_protocol_sdk.Kit.{Kit, decode}
use swig_protocol_sdk.Coder.Headers.{SwigTailHeader, read_swig_tail_header}
use swig_protocol_sdk.Swig.Tail.{SwigTailEntry, decode_entries, decode_swig_tail}

module _ ⦃kit : Kit⦄ where
  -- Entries one behind the other: a header of eight bytes, and the value whose length it gives.
  pub data Entries : List SwigTailEntry → Bytes → Type 0 where
    done : Entries [] []
    entry :
        {e : SwigTailEntry} {rest : List SwigTailEntry} {bs : Bytes} (h : Bytes)
        → length h ≡ 8
        → decode read_swig_tail_header h ≡ some e.header
        → length e.value ≡ e.header.value_len
        → Entries rest bs
        → Entries (e ∷ rest) (h ++ (e.value ++ bs))

  -- One round that succeeds.
  record Round (fuel : ℕ) (tail : Bytes) (cursor : ℕ) (es : List SwigTailEntry) : Type 0 where
    header : SwigTailHeader
    rest : List SwigTailEntry
    header_fits : cursor + 8 ≤ length tail
    header_decoded : decode read_swig_tail_header (slice tail cursor (cursor + 8)) ≡ some header
    value_fits : cursor + 8 + header.value_len ≤ length tail
    rest_decoded : decode_entries fuel tail (cursor + 8 + header.value_len) ≡ some rest
    entries :
        es
        ≡ record {
          header = header;
          value = slice tail (cursor + 8) (cursor + 8 + header.value_len);
        }
          ∷ rest

  round :
      (fuel : ℕ) (tail : Bytes) (cursor : ℕ) {es : List SwigTailEntry}
      → ltb cursor (length tail) ≡ true
      → decode_entries (suc fuel) tail cursor ≡ some es
      → Round fuel tail cursor es
  unfolding decode_entries
  round fuel tail cursor {es} more e =
      let (_, g₁, e₁) = >>=-eq-some (guard (leb (cursor + 8) (length tail))) _ (rw more at e) in
      let (header, eh, e₂) =
        >>=-eq-some (decode read_swig_tail_header (slice tail cursor (cursor + 8))) _ e₁ in
      let (_, g₂, e₃) =
        >>=-eq-some (guard (leb (cursor + 8 + header.value_len) (length tail))) _ e₂ in
      let (rest, er, e₄) =
        >>=-eq-some (decode_entries fuel tail (cursor + 8 + header.value_len)) _ e₃ in
      record {
        header = header;
        rest = rest;
        header_fits = leb→le _ _ (guard-true _ g₁);
        header_decoded = eh;
        value_fits = leb→le _ _ (guard-true _ g₂);
        rest_decoded = er;
        entries = ground (arith, e₄);
      }

  finished :
      (fuel : ℕ) (tail : Bytes) (cursor : ℕ) {es : List SwigTailEntry}
      → ltb cursor (length tail) ≡ false
      → decode_entries (suc fuel) tail cursor ≡ some es
      → [] ≡ es
  unfolding decode_entries
  finished fuel tail cursor end e = ground (arith, end)

  decode_entries-Entries :
      (fuel : ℕ) (tail : Bytes) (cursor : ℕ) {es : List SwigTailEntry}
      → cursor ≤ length tail
      → decode_entries fuel tail cursor ≡ some es
      → Entries es (drop cursor tail)
  decode_entries-Entries zero tail cursor h e = absurd (unfold decode_entries in cc)
  decode_entries-Entries (suc fuel) tail cursor {es} h e =
      elim (Bool-cases (ltb cursor (length tail))) [
        | inl more ↦
            let r = round fuel tail cursor more e in
            let ih = decode_entries-Entries fuel tail _ r.value_fits r.rest_decoded in
            let h₁ = slice tail cursor (cursor + 8) in
            let v = slice tail (cursor + 8) (cursor + 8 + r.header.value_len) in
            let whole : drop cursor tail
                ≡ h₁ ++ (v ++ drop (cursor + 8 + r.header.value_len) tail) =
              drop-slice tail cursor 8
              ∙ ap (λ t. h₁ ++ t) (drop-slice tail (cursor + 8) r.header.value_len) in
            rw (r.entries, whole)
              (entry h₁ (length-slice tail cursor 8 r.header_fits) r.header_decoded
                (length-slice tail (cursor + 8) r.header.value_len r.value_fits) ih)
        | inr end ↦
            rw (← finished fuel tail cursor end e, drop-length cursor tail (ground arith)) done
      ]

  -- A round on a header and its value goes on behind them.
  decode_step :
      (fuel : ℕ) (tail : Bytes) (cursor : ℕ) (e : SwigTailEntry) (rest : List SwigTailEntry)
      (h : Bytes)
      → cursor + 8 + e.header.value_len ≤ length tail
      → slice tail cursor (cursor + 8) ≡ h
      → decode read_swig_tail_header h ≡ some e.header
      → slice tail (cursor + 8) (cursor + 8 + e.header.value_len) ≡ e.value
      → decode_entries fuel tail (cursor + 8 + e.header.value_len) ≡ some rest
      → decode_entries (suc fuel) tail cursor ≡ some (e ∷ rest)
  unfolding decode_entries
  decode_step fuel tail cursor e rest h fits sh eh sv er =
      simp (more, header_fits, value_fits, sh, eh, sv, er)
    where
      more : ltb cursor (length tail) ≡ true
      more = ground arith

      header_fits : leb (cursor + 8) (length tail) ≡ true
      header_fits = ground arith

      value_fits : leb (cursor + 8 + e.header.value_len) (length tail) ≡ true
      value_fits = ground arith

  Entries-decode_entries :
      {es : List SwigTailEntry} {bs : Bytes} (fuel : ℕ) (front : Bytes)
      → Entries es bs
      → length bs < fuel
      → decode_entries fuel (front ++ bs) (length front) ≡ some es
  Entries-decode_entries zero front l hf = absurd (omega arith)
  Entries-decode_entries (suc fuel) front done hf =
      let end : ltb (length front) (length (front ++ [])) ≡ false =
        rw (append-nil front) (ground arith) in
      unfold decode_entries in rw end
  Entries-decode_entries (suc fuel) front (entry {e} {rest} {bs} h hh eh hv l) hf =
      let size = length-append front (h ++ (e.value ++ bs)) in
      let size₁ = length-append h (e.value ++ bs) in
      let size₂ = length-append e.value bs in
      let at : length front + 8 + e.header.value_len ≡ length ((front ++ h) ++ e.value) =
        omega (arith, length-append (front ++ h) e.value, length-append front h, hh, hv) in
      decode_step fuel (front ++ (h ++ (e.value ++ bs))) (length front) e rest h
        (omega (arith, size, size₁, size₂, hh, hv))
        (slice-middle front h (e.value ++ bs) (length front) (length front + 8) refl (omega arith))
        eh
        (rw (← append_assoc front h (e.value ++ bs)) (
          slice-middle (front ++ h) e.value bs (length front + 8)
            (length front + 8 + e.header.value_len) (omega (arith, length-append front h))
            (omega arith)))
        (rw (at, ← append_assoc front h (e.value ++ bs), ← append_assoc (front ++ h) e.value bs)
          (Entries-decode_entries fuel ((front ++ h) ++ e.value) l (omega (arith, size₁, size₂))))

  -- `decodeSwigTail` accepts exactly the tails that are entries one behind the other with nothing
  -- over, and returns those entries; its loop never stops short of the end.
  pub decode_swig_tail-Entries :
      (tail : Bytes) (es : List SwigTailEntry) → (decode_swig_tail tail ≡ some es) ↔ Entries es tail
  unfolding decode_swig_tail
  decode_swig_tail-Entries tail es = (
    λ e. decode_entries-Entries (suc (length tail)) tail 0 (omega arith) e,
    λ l. Entries-decode_entries (suc (length tail)) [] l (omega arith),
  )
