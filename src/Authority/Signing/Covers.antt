-- ===== src/Authority/Signing/Covers.antt =====
-- An instruction's data are the signed bytes, behind a header or at the start, and the payload.
use swig_protocol_sdk.Common.{
  ℕ, ◌+◌, ◌≡◌, refl, sym, ap, Bool, true, false, ◌∙◌, Option, none, some, List, [], ◌++◌,
  append_assoc, Bytes, length, zeros, arith, length-append, Bool-cases, inl, inr, ltb, ◌^◌,
  >>=-eq-some,
}
use swig_protocol_sdk.Kit.{Kit, ◌then_write◌}
use swig_protocol_sdk.Kit.Laws.{write_fixed-length}
use swig_protocol_sdk.Coder.CompactInstructions.{write_compact_instructions}
use swig_protocol_sdk.Coder.Instructions.Discriminator.{
  SwigInstructionDiscriminator, write_discriminator,
}
use swig_protocol_sdk.Coder.Instructions.Authority.{
  write_add_authority, write_remove_authority, write_update_authority, write_add_authority_payload,
  write_remove_authority_payload, write_update_authority_payload,
}
use swig_protocol_sdk.Coder.Instructions.Session.{
  write_create_session, write_create_session_payload,
}
use swig_protocol_sdk.Coder.Instructions.SubAccount.{
  write_sub_account_create, write_sub_account_withdraw, write_sub_account_toggle,
  write_sub_account_create_payload, write_sub_account_withdraw_payload,
  write_sub_account_toggle_payload,
}
use swig_protocol_sdk.Coder.Instructions.Assets.{
  write_transfer_assets, write_close_token_account, write_close_swig, write_transfer_assets_payload,
  write_close_token_account_payload, write_close_swig_payload,
}
use swig_protocol_sdk.Coder.Instructions.Locks.{
  write_add_authorization_lock, write_remove_authorization_lock,
  write_add_authorization_lock_payload, write_remove_authorization_lock_payload,
}
use swig_protocol_sdk.Instructions.SwigInstruction.Payload.{payload_of}
use swig_protocol_sdk.Coder.Instructions.Sign.{
  SignInstructionDataArgs, write_sign_v1, write_sign_v2, write_sign, write_sub_account_sign,
}
use swig_protocol_sdk.Authority.Interface.{AuthorityInstruction}
use swig_protocol_sdk.Instructions.SwigInstruction.{
  BuiltInstruction, SwigInstructionContext, SwigInstructionArgs, encode_args, build,
  swig_instruction,
}
use swig_protocol_sdk.Instructions.Compact.{SolAccountMeta}

-- Where bytes are written, they are a header of the width, `m` and `p`.
pub record Covers (width : ℕ) (m p : Bytes) (written : Option Bytes) : Type 0 where
  pub covers :
      (b : Bytes)
      → written ≡ some b
      → (before : Bytes) × (length before ≡ width) × (b ≡ before ++ m ++ p)

-- The bytes of `message`, and `p`.
pub record Flat (p : Bytes) (message written : Option Bytes) : Type 0 where
  pub same : written ≡ (message then_write some p)

Flat-last : {p : Bytes} (o : Option Bytes) → Flat p o (o then_write some p)
Flat-last o = record { same = refl }

Flat-then :
    {p : Bytes} (o : Option Bytes) {message written : Option Bytes}
    → Flat p message written
    → Flat p (o then_write message) (o then_write written)
Flat-then {p} o {message} h = record { same = ap (λ w. o then_write w) (h.same) ∙ assoc o message }
  where
    assoc :
        (o message : Option Bytes)
        → (o then_write message then_write some p) ≡ ((o then_write message) then_write some p)
    assoc none message = refl
    assoc (some a) none = refl
    assoc (some a) (some b) = ap some (sym (append_assoc a b p))

Flat-append : {p : Bytes} (a b : Bytes) → Flat p (some (a ++ b)) (some (a ++ (b ++ p)))
Flat-append {p} a b = record { same = ap some (sym (append_assoc a b p)) }

pub Flat-Covers :
    {p m : Bytes} {message written : Option Bytes}
    → Flat p message written
    → message ≡ some m
    → Covers 0 m p written
Flat-Covers {p} {m} h e = record { covers = λ b k. ([], refl, cc (h.same, e, k)) }

Covers-last : {m p : Bytes} → Covers 0 m p (some m then_write some p)
Covers-last = record { covers = λ b e. ([], refl, cc) }

Covers-then :
    {m p : Bytes} {h : ℕ} (w : ℕ) (o : Option Bytes) {written : Option Bytes}
    → ((b : Bytes) → o ≡ some b → length b ≡ w)
    → Covers h m p written
    → Covers (w + h) m p (o then_write written)
Covers-then {m} {p} {h} w o {written} width c = record { covers = split o written width c.covers }
  where
    split :
        (o written : Option Bytes)
        → ((b : Bytes) → o ≡ some b → length b ≡ w)
        → ((b : Bytes)
            → written ≡ some b
            → (before : Bytes) × (length before ≡ h) × (b ≡ before ++ m ++ p))
        → (b : Bytes) → (o then_write written) ≡ some b
        → (before : Bytes) × (length before ≡ w + h) × (b ≡ before ++ m ++ p)
    split none written width k b e = cc
    split (some a) none width k b e = cc
    split (some a) (some d) width k b e =
        let (before, n, is) = k d refl in
        let q : a ++ d ≡ b = cc in
        (
          a ++ before,
          omega (arith, length-append a before, width a refl, n),
          rw (← q, is, append_assoc a before m, append_assoc a (before ++ m) p) refl,
        )

-- The width of what stands in front of the signed bytes, and whether the data name the payload's size.
abbrev pub header_width : AuthorityInstruction → ℕ
header_width (AuthorityInstruction.sign_v1 swig payer role_id inner) = 8
header_width (AuthorityInstruction.sign_v2 swig system role_id inner) = 8
header_width (AuthorityInstruction.sub_account_sign swig sub role_id inner) = 16
header_width _ = 0

abbrev pub is_remove_authority : AuthorityInstruction → Bool
is_remove_authority (AuthorityInstruction.remove_authority swig payer x) = true
is_remove_authority _ = false

module _ ⦃kit : Kit⦄ where
  write_uint-width : (w n : ℕ) (b : Bytes) → kit.write_uint w n ≡ some b → length b ≡ w
  write_uint-width w n b e = elim (Bool-cases (ltb n (256 ^ w))) [
    | inl h ↦
        let (a, is, n) = kit.write_in_range w n (ground (arith, h)) in
        let q : a ≡ b = cc in rw q at n
    | inr h ↦ let k = kit.write_out_of_range w n (ground (arith, h)) in cc
  ]

  write_fixed-width :
      (n : ℕ) (a b : Bytes) → length a ≡ n → some (kit.write_fixed n a) ≡ some b → length b ≡ n
  write_fixed-width n a b h e =
      let k : kit.write_fixed n a ≡ a = rw (← h) (write_fixed-length a) in
      let q : a ≡ b = cc in rw q at h

  -- What an authority signs of the data: all that is in front of the payload, but for the instructions
  -- that carry others, of which it signs those. `size` is what the encoder for removeAuthorityV1 is
  -- given.
  abbrev pub signed_of : ℕ → SwigInstructionArgs → Option Bytes
  signed_of size (SwigInstructionArgs.create x) = none
  signed_of size (SwigInstructionArgs.add_authority x) = write_add_authority_payload x
  signed_of size (SwigInstructionArgs.remove_authority x) = write_remove_authority_payload size x
  signed_of size (SwigInstructionArgs.update_authority x) = write_update_authority_payload x
  signed_of size (SwigInstructionArgs.sign_v1 x) = write_compact_instructions x.compact_instructions
  signed_of size (SwigInstructionArgs.sign_v2 x) = write_compact_instructions x.compact_instructions
  signed_of size (SwigInstructionArgs.create_session x) = write_create_session_payload x
  signed_of size (SwigInstructionArgs.sub_account_create x) = write_sub_account_create_payload x
  signed_of size (SwigInstructionArgs.sub_account_sign x) =
      write_compact_instructions x.compact_instructions
  signed_of size (SwigInstructionArgs.sub_account_withdraw x) = write_sub_account_withdraw_payload x
  signed_of size (SwigInstructionArgs.sub_account_toggle x) = write_sub_account_toggle_payload x
  signed_of size (SwigInstructionArgs.transfer_assets x) = write_transfer_assets_payload x
  signed_of size (SwigInstructionArgs.close_swig x) = write_close_swig_payload x
  signed_of size (SwigInstructionArgs.close_token_account x) = write_close_token_account_payload x
  signed_of size (SwigInstructionArgs.add_authorization_lock x) =
      write_add_authorization_lock_payload x
  signed_of size (SwigInstructionArgs.remove_authorization_lock x) =
      write_remove_authorization_lock_payload x

  abbrev pub header_of : SwigInstructionArgs → ℕ
  header_of (SwigInstructionArgs.sign_v1 x) = 8
  header_of (SwigInstructionArgs.sign_v2 x) = 8
  header_of (SwigInstructionArgs.sub_account_sign x) = 16
  header_of _ = 0

  abbrev pub names_size : SwigInstructionArgs → Bool
  names_size (SwigInstructionArgs.remove_authority x) = true
  names_size _ = false

  ruleset flats = (Flat-then, Flat-append, Flat-last)

  sign-Covers :
      (d : SwigInstructionDiscriminator) (x : SignInstructionDataArgs) (m : Bytes)
      → write_compact_instructions x.compact_instructions ≡ some m
      → Covers 8 m x.authority_payload (write_sign d (length x.authority_payload) x)
  unfolding write_sign write_discriminator
  sign-Covers d x m e =
      rw (e, write_fixed-length x.authority_payload)
        (Covers-then 2 _ (write_uint-width 2 _) (
          Covers-then 2 _ (write_uint-width 2 _)
            (Covers-then 4 _ (write_uint-width 4 _) Covers-last)))

  pub encode_args-Covers :
      (size : ℕ) (args : SwigInstructionArgs) (m : Bytes)
      → (names_size args ≡ true → length (payload_of args) ≡ size)
      → signed_of size args ≡ some m
      → Covers (header_of args) m (payload_of args) (encode_args args)
  unfolding encode_args write_update_authority write_close_swig write_add_authority
      write_remove_authority write_sign_v1 write_sign_v2 write_sub_account_sign write_create_session
      write_sub_account_create write_sub_account_withdraw write_sub_account_toggle
      write_transfer_assets write_close_token_account write_add_authorization_lock
      write_remove_authorization_lock write_update_authority_payload write_close_swig_payload
      write_add_authority_payload write_remove_authority_payload write_create_session_payload
      write_sub_account_create_payload write_sub_account_withdraw_payload
      write_sub_account_toggle_payload write_transfer_assets_payload
      write_close_token_account_payload write_add_authorization_lock_payload
      write_remove_authorization_lock_payload write_discriminator
  encode_args-Covers size (SwigInstructionArgs.create x) m h e = cc
  encode_args-Covers size (SwigInstructionArgs.sign_v1 x) m h e =
      sign-Covers SwigInstructionDiscriminator.sign_v1 x m e
  encode_args-Covers size (SwigInstructionArgs.sign_v2 x) m h e =
      sign-Covers SwigInstructionDiscriminator.sign_v2 x m e
  encode_args-Covers size (SwigInstructionArgs.sub_account_sign x) m h e = rw e (
      Covers-then 2 _ (write_uint-width 2 _) (
        Covers-then 2 _ (write_uint-width 2 _) (
          Covers-then 4 _ (write_uint-width 4 _)
            (Covers-then 8 _ (λ b. write_fixed-width 8 (zeros 8) b refl) Covers-last))))
  encode_args-Covers size (SwigInstructionArgs.add_authority x) m h e =
      rw (write_fixed-length x.authority_payload, write_fixed-length x.new_authority_data)
        (Flat-Covers (search flats depth 12) e)
  encode_args-Covers size (SwigInstructionArgs.remove_authority x) m h e =
      rw (write_fixed-length x.authority_payload, h refl) (Flat-Covers (search flats depth 12) e)
  encode_args-Covers size _ m h e = Flat-Covers (search flats depth 12) e

  -- A built instruction's data and accounts.
  pub build-Covers :
      (size : ℕ) (accounts : List SolAccountMeta) (args : SwigInstructionArgs) (m : Bytes)
      (pre post : List BuiltInstruction) (c : SwigInstructionContext)
      → (names_size args ≡ true → length (payload_of args) ≡ size)
      → signed_of size args ≡ some m
      → build accounts args pre post ≡ some c
      → (before : Bytes) × (length before ≡ header_of args)
        × (c.swig_instruction.ix_data ≡ before ++ m ++ payload_of args)
        × (c.swig_instruction.accounts ≡ accounts)
        × (c.pre_instructions ≡ pre)
        × (c.post_instructions ≡ post)
  unfolding build swig_instruction
  build-Covers size accounts args m pre post c fits e k =
      let (b, is, made) = >>=-eq-some (encode_args args) _ k in
      let (before, width, data_is) = (encode_args-Covers size args m fits e).covers b is in
      (before, width, cc, cc, cc, cc)

  -- What arguments say of the payload that they are given.
  abbrev pub Shape : ℕ → Option Bytes → (Bytes → SwigInstructionArgs) → ℕ → Bool → Type 0
  Shape size message args width named =
      (p : Bytes)
      → (payload_of (args p) ≡ p)
        × (signed_of size (args p) ≡ message)
        × (header_of (args p) ≡ width)
        × (names_size (args p) ≡ named)
