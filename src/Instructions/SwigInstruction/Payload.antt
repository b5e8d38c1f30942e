-- ===== src/Instructions/SwigInstruction/Payload.antt =====
-- The payload of the authority ends an instruction's data.
use swig_protocol_sdk.Common.{
  ◌≡◌, refl, sym, ◌∙◌, Option, none, some, List, [], ◌++◌, append-nil, append_assoc, Bytes, length,
  arith, Option-cases, inl, inr, ◌>>=◌,
}
use swig_protocol_sdk.Kit.{Kit, ◌then_write◌}
use swig_protocol_sdk.Kit.Laws.{write_fixed-length}
use swig_protocol_sdk.Coder.CompactInstructions.{write_compact_instructions}
use swig_protocol_sdk.Coder.Instructions.Authority.{
  write_add_authority, write_remove_authority, write_update_authority,
}
use swig_protocol_sdk.Coder.Instructions.Sign.{write_sign_v1, write_sign_v2, write_sub_account_sign}
use swig_protocol_sdk.Coder.Instructions.Session.{write_create_session}
use swig_protocol_sdk.Coder.Instructions.SubAccount.{
  write_sub_account_create, write_sub_account_withdraw, write_sub_account_toggle,
}
use swig_protocol_sdk.Coder.Instructions.Assets.{
  write_transfer_assets, write_close_token_account, write_close_swig,
}
use swig_protocol_sdk.Coder.Instructions.Locks.{
  write_add_authorization_lock, write_remove_authorization_lock,
}
use swig_protocol_sdk.Instructions.Compact.{SolAccountMeta}
use swig_protocol_sdk.Instructions.SwigInstruction.{
  BuiltInstruction, SwigInstructionArgs, SwigInstructionContext, encode_args, build,
  swig_instruction,
}

-- The creation of a wallet has no payload.
abbrev pub payload_of : SwigInstructionArgs → Bytes
payload_of (SwigInstructionArgs.create x) = []
payload_of (SwigInstructionArgs.add_authority x) = x.authority_payload
payload_of (SwigInstructionArgs.remove_authority x) = x.authority_payload
payload_of (SwigInstructionArgs.update_authority x) = x.authority_payload
payload_of (SwigInstructionArgs.sign_v1 x) = x.authority_payload
payload_of (SwigInstructionArgs.sign_v2 x) = x.authority_payload
payload_of (SwigInstructionArgs.create_session x) = x.authority_payload
payload_of (SwigInstructionArgs.sub_account_create x) = x.authority_payload
payload_of (SwigInstructionArgs.sub_account_sign x) = x.authority_payload
payload_of (SwigInstructionArgs.sub_account_withdraw x) = x.authority_payload
payload_of (SwigInstructionArgs.sub_account_toggle x) = x.authority_payload
payload_of (SwigInstructionArgs.transfer_assets x) = x.authority_payload
payload_of (SwigInstructionArgs.close_swig x) = x.authority_payload
payload_of (SwigInstructionArgs.close_token_account x) = x.authority_payload
payload_of (SwigInstructionArgs.add_authorization_lock x) = x.authority_payload
payload_of (SwigInstructionArgs.remove_authorization_lock x) = x.authority_payload

-- Where bytes are written, they end in `p`.
pub record EndsIn (p : Bytes) (o : Option Bytes) : Type 0 where
  pub ends : (b : Bytes) → o ≡ some b → (front : Bytes) × (b ≡ front ++ p)

EndsIn-last : {p : Bytes} → EndsIn p (some p)
EndsIn-last = record { ends = λ b e. ([], cc) }

EndsIn-then :
    {p : Bytes} (o₁ : Option Bytes) {o₂ : Option Bytes} → EndsIn p o₂ → EndsIn p (o₁ then_write o₂)
EndsIn-then {p} o₁ {o₂} h = record { ends = split o₁ o₂ h.ends }
  where
    split :
        (o₁ o₂ : Option Bytes)
        → ((b : Bytes) → o₂ ≡ some b → (front : Bytes) × (b ≡ front ++ p))
        → (b : Bytes) → (o₁ then_write o₂) ≡ some b
        → (front : Bytes) × (b ≡ front ++ p)
    split none o₂ h b e = cc
    split (some a) none h b e = cc
    split (some a) (some c) h b e =
        let (front, k) = h c refl in
        let k' : a ++ c ≡ b = cc in (a ++ front, sym k' ∙ rw k (sym (append_assoc a front p)))

EndsIn-append : {p : Bytes} (a : Bytes) {b : Bytes} → EndsIn p (some b) → EndsIn p (some (a ++ b))
EndsIn-append a h = EndsIn-then (some a) h

EndsIn-bind :
    {p : Bytes} {A : Type 0} (m : Option A) (f : A → Option Bytes)
    → ((a : A) → EndsIn p (f a))
    → EndsIn p (m >>= f)
EndsIn-bind none f h = record { ends = λ b e. cc }
EndsIn-bind (some a) f h = h a

module _ ⦃kit : Kit⦄ where
  EndsIn-fixed : (p : Bytes) → EndsIn p (some (kit.write_fixed (length p) p))
  EndsIn-fixed p = rw (write_fixed-length p) EndsIn-last

  ruleset endings = (EndsIn-then, EndsIn-append, EndsIn-last, EndsIn-fixed, EndsIn-bind)

  encode_args-EndsIn : (args : SwigInstructionArgs) → EndsIn (payload_of args) (encode_args args)
  unfolding encode_args write_update_authority write_close_swig write_add_authority
      write_remove_authority write_sign_v1 write_sign_v2 write_sub_account_sign write_create_session
      write_sub_account_create write_sub_account_withdraw write_sub_account_toggle
      write_transfer_assets write_close_token_account write_add_authorization_lock
      write_remove_authorization_lock
  encode_args-EndsIn (SwigInstructionArgs.create x) = record {
    ends = λ b e. (b, sym (append-nil b));
  }
  encode_args-EndsIn (SwigInstructionArgs.sign_v1 x) =
      EndsIn-bind (write_compact_instructions x.compact_instructions) _
        (λ a. search endings depth 12)
  encode_args-EndsIn _ = search endings depth 12

  -- A built instruction has the accounts, its data end in the payload, and the others are beside it.
  pub build-payload :
      (accounts : List SolAccountMeta) (args : SwigInstructionArgs)
      (pre post : List BuiltInstruction) (c : SwigInstructionContext)
      → build accounts args pre post ≡ some c
      → (front : Bytes) × (c.swig_instruction.ix_data ≡ front ++ payload_of args)
        × (c.swig_instruction.accounts ≡ accounts)
        × (c.pre_instructions ≡ pre)
        × (c.post_instructions ≡ post)
  unfolding build swig_instruction
  build-payload accounts args pre post c e = elim (Option-cases (encode_args args)) [
    | inl none_is ↦ absurd (ground (arith, none_is, e))
    | inr (b, is) ↦
        let k : some (record {
          pre_instructions = pre;
          swig_instruction = swig_instruction accounts b;
          post_instructions = post;
        })
            ≡ some c =
          rw is at e in
        let (front, f) = (encode_args-EndsIn args).ends b is in (front, cc, cc, cc, cc)
  ]
