-- ===== src/Authority/ProgramExec/Checked.antt =====
-- What an instruction of an authority that is a program comes with.
use swig_protocol_sdk.Common.{
  ℕ, suc, ◌≡◌, refl, sym, ap, ◌∙◌, true, ◌&&◌, Bool-cases, inl, inr, Option, some, List, [], ◌∷◌,
  ◌++◌, Bytes, length, take, drop, take-append-drop, get_elem?, get_elem?-length, bytes_equal,
  bytes_equal_iff, guard, guard-true, ◌==◌, ◌>>=◌, >>=-eq-some, arith,
}
use swig_protocol_sdk.Kit.{Kit, decode}
use swig_protocol_sdk.Coder.ProgramExec.{ProgramExecData, read_program_exec}
use swig_protocol_sdk.Instructions.Consts.{instructions_sysvar_string}
use swig_protocol_sdk.Instructions.Keys.{sol_public_key}
use swig_protocol_sdk.Instructions.Compact.{SolAccountMeta}
use swig_protocol_sdk.Instructions.SwigInstruction.{
  BuiltInstruction, SwigInstructionArgs, SwigInstructionContext, build,
}
use swig_protocol_sdk.Coder.CompactInstructions.{CompactInstruction}
use swig_protocol_sdk.Instructions.SwigInstruction.Payload.{payload_of, build-payload}
use swig_protocol_sdk.Authority.Interface.{InstructionDataOptions}
use swig_protocol_sdk.Authority.Interface.Compacted.{OwnAt}
use swig_protocol_sdk.Authority.ProgramExec.Preceding.{
  elements_equal, arrays_equal, preceding_instruction, has_account,
  validate_and_get_pre_instructions, program_instruction, program_sign_instruction,
  instructions_sysvar_meta,
}

elements_equal-eq : (a b : Bytes) → length a ≡ length b → elements_equal a b ≡ true → a ≡ b
unfolding elements_equal
elements_equal-eq [] [] h e = refl
elements_equal-eq [] (y ∷ b) h e = absurd (omega (arith, h))
elements_equal-eq (x ∷ a) [] h e = absurd (omega (arith, h))
elements_equal-eq (x ∷ a) (y ∷ b) h e = ground (arith, elements_equal-eq a b (omega (arith, h)))

-- `arraysEqual` decides equality.
arrays_equal-eq : (a b : Bytes) → arrays_equal a b ≡ true → a ≡ b
unfolding arrays_equal
arrays_equal-eq a b e = ground (arith, elements_equal-eq a b)

module _ ⦃kit : Kit⦄ where
  -- An account of the list has the key.
  pub record Has (accounts : List SolAccountMeta) (key : Bytes) : Type 0 where
    pub index : ℕ
    pub meta : SolAccountMeta
    pub at : get_elem? accounts index ≡ some meta
    pub same_key : kit.base58 meta.public_key ≡ kit.base58 key

  has_account-Has :
      (accounts : List SolAccountMeta) (key : Bytes)
      → has_account accounts key ≡ true
      → Has accounts key
  unfolding has_account
  has_account-Has [] key e = cc
  has_account-Has (a ∷ accounts) key e =
      elim (Bool-cases (bytes_equal (kit.base58 a.public_key) (kit.base58 key))) [
        | inl h ↦ record {
          index = 0;
          meta = a;
          at = refl;
          same_key = (bytes_equal_iff (kit.base58 a.public_key) (kit.base58 key)).0 h;
        }
        | inr h ↦
            let k = has_account-Has accounts key (rw h at e) in
            record { index = suc k.index; meta = k.meta; at = k.at; same_key = k.same_key }
      ]

  -- The one instruction in front runs the program of the authority, its data start with the
  -- authority's prefix, and its accounts have the wallet and `second`.
  pub record Preceded (authority_data swig second : Bytes) (pre : List BuiltInstruction)
      : Type 0 where
    pub preceding : BuiltInstruction
    pub only : pre ≡ preceding ∷ []
    pub decoded : ProgramExecData
    pub decoded_is : decode read_program_exec authority_data ≡ some decoded
    pub program_is : kit.base58 preceding.program ≡ kit.base58 decoded.program_id
    pub rest : Bytes
    pub data_is :
        preceding.ix_data ≡ take decoded.instruction_prefix_len decoded.instruction_prefix ++ rest
    pub has_swig : Has preceding.accounts swig
    pub has_second : Has preceding.accounts second

  preceding_instruction-only :
      (pre : List BuiltInstruction) (ix : BuiltInstruction)
      → preceding_instruction pre ≡ some ix
      → pre ≡ ix ∷ []
  unfolding preceding_instruction
  preceding_instruction-only [] ix e = cc
  preceding_instruction-only (x ∷ []) ix e = cc
  preceding_instruction-only (x ∷ y ∷ pre) ix e = cc

  validate-Preceded :
      (options : InstructionDataOptions) (authority_data swig second : Bytes)
      (pre : List BuiltInstruction)
      → validate_and_get_pre_instructions options authority_data swig second ≡ some pre
      → Preceded authority_data swig second pre × (pre ≡ options.pre_instructions)
  unfolding validate_and_get_pre_instructions sol_public_key
  validate-Preceded options authority_data swig second pre e =
      let (ix, one, e₁) = >>=-eq-some (preceding_instruction options.pre_instructions) _ e in
      let (decoded, read, e₂) = >>=-eq-some (decode read_program_exec authority_data) _ e₁ in
      let (program, key, e₃) = >>=-eq-some (sol_public_key decoded.program_id) _ e₂ in
      let (_, _, same) = >>=-eq-some (guard (length decoded.program_id == 32)) _ key in
      let (_, g₁, e₄) =
        >>=-eq-some (guard (bytes_equal (kit.base58 ix.program) (kit.base58 program))) _ e₃ in
      let prefix = take decoded.instruction_prefix_len decoded.instruction_prefix in
      let (_, g₂, e₅) =
        >>=-eq-some (guard (arrays_equal (take (length prefix) ix.ix_data) prefix)) _ e₄ in
      let (_, g₃, e₆) =
        >>=-eq-some (guard (has_account ix.accounts swig && has_account ix.accounts second)) _ e₅ in
      let found = guard-true _ g₃ in
      let start = arrays_equal-eq (take (length prefix) ix.ix_data) prefix (guard-true _ g₂) in
      let k : options.pre_instructions ≡ pre = cc in
      (
        record {
          preceding = ix;
          only = sym k ∙ preceding_instruction-only options.pre_instructions ix one;
          decoded = decoded;
          decoded_is = read;
          program_is =
              (bytes_equal_iff (kit.base58 ix.program) (kit.base58 program)).0 (guard-true _ g₁)
              ∙ ap kit.base58 cc;
          rest = drop (length prefix) ix.ix_data;
          data_is =
              sym (take-append-drop (length prefix) ix.ix_data)
              ∙ ap (λ b. b ++ drop (length prefix) ix.ix_data) start;
          has_swig = has_account-Has ix.accounts swig (ground (arith, found));
          has_second = has_account-Has ix.accounts second (ground (arith, found));
        },
        sym k,
      )

  -- The checked instruction in front, the payload, and the account that it leads to.
  pub record Checked (authority_data swig second : Bytes) (options : InstructionDataOptions)
      (c : SwigInstructionContext) : Type 0 where
    pub preceded : Preceded authority_data swig second c.pre_instructions
    pub post_is : c.post_instructions ≡ options.post_instructions
    pub front : Bytes
    pub index : ℕ
    pub data_is : c.swig_instruction.ix_data ≡ front ++ index ∷ []
    pub sysvar : SolAccountMeta
    pub at : get_elem? c.swig_instruction.accounts index ≡ some sysvar
    pub same_key :
        kit.base58 sysvar.public_key ≡ kit.base58 (kit.from_base58 instructions_sysvar_string)

  -- The instruction, where a call gives one.
  pub record GivesChecked (authority_data swig second : Bytes) (options : InstructionDataOptions)
      (result : Option SwigInstructionContext) : Type 0 where
    pub gives :
        (c : SwigInstructionContext)
        → result ≡ some c
        → Checked authority_data swig second options c

  Checked-built :
      (authority_data swig second : Bytes) (options : InstructionDataOptions)
      (pre : List BuiltInstruction) (accounts : List SolAccountMeta) (args : SwigInstructionArgs)
      (index : ℕ) (found : SolAccountMeta) (c : SwigInstructionContext)
      → validate_and_get_pre_instructions options authority_data swig second ≡ some pre
      → build accounts args pre options.post_instructions ≡ some c
      → payload_of args ≡ index ∷ []
      → get_elem? accounts index ≡ some found
      → kit.base58 found.public_key ≡ kit.base58 (kit.from_base58 instructions_sysvar_string)
      → Checked authority_data swig second options c
  Checked-built authority_data swig second options pre accounts args index found c v e own at key =
      let (preceded, _) = validate-Preceded options authority_data swig second pre v in
      let (front, ends, same, first, last) =
        build-payload accounts args pre options.post_instructions c e in
      record {
        preceded = rw (← first) at preceded;
        post_is = last;
        front = front;
        index = index;
        data_is = rw (← own) ends;
        sysvar = found;
        at = rw same at;
        same_key = key;
      }

  pub program_instruction-GivesChecked :
      (authority_data swig second : Bytes) (options : InstructionDataOptions)
      (base_metas more : List SolAccountMeta) (args : Bytes → SwigInstructionArgs)
      → ((p : Bytes) → payload_of (args p) ≡ p)
      → GivesChecked authority_data swig second options
          (program_instruction authority_data swig second options base_metas more args)
  unfolding program_instruction instructions_sysvar_meta
  program_instruction-GivesChecked authority_data swig second options base_metas more args own =
      record {
        gives = λ c e.
            let (pre, v, e₁) =
              >>=-eq-some (validate_and_get_pre_instructions options authority_data swig second) _
                e in
            Checked-built authority_data swig second options pre
              (base_metas ++ instructions_sysvar_meta ∷ more) (args (length base_metas ∷ []))
              (length base_metas) instructions_sysvar_meta c v e₁ (own (length base_metas ∷ []))
              (get_elem?-length base_metas more instructions_sysvar_meta) refl;
      }

  pub program_sign_instruction-GivesChecked :
      (authority_data swig second : Bytes) (options : InstructionDataOptions) (i : ℕ)
      {result : Option (List SolAccountMeta × List CompactInstruction)}
      → OwnAt i instructions_sysvar_meta result
      → (args : List CompactInstruction → Bytes → SwigInstructionArgs)
      → ((cs : List CompactInstruction) (p : Bytes) → payload_of (args cs p) ≡ p)
      → GivesChecked authority_data swig second options (
          result >>= λ (metas, cs).
          program_sign_instruction authority_data swig second options i metas (args cs))
  unfolding program_sign_instruction instructions_sysvar_meta
  program_sign_instruction-GivesChecked authority_data swig second options i {result} own args
        payload =
      record {
        gives = λ c e.
            let e₀ : program_sign_instruction authority_data swig second options i own.accounts
                  (args own.compact_ixs)
                ≡ some c =
              rw own.result_is at e in
            let (pre, v, e₁) =
              >>=-eq-some (validate_and_get_pre_instructions options authority_data swig second) _
                e₀ in
            Checked-built authority_data swig second options pre own.accounts
              (args own.compact_ixs (i ∷ [])) i own.found c v e₁ (payload own.compact_ixs (i ∷ []))
              own.at own.same_key;
      }
