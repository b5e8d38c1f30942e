-- ===== src/Authority/Tests.antt =====
-- The authorities of lib/src/authority/instructions, run with the little-endian kit, whose Base58 texts
-- are the keys themselves, and with hashes that keep the first bytes.
use swig_protocol_sdk.Common.{
  ℕ, ◌≡◌, refl, inl, inr, true, false, none, some, List, [], ◌∷◌, ◌++◌, Bytes, take, replicate,
  arith,
}
use swig_protocol_sdk.Kit.LittleEndian.{little_endian, write_le, read_le}
use swig_protocol_sdk.Coder.Instructions.Assets.{write_transfer_assets}
use swig_protocol_sdk.Instructions.Consts.{
  instructions_sysvar_string, system_program_address_string, secp256r1_program_string,
  swig_program_address_string,
}
use swig_protocol_sdk.Instructions.Compact.{SolAccountMeta, SolInstruction}
use swig_protocol_sdk.Instructions.SwigInstruction.{BuiltInstruction, SwigInstructionContext}
use swig_protocol_sdk.Authority.Interface.{InstructionDataOptions, AuthorityInstruction}
use swig_protocol_sdk.Authority.Ed25519.{ed25519_instruction}
use swig_protocol_sdk.Authority.Ed25519.Authorised.{
  Authorised, LeadsToSigner, ed25519_instruction-LeadsToSigner,
}
use swig_protocol_sdk.Authority.Signing.{Hashes}
use swig_protocol_sdk.Authority.Secp256k1.Covered.{Signed}
use swig_protocol_sdk.Authority.Secp256k1.Signed.{
  secp256k1_instruction-Signed, secp256k1_instruction-refuses,
}
use swig_protocol_sdk.Authority.Secp256r1.Covered.{Signed as R1Signed}
use swig_protocol_sdk.Authority.Secp256r1.Signed.{
  secp256r1_instruction-Signed, secp256r1_instruction-refuses,
}
use swig_protocol_sdk.Authority.ProgramExec.Checked.{Checked}
use swig_protocol_sdk.Authority.ProgramExec.Requests.{program_exec_instruction-Checked}
use swig_protocol_sdk.Authority.Secp256k1.Methods.{secp256k1_instruction}
use swig_protocol_sdk.Authority.Secp256r1.Methods.{secp256r1_instruction}
use swig_protocol_sdk.Authority.ProgramExec.Methods.{program_exec_instruction}

abbrev key : ℕ → Bytes
key n = replicate 32 n

abbrev hashes : Hashes
hashes = record { sha256 = λ b. take 4 b; keccak_256 = λ b. take 3 b; hex_text = λ b. b }

abbrev options : InstructionDataOptions
options = record {
  signing_fn = some (λ h. record { signature = h; signing_prefix = []; message = none });
  current_slot = some 300;
  odometer = none;
  pre_instructions = [];
  post_instructions = [];
  fee_payer = none;
}

abbrev request : AuthorityInstruction
request =
    AuthorityInstruction.transfer_assets (key 1) (key 2) (key 3)
      (record { role_id = 7; authority_payload = [] })

-- The accounts of the request, without the authority.
abbrev accounts : List SolAccountMeta
accounts =
    record { public_key = key 1; writable = true; signer = false }
    ∷ record { public_key = key 3; writable = true; signer = false }
    ∷ record { public_key = key 2; writable = true; signer = true }
    ∷ record { public_key = system_program_address_string; writable = false; signer = false }
    ∷ []

abbrev sysvar : SolAccountMeta
sysvar = record { public_key = instructions_sysvar_string; writable = false; signer = false }

abbrev context : List BuiltInstruction → List SolAccountMeta → Bytes → SwigInstructionContext
context pre metas payload = record {
  pre_instructions = pre;
  swig_instruction = record {
    program = swig_program_address_string;
    accounts = metas;
    ix_data = 13 ∷ 0 ∷ 0 ∷ 0 ∷ 7 ∷ 0 ∷ 0 ∷ 0 ∷ payload;
  };
  post_instructions = [];
}

-- The slot and the odometer.
abbrev slot_and_odometer : Bytes
slot_and_odometer = 44 ∷ 1 ∷ 0 ∷ 0 ∷ 0 ∷ 0 ∷ 0 ∷ 0 ∷ 1 ∷ 0 ∷ 0 ∷ 0 ∷ []

abbrev k1_context : SwigInstructionContext
k1_context = context [] accounts (slot_and_odometer ++ 13 ∷ 0 ∷ 0 ∷ 0 ∷ [])

k1_given : secp256k1_instruction hashes [] options request ≡ some k1_context
unfolding secp256k1_instruction swig_protocol_sdk.Authority.Secp256k1.Payload.signed_instruction
    write_le write_transfer_assets
k1_given = refl

secp256k1_instruction-Signed_example : Signed hashes options 0 k1_context.swig_instruction
secp256k1_instruction-Signed_example =
    secp256k1_instruction-Signed hashes [] options request (λ h. cc) k1_context k1_given

secp256k1_instruction-refuses_example :
    secp256k1_instruction hashes [] (record options { signing_fn = none }) request ≡ none
secp256k1_instruction-refuses_example =
    secp256k1_instruction-refuses hashes [] (record options { signing_fn = none }) request
      (inl refl)

secp256r1_instruction-refuses_example :
    secp256r1_instruction hashes []
      (replicate 33 9)
      (record options { current_slot = none })
      request
    ≡ none
secp256r1_instruction-refuses_example =
    secp256r1_instruction-refuses hashes [] (replicate 33 9)
      (record options { current_slot = none }) request (inr refl)

-- `sigVerifyIx`.
abbrev verification : BuiltInstruction
verification = record {
  program = secp256r1_program_string;
  accounts = [];
  ix_data =
      1 ∷ 0 ∷ 49 ∷ 0 ∷ 255 ∷ 255 ∷ 16 ∷ 0 ∷ 255 ∷ 255 ∷ 113 ∷ 0 ∷ 3 ∷ 0 ∷ 255 ∷ 255 ∷ replicate 33 9
      ++ 13 ∷ 0 ∷ 0 ∷ replicate 61 0
      ++ 13 ∷ 0 ∷ 0 ∷ [];
}

abbrev r1_context : SwigInstructionContext
r1_context =
    context (verification ∷ []) (accounts ++ sysvar ∷ [])
      (slot_and_odometer ++ 4 ∷ 0 ∷ 0 ∷ 0 ∷ 0 ∷ [])

r1_given : secp256r1_instruction hashes [] (replicate 33 9) options request ≡ some r1_context
unfolding secp256r1_instruction swig_protocol_sdk.Authority.Secp256r1.Payload.signed_instruction
    write_le write_transfer_assets
r1_given = refl

secp256r1_instruction-Signed_example : R1Signed hashes options (replicate 33 9) [] 0 r1_context
secp256r1_instruction-Signed_example =
    secp256r1_instruction-Signed hashes [] (replicate 33 9) options request (λ h. cc) r1_context
      r1_given

-- The one instruction in front of it.
abbrev preceding : BuiltInstruction
preceding = record {
  program = key 8;
  accounts =
      record { public_key = key 1; writable = true; signer = false }
      ∷ record { public_key = key 2; writable = false; signer = true }
      ∷ [];
  ix_data = 5 ∷ 6 ∷ 7 ∷ [];
}

abbrev program_options : InstructionDataOptions
program_options = record options { pre_instructions = preceding ∷ [] }

-- The program, and the prefix 5, 6.
abbrev program_data : Bytes
program_data = key 8 ++ 2 ∷ replicate 7 0 ++ 5 ∷ 6 ∷ replicate 38 0

abbrev program_context : SwigInstructionContext
program_context = context (preceding ∷ []) (accounts ++ sysvar ∷ []) (4 ∷ [])

program_given :
    program_exec_instruction [] program_data program_options request ≡ some program_context
unfolding program_exec_instruction
    swig_protocol_sdk.Authority.ProgramExec.Preceding.program_instruction read_le
    write_transfer_assets write_le
program_given = refl

-- Another program in front is refused.
other_program_refused :
    program_exec_instruction []
      (key 7 ++ 2 ∷ replicate 7 0 ++ 5 ∷ 6 ∷ replicate 38 0)
      program_options
      request
    ≡ none
unfolding program_exec_instruction
    swig_protocol_sdk.Authority.ProgramExec.Preceding.program_instruction read_le
other_program_refused = refl

program_exec_instruction-Checked_example :
    Checked program_data (key 1) (key 2) program_options program_context
program_exec_instruction-Checked_example =
    program_exec_instruction-Checked [] program_data program_options request tt program_context
      program_given

-- A transfer from the wallet's account, of which the authority's account is one.
abbrev store : List SolAccountMeta
store =
    record { public_key = key 3; writable = true; signer = true }
    ∷ record { public_key = key 5; writable = true; signer = true }
    ∷ []

abbrev transfer : SolInstruction
transfer = record {
  program = system_program_address_string;
  accounts = 0 ∷ 1 ∷ [];
  ix_data = 2 ∷ 0 ∷ 0 ∷ 0 ∷ 9 ∷ 0 ∷ 0 ∷ 0 ∷ 0 ∷ 0 ∷ 0 ∷ 0 ∷ [];
}

abbrev signing : AuthorityInstruction
signing = AuthorityInstruction.sign_v2 (key 1) (key 3) 7 (transfer ∷ [])

ed25519_instruction-LeadsToSigner_example :
    Authorised (key 5) (ed25519_instruction store (key 5) options signing)
    × ((c : SwigInstructionContext)
        → ed25519_instruction store (key 5) options signing ≡ some c
        → LeadsToSigner (key 5) c.swig_instruction)
ed25519_instruction-LeadsToSigner_example =
    ed25519_instruction-LeadsToSigner store (key 5) options signing refl
      ((omega arith, (omega arith, tt)), tt)
