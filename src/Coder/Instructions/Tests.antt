-- ===== src/Coder/Instructions/Tests.antt =====
-- The instruction data of coder/src/instructions, run with little-endian codecs, and the layouts of
-- coder/src/types that authorities use.
use swig_protocol_sdk.Common.{
  ◌+◌, ◌≡◌, refl, true, false, some, [], ◌∷◌, ◌++◌, replicate, zeros, arith,
}
use swig_protocol_sdk.Kit.{Encodes, EncodesAll}
use swig_protocol_sdk.Kit.Arrays.{total}
use swig_protocol_sdk.Kit.LittleEndian.{little_endian, write_le}
use swig_protocol_sdk.Coder.AccountsPayload.{AccountMetaLike}
use swig_protocol_sdk.Coder.AccountsPayload.Injective.{write_accounts_payload-injective}
use swig_protocol_sdk.Coder.AuthorityTypes.{AuthorityType}
use swig_protocol_sdk.Coder.CompactInstructions.RoundTrip.{wire_size}
use swig_protocol_sdk.Coder.ProgramExec.{
  ProgramExecSessionArgs, write_program_exec_session, read_program_exec_session,
}
use swig_protocol_sdk.Coder.ProgramExec.RoundTrip.{Encodes-program_exec_session}
use swig_protocol_sdk.Coder.Instructions.Discriminator.{
  SwigInstructionDiscriminator, discriminator_code, write_discriminator, identify_swig_instruction,
}
use swig_protocol_sdk.Coder.Instructions.Discriminator.Identify.{identify-prefix}
use swig_protocol_sdk.Coder.Instructions.Create.{
  CreateV1InstructionDataArgs, write_create_v1, read_create_v1,
}
use swig_protocol_sdk.Coder.Instructions.Create.Decoder.{read_create_v1-write}
use swig_protocol_sdk.Coder.Instructions.Locks.{
  AddAuthorizationLockInstructionDataArgs, write_add_authorization_lock,
  read_add_authorization_lock,
}
use swig_protocol_sdk.Coder.Instructions.Locks.RoundTrip.{EncodesAll-add_authorization_lock}
use swig_protocol_sdk.Coder.Instructions.Session.{
  CreateSessionInstructionDataArgs, write_create_session, read_create_session,
}
use swig_protocol_sdk.Coder.Instructions.Session.Decoder.{read_create_session-write}
use swig_protocol_sdk.Coder.Instructions.Sign.{
  SignInstructionDataArgs, write_sign, write_sub_account_sign,
}
use swig_protocol_sdk.Coder.Instructions.Sign.Wire.{
  IsSign, read_sign_wire, read_sub_account_sign_wire, write_sign-wire, write_sub_account_sign-wire,
}

abbrev signing : SignInstructionDataArgs
signing = record {
  role_id = 7;
  compact_instructions =
      record { program_id_index = 2; accounts = 0 ∷ 3 ∷ []; ix_data = 2 ∷ 0 ∷ [] } ∷ [];
  authority_payload = 5 ∷ [];
}

signing-IsSign : IsSign signing
unfolding wire_size
signing-IsSign = record {
  few = omega arith;
  each = (
    record {
      program_id_index_fits = omega arith;
      accounts_fit = (omega arith, (omega arith, tt));
      accounts_few = omega arith;
      ix_data_short = omega arith;
    },
    tt,
  );
  instruction_payload_len_fits = omega arith;
  role_id_fits = omega arith;
}

write_sign-wire_example :
    EncodesAll
      (write_sign SwigInstructionDiscriminator.sign_v2 1 signing)
      (9 + (total wire_size signing.compact_instructions + 1))
      read_sign_wire
      (discriminator_code SwigInstructionDiscriminator.sign_v2, signing)
write_sign-wire_example =
    write_sign-wire SwigInstructionDiscriminator.sign_v2 signing signing-IsSign

write_sub_account_sign-wire_example :
    EncodesAll
      (write_sub_account_sign signing)
      (17 + (total wire_size signing.compact_instructions + 1))
      read_sub_account_sign_wire
      (discriminator_code SwigInstructionDiscriminator.sub_account_sign_v1, signing)
write_sub_account_sign-wire_example = write_sub_account_sign-wire signing signing-IsSign

sign_v2_written : write_discriminator SwigInstructionDiscriminator.sign_v2 ≡ some (11 ∷ 0 ∷ [])
unfolding write_discriminator write_le
sign_v2_written = refl

identify-prefix_example :
    identify_swig_instruction ((11 ∷ 0 ∷ []) ++ 3 ∷ 4 ∷ [])
    ≡ some SwigInstructionDiscriminator.sign_v2
identify-prefix_example =
    identify-prefix SwigInstructionDiscriminator.sign_v2 (11 ∷ 0 ∷ []) (3 ∷ 4 ∷ []) sign_v2_written

abbrev lock : AddAuthorizationLockInstructionDataArgs
lock = record {
  acting_role_id = 1;
  asset_account = replicate 32 4;
  mint = zeros 32;
  amount = 1000;
  expiry_slot = 70000;
  authority_payload = 6 ∷ [];
}

EncodesAll-add_authorization_lock_example :
    EncodesAll (write_add_authorization_lock lock) 89 read_add_authorization_lock (record {
      discriminator = discriminator_code SwigInstructionDiscriminator.add_authorization_lock_v1;
      padding = zeros 2;
      acting_role_id = 1;
      asset_account = replicate 32 4;
      mint = zeros 32;
      amount = 1000;
      expiry_slot = 70000;
      authority_payload = 6 ∷ [];
    })
EncodesAll-add_authorization_lock_example = EncodesAll-add_authorization_lock lock (record {
  acting_role_id_fits = omega arith;
  asset_account_fits = refl;
  mint_fits = refl;
  amount_fits = omega arith;
  expiry_slot_fits = omega arith;
})

abbrev session : CreateSessionInstructionDataArgs
session = record {
  role_id = 3;
  session_duration = 900;
  session_key = replicate 32 5;
  authority_payload = 2 ∷ [];
}

-- The role 3 is read as 196608.
read_create_session-write_example :
    EncodesAll (write_create_session session) 49 read_create_session (record {
      discriminator = discriminator_code SwigInstructionDiscriminator.create_session_v1;
      padding = 0;
      role_id = 196608;
      session_duration = 900;
      session_key = replicate 32 5;
      authority_payload = 2 ∷ [];
    })
read_create_session-write_example = read_create_session-write session (record {
  role_id_fits = omega arith;
  session_duration_fits = omega arith;
  session_key_fits = refl;
})

abbrev creation : CreateV1InstructionDataArgs
creation = record {
  authority_type = AuthorityType.ed25519;
  bump = 254;
  wallet_bump = 253;
  id = replicate 32 8;
  authority_data = replicate 32 9;
  actions = 1 ∷ 2 ∷ [];
}

read_create_v1-write_example : EncodesAll (write_create_v1 creation) 74 read_create_v1 (record {
  discriminator = discriminator_code SwigInstructionDiscriminator.create_v1;
  authority_type = AuthorityType.ed25519;
  authority_data_len = 32;
  bump = 254;
  wallet_bump = 253;
  id = replicate 32 8;
  authority_data = replicate 32 9 ++ 1 ∷ 2 ∷ [];
  actions = [];
})
read_create_v1-write_example = read_create_v1-write creation (record {
  bump_fits = omega arith;
  wallet_bump_fits = omega arith;
  id_fits = refl;
  authority_data_len_fits = omega arith;
})

abbrev program_session : ProgramExecSessionArgs
program_session = record {
  program_id = replicate 32 1;
  instruction_prefix_len = 2;
  instruction_prefix = 5 ∷ 6 ∷ zeros 38;
  session_key = replicate 32 3;
  max_session_length = 500;
  current_session_expiration = 0;
}

Encodes-program_exec_session_example :
    Encodes (write_program_exec_session program_session) 128 read_program_exec_session (record {
      program_id = replicate 32 1;
      instruction_prefix_len = 2;
      padding = zeros 7;
      instruction_prefix = 5 ∷ 6 ∷ zeros 38;
      session_key = replicate 32 3;
      max_session_length = 500;
      current_session_expiration = 0;
    })
Encodes-program_exec_session_example = Encodes-program_exec_session program_session (record {
  program_id_fits = refl;
  instruction_prefix_len_fits = omega arith;
  instruction_prefix_fits = refl;
  session_key_fits = refl;
  max_session_length_fits = omega arith;
  current_session_expiration_fits = omega arith;
})

abbrev account : AccountMetaLike
account = record { pubkey = replicate 32 1; is_writable = true; is_signer = false }

write_accounts_payload-injective_example : account ∷ [] ≡ account ∷ []
write_accounts_payload-injective_example =
    write_accounts_payload-injective (account ∷ []) (account ∷ []) (refl, tt) (refl, tt) refl
