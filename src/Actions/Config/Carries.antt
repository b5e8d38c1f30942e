-- ===== src/Actions/Config/Carries.antt =====
-- What each action configuration stands for, and that decoding its bytes gives that back.
use swig_protocol_sdk.Common.{
  ℕ, ◌^◌, ◌<◌, ◌≡◌, refl, some, [], ◌++◌, ◌>>=◌, Bytes, length, zeros, u32_bytes, get_u32-bytes,
}
use swig_protocol_sdk.Kit.{Kit, Reader, Encodes, decode}
use swig_protocol_sdk.Kit.Laws.{Encodes-decode}
use swig_protocol_sdk.Coder.Permissions.{Permission}
use swig_protocol_sdk.Coder.Limits.{
  SolLimit, IsSolLimit, SolRecurringLimit, IsSolRecurringLimit, SolDestinationLimit,
  IsSolDestinationLimit, SolRecurringDestinationLimit, IsSolRecurringDestinationLimit, StakeLimit,
  IsStakeLimit, StakeRecurringLimit, IsStakeRecurringLimit,
}
use swig_protocol_sdk.Coder.TokenLimits.{
  TokenLimit, IsTokenLimit, TokenRecurringLimit, IsTokenRecurringLimit, TokenDestinationLimit,
  IsTokenDestinationLimit, TokenRecurringDestinationLimit, IsTokenRecurringDestinationLimit,
}
use swig_protocol_sdk.Coder.Scopes.{
  ProgramLimit, IsProgramLimit, ProgramScope, IsProgramScope, SubAccount, IsSubAccount,
}
use swig_protocol_sdk.Coder.Limits.RoundTrip.{
  Encodes-sol_limit, Encodes-sol_recurring_limit, Encodes-sol_destination_limit,
  Encodes-sol_recurring_destination_limit, Encodes-stake_limit, Encodes-stake_recurring_limit,
}
use swig_protocol_sdk.Coder.TokenLimits.RoundTrip.{
  Encodes-token_limit, Encodes-token_recurring_limit, Encodes-token_destination_limit,
  Encodes-token_recurring_destination_limit,
}
use swig_protocol_sdk.Coder.Scopes.RoundTrip.{
  Encodes-program_limit, Encodes-program_scope, Encodes-sub_account, Encodes-program_curated,
  Encodes-manage_authorization_locks,
}
use swig_protocol_sdk.Actions.Payload.{ActionPayload, decode_action_payload, decode_scoped_u32}
use swig_protocol_sdk.Actions.Config.{
  ActionConfig, all_config, manage_authority_config, all_but_manage_authority_config,
  close_swig_authority_config, marker_config, scoped_u32_config, manage_authorization_locks_config,
  program_limit_config, sub_account_config, stake_all_config, stake_limit_config,
  stake_recurring_limit_config, sol_limit_config, sol_recurring_limit_config, token_limit_config,
  token_recurring_limit_config, program_scope_config, program_all_config, program_curated_config,
  sol_destination_limit_config, sol_recurring_destination_limit_config,
  token_destination_limit_config, token_recurring_destination_limit_config, config_length,
  config_permission, encode,
}

-- The payload that a configuration stands for, with the range of its numbers. The padding of a
-- sub-account is always written as zeros.
pub data Carries : ActionConfig → ActionPayload → Type 0 where
  all : Carries all_config ActionPayload.all
  manage_authority : Carries manage_authority_config ActionPayload.manage_authority
  all_but_manage_authority :
      Carries all_but_manage_authority_config ActionPayload.all_but_manage_authority
  close_swig_authority : Carries close_swig_authority_config ActionPayload.close_swig_authority
  sub_account_v2_create :
      Carries (marker_config Permission.sub_account_v2_create) ActionPayload.sub_account_v2_create
  replace_authority :
      (id : ℕ)
      → id < 2 ^ 32
      → Carries
          (scoped_u32_config Permission.replace_authority id)
          (ActionPayload.replace_authority id)
  sub_account_v2_all :
      (id : ℕ)
      → id < 2 ^ 32
      → Carries
          (scoped_u32_config Permission.sub_account_v2_all id)
          (ActionPayload.sub_account_v2_all id)
  sub_account_v2_sign :
      (id : ℕ)
      → id < 2 ^ 32
      → Carries
          (scoped_u32_config Permission.sub_account_v2_sign id)
          (ActionPayload.sub_account_v2_sign id)
  sub_account_v2_withdraw :
      (id : ℕ)
      → id < 2 ^ 32
      → Carries
          (scoped_u32_config Permission.sub_account_v2_withdraw id)
          (ActionPayload.sub_account_v2_withdraw id)
  sub_account_v2_toggle :
      (id : ℕ)
      → id < 2 ^ 32
      → Carries
          (scoped_u32_config Permission.sub_account_v2_toggle id)
          (ActionPayload.sub_account_v2_toggle id)
  manage_authorization_locks :
      (max : ℕ)
      → max < 256 ^ 8
      → Carries
          (manage_authorization_locks_config max)
          (ActionPayload.manage_authorization_locks (record { max_duration_slots = max }))
  program :
      (x : ProgramLimit)
      → IsProgramLimit x
      → Carries (program_limit_config x) (ActionPayload.program x)
  sub_account :
      (x : SubAccount)
      → IsSubAccount x
      → Carries (sub_account_config x) (ActionPayload.sub_account (record x { padding = zeros 2 }))
  stake_all : Carries stake_all_config ActionPayload.stake_all
  stake_limit :
      (x : StakeLimit)
      → IsStakeLimit x
      → Carries (stake_limit_config x) (ActionPayload.stake_limit x)
  stake_recurring_limit :
      (x : StakeRecurringLimit)
      → IsStakeRecurringLimit x
      → Carries (stake_recurring_limit_config x) (ActionPayload.stake_recurring_limit x)
  sol_limit :
      (x : SolLimit) → IsSolLimit x → Carries (sol_limit_config x) (ActionPayload.sol_limit x)
  sol_recurring_limit :
      (x : SolRecurringLimit)
      → IsSolRecurringLimit x
      → Carries (sol_recurring_limit_config x) (ActionPayload.sol_recurring_limit x)
  token_limit :
      (x : TokenLimit)
      → IsTokenLimit x
      → Carries (token_limit_config x) (ActionPayload.token_limit x)
  token_recurring_limit :
      (x : TokenRecurringLimit)
      → IsTokenRecurringLimit x
      → Carries (token_recurring_limit_config x) (ActionPayload.token_recurring_limit x)
  program_scope :
      (x : ProgramScope)
      → IsProgramScope x
      → Carries (program_scope_config x) (ActionPayload.program_scope x)
  program_all : Carries program_all_config ActionPayload.program_all
  program_curated :
      Carries program_curated_config
        (ActionPayload.program_curated (record { reserved = zeros 32 }))
  sol_destination_limit :
      (x : SolDestinationLimit)
      → IsSolDestinationLimit x
      → Carries (sol_destination_limit_config x) (ActionPayload.sol_destination_limit x)
  sol_recurring_destination_limit :
      (x : SolRecurringDestinationLimit)
      → IsSolRecurringDestinationLimit x
      → Carries
          (sol_recurring_destination_limit_config x)
          (ActionPayload.sol_recurring_destination_limit x)
  token_destination_limit :
      (x : TokenDestinationLimit)
      → IsTokenDestinationLimit x
      → Carries (token_destination_limit_config x) (ActionPayload.token_destination_limit x)
  token_recurring_destination_limit :
      (x : TokenRecurringDestinationLimit)
      → IsTokenRecurringDestinationLimit x
      → Carries
          (token_recurring_destination_limit_config x)
          (ActionPayload.token_recurring_destination_limit x)

-- A u32 set in eight zero bytes is what the scoped decoder reads.
decode_scoped_u32-bytes :
    (id : ℕ) → id < 2 ^ 32 → decode_scoped_u32 (u32_bytes id ++ zeros 4) ≡ some id
unfolding decode_scoped_u32
decode_scoped_u32-bytes id h = get_u32-bytes id (zeros 4) h

module _ ⦃kit : Kit⦄ where
  -- The bytes of a configuration: as many as it says, and its payload when they are decoded.
  pub record Written (c : ActionConfig) (x : ActionPayload) : Type 0 where
    pub bytes : Bytes
    pub encoded : encode c ≡ some bytes
    pub width : length bytes ≡ config_length c
    pub decoded : decode_action_payload (config_permission c) bytes ≡ some x

  -- no payload
  Written-empty :
      {c : ActionConfig} {x : ActionPayload}
      → encode c ≡ some []
      → 0 ≡ config_length c
      → decode_action_payload (config_permission c) [] ≡ some x
      → Written c x
  Written-empty h w d = record { bytes = []; encoded = h; width = w; decoded = d }

  -- an id under one of the scoped permissions
  Written-scoped :
      (p : Permission) {id : ℕ} (f : ℕ → ActionPayload)
      → id < 2 ^ 32
      → ((bs : Bytes) → decode_action_payload p bs ≡ (decode_scoped_u32 bs >>= λ a. some (f a)))
      → Written (scoped_u32_config p id) (f id)
  unfolding encode config_length config_permission
  Written-scoped p {id} f h d = record {
    bytes = u32_bytes id ++ zeros 4;
    encoded = refl;
    width = refl;
    decoded = rw (d (u32_bytes id ++ zeros 4), decode_scoped_u32-bytes id h);
  }

  -- a payload with a codec of its own
  Written-codec :
      {A : Type 0} {c : ActionConfig} {read : Reader A} {y : A} (f : A → ActionPayload)
      → (e : Encodes (encode c) (config_length c) read y)
      → decode_action_payload (config_permission c) e.bytes
        ≡ (decode read e.bytes >>= λ a. some (f a))
      → Written c (f y)
  Written-codec f e d = record {
    bytes = e.bytes;
    encoded = e.written;
    width = e.width;
    decoded = rw (d, Encodes-decode e);
  }

  pub Carries-Written : {c : ActionConfig} {x : ActionPayload} → Carries c x → Written c x
  unfolding encode config_length config_permission decode_action_payload
  Carries-Written Carries.all = Written-empty refl refl refl
  Carries-Written Carries.manage_authority = Written-empty refl refl refl
  Carries-Written Carries.all_but_manage_authority = Written-empty refl refl refl
  Carries-Written Carries.close_swig_authority = Written-empty refl refl refl
  Carries-Written Carries.sub_account_v2_create = Written-empty refl refl refl
  Carries-Written (Carries.replace_authority id h) =
      Written-scoped Permission.replace_authority ActionPayload.replace_authority h (λ bs. refl)
  Carries-Written (Carries.sub_account_v2_all id h) =
      Written-scoped Permission.sub_account_v2_all ActionPayload.sub_account_v2_all h (λ bs. refl)
  Carries-Written (Carries.sub_account_v2_sign id h) =
      Written-scoped Permission.sub_account_v2_sign ActionPayload.sub_account_v2_sign h (λ bs. refl)
  Carries-Written (Carries.sub_account_v2_withdraw id h) =
      Written-scoped Permission.sub_account_v2_withdraw ActionPayload.sub_account_v2_withdraw h
        (λ bs. refl)
  Carries-Written (Carries.sub_account_v2_toggle id h) =
      Written-scoped Permission.sub_account_v2_toggle ActionPayload.sub_account_v2_toggle h
        (λ bs. refl)
  Carries-Written (Carries.manage_authorization_locks max h) =
      let e = Encodes-manage_authorization_locks _ (record { max_duration_slots_fits = h }) in
      Written-codec ActionPayload.manage_authorization_locks e (rw (e.width))
  Carries-Written (Carries.program x v) =
      Written-codec ActionPayload.program (Encodes-program_limit x v) refl
  Carries-Written (Carries.sub_account x v) =
      Written-codec ActionPayload.sub_account (Encodes-sub_account x v) refl
  Carries-Written Carries.stake_all = Written-empty refl refl refl
  Carries-Written (Carries.stake_limit x v) =
      Written-codec ActionPayload.stake_limit (Encodes-stake_limit x v) refl
  Carries-Written (Carries.stake_recurring_limit x v) =
      Written-codec ActionPayload.stake_recurring_limit (Encodes-stake_recurring_limit x v) refl
  Carries-Written (Carries.sol_limit x v) =
      Written-codec ActionPayload.sol_limit (Encodes-sol_limit x v) refl
  Carries-Written (Carries.sol_recurring_limit x v) =
      Written-codec ActionPayload.sol_recurring_limit (Encodes-sol_recurring_limit x v) refl
  Carries-Written (Carries.token_limit x v) =
      Written-codec ActionPayload.token_limit (Encodes-token_limit x v) refl
  Carries-Written (Carries.token_recurring_limit x v) =
      Written-codec ActionPayload.token_recurring_limit (Encodes-token_recurring_limit x v) refl
  Carries-Written (Carries.program_scope x v) =
      Written-codec ActionPayload.program_scope (Encodes-program_scope x v) refl
  Carries-Written Carries.program_all = Written-empty refl refl refl
  Carries-Written Carries.program_curated =
      Written-codec ActionPayload.program_curated
        (Encodes-program_curated _ (record { reserved_fits = refl })) refl
  Carries-Written (Carries.sol_destination_limit x v) =
      Written-codec ActionPayload.sol_destination_limit (Encodes-sol_destination_limit x v) refl
  Carries-Written (Carries.sol_recurring_destination_limit x v) =
      Written-codec ActionPayload.sol_recurring_destination_limit
        (Encodes-sol_recurring_destination_limit x v) refl
  Carries-Written (Carries.token_destination_limit x v) =
      Written-codec ActionPayload.token_destination_limit (Encodes-token_destination_limit x v) refl
  Carries-Written (Carries.token_recurring_destination_limit x v) =
      Written-codec ActionPayload.token_recurring_destination_limit
        (Encodes-token_recurring_destination_limit x v) refl
