-- ===== src/Coder/Limits.antt =====
-- The SOL and stake limits of coder/src/types: solLimit.ts, solRecurringLimit.ts, the destination
-- limits, stakeLimit.ts and stakeRecurringLimit.ts. `write_…` is the encoder, `read_…` the decoder.
pub mod RoundTrip
use swig_protocol_sdk.Common.{ℕ, ◌^◌, ◌<◌, ◌≡◌, Option, some, Bool, Bytes, length, zeros}
use swig_protocol_sdk.Kit.{Kit, Reader, ◌>>=◌, pure, ◌then_write◌, write_enum, read_enum}

pub record SolLimit : Type 0 where
  pub amount : ℕ

module _ ⦃kit : Kit⦄ where
  unfoldable pub write_sol_limit : SolLimit → Option Bytes
  write_sol_limit x = kit.write_uint 8 x.amount

  unfoldable pub read_sol_limit : Reader SolLimit
  read_sol_limit = do amount ← kit.read_uint 8; pure (record { amount = amount })

-- What a value must meet to be written and read back.
pub record IsSolLimit (x : SolLimit) : Type 0 where
  pub amount_fits : x.amount < 256 ^ 8

pub record SolRecurringLimit : Type 0 where
  pub recurring_amount : ℕ
  pub window : ℕ
  pub last_reset : ℕ
  pub current_amount : ℕ

module _ ⦃kit : Kit⦄ where
  unfoldable pub write_sol_recurring_limit : SolRecurringLimit → Option Bytes
  write_sol_recurring_limit x =
      kit.write_uint 8 x.recurring_amount
      then_write kit.write_uint 8 x.window
      then_write kit.write_uint 8 x.last_reset
      then_write kit.write_uint 8 x.current_amount

  unfoldable pub read_sol_recurring_limit : Reader SolRecurringLimit
  read_sol_recurring_limit = do
    recurring_amount ← kit.read_uint 8
    window ← kit.read_uint 8
    last_reset ← kit.read_uint 8
    current_amount ← kit.read_uint 8
    pure (record {
      recurring_amount = recurring_amount;
      window = window;
      last_reset = last_reset;
      current_amount = current_amount;
    })

-- What a value must meet to be written and read back.
pub record IsSolRecurringLimit (x : SolRecurringLimit) : Type 0 where
  pub recurring_amount_fits : x.recurring_amount < 256 ^ 8
  pub window_fits : x.window < 256 ^ 8
  pub last_reset_fits : x.last_reset < 256 ^ 8
  pub current_amount_fits : x.current_amount < 256 ^ 8

pub record SolDestinationLimit : Type 0 where
  pub destination : Bytes
  pub amount : ℕ

module _ ⦃kit : Kit⦄ where
  unfoldable pub write_sol_destination_limit : SolDestinationLimit → Option Bytes
  write_sol_destination_limit x =
      some (kit.write_fixed 32 x.destination) then_write kit.write_uint 8 x.amount

  unfoldable pub read_sol_destination_limit : Reader SolDestinationLimit
  read_sol_destination_limit = do
    destination ← kit.read_fixed 32
    amount ← kit.read_uint 8
    pure (record { destination = destination; amount = amount })

-- What a value must meet to be written and read back.
pub record IsSolDestinationLimit (x : SolDestinationLimit) : Type 0 where
  pub destination_fits : length x.destination ≡ 32
  pub amount_fits : x.amount < 256 ^ 8

pub record SolRecurringDestinationLimit : Type 0 where
  pub destination : Bytes
  pub recurring_amount : ℕ
  pub window : ℕ
  pub last_reset : ℕ
  pub current_amount : ℕ

module _ ⦃kit : Kit⦄ where
  unfoldable pub write_sol_recurring_destination_limit : SolRecurringDestinationLimit → Option Bytes
  write_sol_recurring_destination_limit x =
      some (kit.write_fixed 32 x.destination)
      then_write kit.write_uint 8 x.recurring_amount
      then_write kit.write_uint 8 x.window
      then_write kit.write_uint 8 x.last_reset
      then_write kit.write_uint 8 x.current_amount

  unfoldable pub read_sol_recurring_destination_limit : Reader SolRecurringDestinationLimit
  read_sol_recurring_destination_limit = do
    destination ← kit.read_fixed 32
    recurring_amount ← kit.read_uint 8
    window ← kit.read_uint 8
    last_reset ← kit.read_uint 8
    current_amount ← kit.read_uint 8
    pure (record {
      destination = destination;
      recurring_amount = recurring_amount;
      window = window;
      last_reset = last_reset;
      current_amount = current_amount;
    })

-- What a value must meet to be written and read back.
pub record IsSolRecurringDestinationLimit (x : SolRecurringDestinationLimit) : Type 0 where
  pub destination_fits : length x.destination ≡ 32
  pub recurring_amount_fits : x.recurring_amount < 256 ^ 8
  pub window_fits : x.window < 256 ^ 8
  pub last_reset_fits : x.last_reset < 256 ^ 8
  pub current_amount_fits : x.current_amount < 256 ^ 8

pub record StakeLimit : Type 0 where
  pub amount : ℕ

module _ ⦃kit : Kit⦄ where
  unfoldable pub write_stake_limit : StakeLimit → Option Bytes
  write_stake_limit x = kit.write_uint 8 x.amount

  unfoldable pub read_stake_limit : Reader StakeLimit
  read_stake_limit = do amount ← kit.read_uint 8; pure (record { amount = amount })

-- What a value must meet to be written and read back.
pub record IsStakeLimit (x : StakeLimit) : Type 0 where
  pub amount_fits : x.amount < 256 ^ 8

pub record StakeRecurringLimit : Type 0 where
  pub recurring_amount : ℕ
  pub window : ℕ
  pub last_reset : ℕ
  pub current_amount : ℕ

module _ ⦃kit : Kit⦄ where
  unfoldable pub write_stake_recurring_limit : StakeRecurringLimit → Option Bytes
  write_stake_recurring_limit x =
      kit.write_uint 8 x.recurring_amount
      then_write kit.write_uint 8 x.window
      then_write kit.write_uint 8 x.last_reset
      then_write kit.write_uint 8 x.current_amount

  unfoldable pub read_stake_recurring_limit : Reader StakeRecurringLimit
  read_stake_recurring_limit = do
    recurring_amount ← kit.read_uint 8
    window ← kit.read_uint 8
    last_reset ← kit.read_uint 8
    current_amount ← kit.read_uint 8
    pure (record {
      recurring_amount = recurring_amount;
      window = window;
      last_reset = last_reset;
      current_amount = current_amount;
    })

-- What a value must meet to be written and read back.
pub record IsStakeRecurringLimit (x : StakeRecurringLimit) : Type 0 where
  pub recurring_amount_fits : x.recurring_amount < 256 ^ 8
  pub window_fits : x.window < 256 ^ 8
  pub last_reset_fits : x.last_reset < 256 ^ 8
  pub current_amount_fits : x.current_amount < 256 ^ 8
