-- ===== src/Coder/TokenLimits.antt =====
-- The token limits of coder/src/types: tokenLimit.ts, tokenRecurringLimit.ts and the destination
-- limits. `write_…` is the encoder, `read_…` the decoder; a recurring limit stores its fields in
-- another order than its type lists them.
pub mod RoundTrip
use swig_protocol_sdk.Common.{ℕ, ◌^◌, ◌<◌, ◌≡◌, Option, some, Bool, Bytes, length, zeros}
use swig_protocol_sdk.Kit.{Kit, Reader, ◌>>=◌, pure, ◌then_write◌, write_enum, read_enum}

pub record TokenLimit : Type 0 where
  pub mint : Bytes
  pub amount : ℕ

module _ ⦃kit : Kit⦄ where
  unfoldable pub write_token_limit : TokenLimit → Option Bytes
  write_token_limit x = some (kit.write_fixed 32 x.mint) then_write kit.write_uint 8 x.amount

  unfoldable pub read_token_limit : Reader TokenLimit
  read_token_limit = do
    mint ← kit.read_fixed 32
    amount ← kit.read_uint 8
    pure (record { mint = mint; amount = amount })

-- What a value must meet to be written and read back.
pub record IsTokenLimit (x : TokenLimit) : Type 0 where
  pub mint_fits : length x.mint ≡ 32
  pub amount_fits : x.amount < 256 ^ 8

pub record TokenRecurringLimit : Type 0 where
  pub mint : Bytes
  pub recurring_amount : ℕ
  pub window : ℕ
  pub last_reset : ℕ
  pub current_amount : ℕ

module _ ⦃kit : Kit⦄ where
  unfoldable pub write_token_recurring_limit : TokenRecurringLimit → Option Bytes
  write_token_recurring_limit x =
      some (kit.write_fixed 32 x.mint)
      then_write kit.write_uint 8 x.window
      then_write kit.write_uint 8 x.recurring_amount
      then_write kit.write_uint 8 x.current_amount
      then_write kit.write_uint 8 x.last_reset

  unfoldable pub read_token_recurring_limit : Reader TokenRecurringLimit
  read_token_recurring_limit = do
    mint ← kit.read_fixed 32
    window ← kit.read_uint 8
    recurring_amount ← kit.read_uint 8
    current_amount ← kit.read_uint 8
    last_reset ← kit.read_uint 8
    pure (record {
      mint = mint;
      recurring_amount = recurring_amount;
      window = window;
      last_reset = last_reset;
      current_amount = current_amount;
    })

-- What a value must meet to be written and read back.
pub record IsTokenRecurringLimit (x : TokenRecurringLimit) : Type 0 where
  pub mint_fits : length x.mint ≡ 32
  pub window_fits : x.window < 256 ^ 8
  pub recurring_amount_fits : x.recurring_amount < 256 ^ 8
  pub current_amount_fits : x.current_amount < 256 ^ 8
  pub last_reset_fits : x.last_reset < 256 ^ 8

pub record TokenDestinationLimit : Type 0 where
  pub mint : Bytes
  pub destination : Bytes
  pub amount : ℕ

module _ ⦃kit : Kit⦄ where
  unfoldable pub write_token_destination_limit : TokenDestinationLimit → Option Bytes
  write_token_destination_limit x =
      some (kit.write_fixed 32 x.mint)
      then_write some (kit.write_fixed 32 x.destination)
      then_write kit.write_uint 8 x.amount

  unfoldable pub read_token_destination_limit : Reader TokenDestinationLimit
  read_token_destination_limit = do
    mint ← kit.read_fixed 32
    destination ← kit.read_fixed 32
    amount ← kit.read_uint 8
    pure (record { mint = mint; destination = destination; amount = amount })

-- What a value must meet to be written and read back.
pub record IsTokenDestinationLimit (x : TokenDestinationLimit) : Type 0 where
  pub mint_fits : length x.mint ≡ 32
  pub destination_fits : length x.destination ≡ 32
  pub amount_fits : x.amount < 256 ^ 8

pub record TokenRecurringDestinationLimit : Type 0 where
  pub mint : Bytes
  pub destination : Bytes
  pub recurring_amount : ℕ
  pub window : ℕ
  pub last_reset : ℕ
  pub current_amount : ℕ

module _ ⦃kit : Kit⦄ where
  unfoldable pub write_token_recurring_destination_limit :
      TokenRecurringDestinationLimit → Option Bytes
  write_token_recurring_destination_limit x =
      some (kit.write_fixed 32 x.mint)
      then_write some (kit.write_fixed 32 x.destination)
      then_write kit.write_uint 8 x.recurring_amount
      then_write kit.write_uint 8 x.window
      then_write kit.write_uint 8 x.last_reset
      then_write kit.write_uint 8 x.current_amount

  unfoldable pub read_token_recurring_destination_limit : Reader TokenRecurringDestinationLimit
  read_token_recurring_destination_limit = do
    mint ← kit.read_fixed 32
    destination ← kit.read_fixed 32
    recurring_amount ← kit.read_uint 8
    window ← kit.read_uint 8
    last_reset ← kit.read_uint 8
    current_amount ← kit.read_uint 8
    pure (record {
      mint = mint;
      destination = destination;
      recurring_amount = recurring_amount;
      window = window;
      last_reset = last_reset;
      current_amount = current_amount;
    })

-- What a value must meet to be written and read back.
pub record IsTokenRecurringDestinationLimit (x : TokenRecurringDestinationLimit) : Type 0 where
  pub mint_fits : length x.mint ≡ 32
  pub destination_fits : length x.destination ≡ 32
  pub recurring_amount_fits : x.recurring_amount < 256 ^ 8
  pub window_fits : x.window < 256 ^ 8
  pub last_reset_fits : x.last_reset < 256 ^ 8
  pub current_amount_fits : x.current_amount < 256 ^ 8
