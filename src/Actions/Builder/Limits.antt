-- ===== src/Actions/Builder/Limits.antt =====
-- lib/src/actions/builder.ts, the methods of `ActionsBuilder` that give stake, SOL and token limits.
use swig_protocol_sdk.Common.{ℕ, Bytes}
use swig_protocol_sdk.Actions.Config.{
  stake_all_config, stake_limit_config, stake_recurring_limit_config, sol_limit_config,
  sol_recurring_limit_config, token_limit_config, token_recurring_limit_config,
  sol_destination_limit_config, sol_recurring_destination_limit_config,
  token_destination_limit_config, token_recurring_destination_limit_config,
}
use swig_protocol_sdk.Actions.Builder.{ActionsBuilder, push}

unfoldable pub stake_all : ActionsBuilder → ActionsBuilder
unfolding push
stake_all b = push b stake_all_config

unfoldable pub stake_limit : ActionsBuilder → ℕ → ActionsBuilder
unfolding push
stake_limit b amount = push b (stake_limit_config (record { amount = amount }))

unfoldable pub stake_recurring_limit : ActionsBuilder → ℕ → ℕ → ActionsBuilder
unfolding push
stake_recurring_limit b recurring_amount window = push b (
    stake_recurring_limit_config (record {
      recurring_amount = recurring_amount;
      window = window;
      last_reset = 0;
      current_amount = recurring_amount;
    }))

unfoldable pub sol_limit : ActionsBuilder → ℕ → ActionsBuilder
unfolding push
sol_limit b amount = push b (sol_limit_config (record { amount = amount }))

unfoldable pub sol_recurring_limit : ActionsBuilder → ℕ → ℕ → ActionsBuilder
unfolding push
sol_recurring_limit b recurring_amount window = push b (
    sol_recurring_limit_config (record {
      recurring_amount = recurring_amount;
      window = window;
      last_reset = 0;
      current_amount = recurring_amount;
    }))

unfoldable pub token_limit : ActionsBuilder → Bytes → ℕ → ActionsBuilder
unfolding push
token_limit b mint amount = push b (token_limit_config (record { mint = mint; amount = amount }))

unfoldable pub token_recurring_limit : ActionsBuilder → Bytes → ℕ → ℕ → ActionsBuilder
unfolding push
token_recurring_limit b mint recurring_amount window = push b (
    token_recurring_limit_config (record {
      mint = mint;
      recurring_amount = recurring_amount;
      window = window;
      last_reset = 0;
      current_amount = recurring_amount;
    }))

unfoldable pub sol_destination_limit : ActionsBuilder → ℕ → Bytes → ActionsBuilder
unfolding push
sol_destination_limit b amount destination =
    push b (sol_destination_limit_config (record { destination = destination; amount = amount }))

unfoldable pub sol_recurring_destination_limit : ActionsBuilder → ℕ → ℕ → Bytes → ActionsBuilder
unfolding push
sol_recurring_destination_limit b recurring_amount window destination = push b (
    sol_recurring_destination_limit_config (record {
      destination = destination;
      recurring_amount = recurring_amount;
      window = window;
      last_reset = 0;
      current_amount = recurring_amount;
    }))

unfoldable pub token_destination_limit : ActionsBuilder → Bytes → ℕ → Bytes → ActionsBuilder
unfolding push
token_destination_limit b mint amount destination = push b (
    token_destination_limit_config
      (record { mint = mint; destination = destination; amount = amount }))

unfoldable pub token_recurring_destination_limit :
    ActionsBuilder → Bytes → ℕ → ℕ → Bytes → ActionsBuilder
unfolding push
token_recurring_destination_limit b mint recurring_amount window destination = push b (
    token_recurring_destination_limit_config (record {
      mint = mint;
      destination = destination;
      recurring_amount = recurring_amount;
      window = window;
      last_reset = 0;
      current_amount = recurring_amount;
    }))
