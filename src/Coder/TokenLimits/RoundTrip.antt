-- ===== src/Coder/TokenLimits/RoundTrip.antt =====
-- Each layout has its fixed size, and reading takes back what was written.
use swig_protocol_sdk.Kit.{Kit, Encodes}
use swig_protocol_sdk.Kit.Laws.{Encodes-then, Encodes-last, Encodes-uint, Encodes-fixed}
use swig_protocol_sdk.Coder.TokenLimits.{
  TokenLimit, write_token_limit, read_token_limit, IsTokenLimit, TokenRecurringLimit,
  write_token_recurring_limit, read_token_recurring_limit, IsTokenRecurringLimit,
  TokenDestinationLimit, write_token_destination_limit, read_token_destination_limit,
  IsTokenDestinationLimit, TokenRecurringDestinationLimit, write_token_recurring_destination_limit,
  read_token_recurring_destination_limit, IsTokenRecurringDestinationLimit,
}

module _ ⦃kit : Kit⦄ where
  pub Encodes-token_limit :
      (x : TokenLimit) → IsTokenLimit x → Encodes (write_token_limit x) 40 read_token_limit x
  unfolding write_token_limit read_token_limit
  Encodes-token_limit x v =
      Encodes-then _ (Encodes-fixed 32 x.mint v.mint_fits)
        (Encodes-last _ (Encodes-uint 8 x.amount v.amount_fits))

  pub Encodes-token_recurring_limit :
      (x : TokenRecurringLimit)
      → IsTokenRecurringLimit x
      → Encodes (write_token_recurring_limit x) 64 read_token_recurring_limit x
  unfolding write_token_recurring_limit read_token_recurring_limit
  Encodes-token_recurring_limit x v = Encodes-then _ (Encodes-fixed 32 x.mint v.mint_fits) (
      Encodes-then _ (Encodes-uint 8 x.window v.window_fits) (
        Encodes-then _ (Encodes-uint 8 x.recurring_amount v.recurring_amount_fits) (
          Encodes-then _ (Encodes-uint 8 x.current_amount v.current_amount_fits)
            (Encodes-last _ (Encodes-uint 8 x.last_reset v.last_reset_fits)))))

  pub Encodes-token_destination_limit :
      (x : TokenDestinationLimit)
      → IsTokenDestinationLimit x
      → Encodes (write_token_destination_limit x) 72 read_token_destination_limit x
  unfolding write_token_destination_limit read_token_destination_limit
  Encodes-token_destination_limit x v = Encodes-then _ (Encodes-fixed 32 x.mint v.mint_fits) (
      Encodes-then _ (Encodes-fixed 32 x.destination v.destination_fits)
        (Encodes-last _ (Encodes-uint 8 x.amount v.amount_fits)))

  pub Encodes-token_recurring_destination_limit :
      (x : TokenRecurringDestinationLimit)
      → IsTokenRecurringDestinationLimit x
      → Encodes
          (write_token_recurring_destination_limit x)
          96
          read_token_recurring_destination_limit
          x
  unfolding write_token_recurring_destination_limit read_token_recurring_destination_limit
  Encodes-token_recurring_destination_limit x v =
      Encodes-then _ (Encodes-fixed 32 x.mint v.mint_fits) (
        Encodes-then _ (Encodes-fixed 32 x.destination v.destination_fits) (
          Encodes-then _ (Encodes-uint 8 x.recurring_amount v.recurring_amount_fits) (
            Encodes-then _ (Encodes-uint 8 x.window v.window_fits) (
              Encodes-then _ (Encodes-uint 8 x.last_reset v.last_reset_fits)
                (Encodes-last _ (Encodes-uint 8 x.current_amount v.current_amount_fits))))))
