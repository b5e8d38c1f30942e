-- ===== src/Coder/Limits/RoundTrip.antt =====
-- Each layout has its fixed size, and reading takes back what was written.
use swig_protocol_sdk.Kit.{Kit, Encodes}
use swig_protocol_sdk.Kit.Laws.{Encodes-then, Encodes-last, Encodes-uint, Encodes-fixed}
use swig_protocol_sdk.Coder.Limits.{
  SolLimit, write_sol_limit, read_sol_limit, IsSolLimit, SolRecurringLimit,
  write_sol_recurring_limit, read_sol_recurring_limit, IsSolRecurringLimit, SolDestinationLimit,
  write_sol_destination_limit, read_sol_destination_limit, IsSolDestinationLimit,
  SolRecurringDestinationLimit, write_sol_recurring_destination_limit,
  read_sol_recurring_destination_limit, IsSolRecurringDestinationLimit, StakeLimit,
  write_stake_limit, read_stake_limit, IsStakeLimit, StakeRecurringLimit,
  write_stake_recurring_limit, read_stake_recurring_limit, IsStakeRecurringLimit,
}

module _ ⦃kit : Kit⦄ where
  pub Encodes-sol_limit :
      (x : SolLimit) → IsSolLimit x → Encodes (write_sol_limit x) 8 read_sol_limit x
  unfolding write_sol_limit read_sol_limit
  Encodes-sol_limit x v = Encodes-last _ (Encodes-uint 8 x.amount v.amount_fits)

  pub Encodes-sol_recurring_limit :
      (x : SolRecurringLimit)
      → IsSolRecurringLimit x
      → Encodes (write_sol_recurring_limit x) 32 read_sol_recurring_limit x
  unfolding write_sol_recurring_limit read_sol_recurring_limit
  Encodes-sol_recurring_limit x v =
      Encodes-then _ (Encodes-uint 8 x.recurring_amount v.recurring_amount_fits) (
        Encodes-then _ (Encodes-uint 8 x.window v.window_fits) (
          Encodes-then _ (Encodes-uint 8 x.last_reset v.last_reset_fits)
            (Encodes-last _ (Encodes-uint 8 x.current_amount v.current_amount_fits))))

  pub Encodes-sol_destination_limit :
      (x : SolDestinationLimit)
      → IsSolDestinationLimit x
      → Encodes (write_sol_destination_limit x) 40 read_sol_destination_limit x
  unfolding write_sol_destination_limit read_sol_destination_limit
  Encodes-sol_destination_limit x v =
      Encodes-then _ (Encodes-fixed 32 x.destination v.destination_fits)
        (Encodes-last _ (Encodes-uint 8 x.amount v.amount_fits))

  pub Encodes-sol_recurring_destination_limit :
      (x : SolRecurringDestinationLimit)
      → IsSolRecurringDestinationLimit x
      → Encodes (write_sol_recurring_destination_limit x) 64 read_sol_recurring_destination_limit x
  unfolding write_sol_recurring_destination_limit read_sol_recurring_destination_limit
  Encodes-sol_recurring_destination_limit x v =
      Encodes-then _ (Encodes-fixed 32 x.destination v.destination_fits) (
        Encodes-then _ (Encodes-uint 8 x.recurring_amount v.recurring_amount_fits) (
          Encodes-then _ (Encodes-uint 8 x.window v.window_fits) (
            Encodes-then _ (Encodes-uint 8 x.last_reset v.last_reset_fits)
              (Encodes-last _ (Encodes-uint 8 x.current_amount v.current_amount_fits)))))

  pub Encodes-stake_limit :
      (x : StakeLimit) → IsStakeLimit x → Encodes (write_stake_limit x) 8 read_stake_limit x
  unfolding write_stake_limit read_stake_limit
  Encodes-stake_limit x v = Encodes-last _ (Encodes-uint 8 x.amount v.amount_fits)

  pub Encodes-stake_recurring_limit :
      (x : StakeRecurringLimit)
      → IsStakeRecurringLimit x
      → Encodes (write_stake_recurring_limit x) 32 read_stake_recurring_limit x
  unfolding write_stake_recurring_limit read_stake_recurring_limit
  Encodes-stake_recurring_limit x v =
      Encodes-then _ (Encodes-uint 8 x.recurring_amount v.recurring_amount_fits) (
        Encodes-then _ (Encodes-uint 8 x.window v.window_fits) (
          Encodes-then _ (Encodes-uint 8 x.last_reset v.last_reset_fits)
            (Encodes-last _ (Encodes-uint 8 x.current_amount v.current_amount_fits))))
