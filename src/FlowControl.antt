-- ===== src/FlowControl.antt =====
-- cocotbext/spacewire/flow_control.py: the credit counters.
pub mod Bounds
pub mod Channel
pub mod Overrun
use cocotbext_spacewire.Base.Int.{ℤ, pos, negsuc, ltb_ℤ}
use cocotbext_spacewire.Base.{
  ℕ, ◌+◌, ◌-◌, ◌/◌, Bool, true, false, ltb, leb, ◌==◌, if◌then◌else◌, Outcome, ok, raise,
  value_error, runtime_error, credit_error, nchar_with_zero_rx_credit, fct_overflow, Method, min,
}

abbrev pub fct_credit_units : ℕ
fct_credit_units = 8

abbrev pub max_credit : ℕ
max_credit = 56

abbrev max_outstanding_fcts : ℕ
max_outstanding_fcts = 7

-- The counters start at 0 and no operation takes one below it, so they are natural numbers.
pub record CreditCounter : Type 0 where
  pub max_rx_credit : ℕ
  pub tx_credit : ℕ
  pub rx_credit : ℕ
  pub fcts_received : ℕ
  pub nchars_sent : ℕ
  pub fcts_sent : ℕ
  pub nchars_received : ℕ

abbrev pub counter : ℕ → CreditCounter
counter max_rx_credit = record {
  max_rx_credit = max_rx_credit;
  tx_credit = 0;
  rx_credit = 0;
  fcts_received = 0;
  nchars_sent = 0;
  fcts_sent = 0;
  nchars_received = 0;
}

-- `CreditCounter(max_rx_credit=…)` with `__post_init__`.
unfoldable pub init : ℤ → Outcome CreditCounter
init (pos n) = if ltb max_credit n then raise value_error else ok (counter n)
init (negsuc n) = raise value_error

unfoldable pub on_fct_received : Method CreditCounter (Unit {0})
on_fct_received s =
    let new_credit = s.tx_credit + fct_credit_units in
    if ltb max_credit new_credit
    then (raise (credit_error fct_overflow), s)
    else (ok tt, record s { tx_credit = new_credit; fcts_received = s.fcts_received + 1 })

unfoldable pub on_nchar_sent : Method CreditCounter (Unit {0})
on_nchar_sent s =
    if s.tx_credit == 0
    then (raise runtime_error, s)
    else (ok tt, record s { tx_credit = s.tx_credit - 1; nchars_sent = s.nchars_sent + 1 })

unfoldable pub can_send : CreditCounter → Bool
can_send s = ltb 0 s.tx_credit

unfoldable pub on_fct_sent : Method CreditCounter (Unit {0})
on_fct_sent s =
    let new_credit = s.rx_credit + fct_credit_units in
    if ltb s.max_rx_credit new_credit
    then (raise runtime_error, s)
    else (ok tt, record s { rx_credit = new_credit; fcts_sent = s.fcts_sent + 1 })

unfoldable pub on_nchar_received : Method CreditCounter (Unit {0})
on_nchar_received s =
    if s.rx_credit == 0
    then (raise (credit_error nchar_with_zero_rx_credit), s)
    else (ok tt, record s { rx_credit = s.rx_credit - 1; nchars_received = s.nchars_received + 1 })

-- `rx_credit <= max_rx_credit - 8` over the integers: 8 is added on the left instead.
unfoldable pub should_send_fct : ℤ → CreditCounter → Bool
should_send_fct headroom s =
    if ltb_ℤ headroom (pos fct_credit_units)
    then false
    else leb (s.rx_credit + fct_credit_units) s.max_rx_credit

unfoldable pub reset : CreditCounter → CreditCounter
reset s = record s { tx_credit = 0; rx_credit = 0 }

unfoldable pub initial_fct_count : ℤ → Outcome ℕ
initial_fct_count (pos capacity) = ok (min (capacity / fct_credit_units) max_outstanding_fcts)
initial_fct_count (negsuc n) = raise value_error
