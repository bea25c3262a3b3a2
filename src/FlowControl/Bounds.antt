-- ===== src/FlowControl/Bounds.antt =====
-- flow_control.py: what holds of the counters after any calls, also after calls that raised.
use cocotbext_spacewire.Base.Int.{ℤ, pos, negsuc, ltb_ℤ}
use cocotbext_spacewire.Base.{
  ℕ, ◌+◌, ◌*◌, ◌≤◌, ◌<◌, ◌≡◌, ◌⊎◌, ◌↔◌, true, false, List, [], ◌∷◌, Outcome, ok, raise, Exception,
  runtime_error, credit_error, nchar_with_zero_rx_credit, fct_overflow, arith,
}
use cocotbext_spacewire.FlowControl.{
  CreditCounter, fct_credit_units, max_credit, init, on_fct_received, on_nchar_sent, can_send,
  on_fct_sent, on_nchar_received, should_send_fct, reset, initial_fct_count,
}

pub data Call : Type 0 where
  fct_received nchar_sent fct_sent nchar_received resets : Call

-- A call, and the exception or the value that comes of it.
abbrev pub call : Call → CreditCounter → Outcome (Unit {0}) × CreditCounter
call fct_received s = on_fct_received s
call nchar_sent s = on_nchar_sent s
call fct_sent s = on_fct_sent s
call nchar_received s = on_nchar_received s
call resets s = (ok tt, reset s)

unfoldable pub calls : List Call → CreditCounter → CreditCounter
calls [] s = s
calls (c ∷ cs) s = calls cs (call c s).1

pub record Inv (s : CreditCounter) : Type 0 where
  pub tx_capped : s.tx_credit ≤ max_credit
  pub rx_capped : s.rx_credit ≤ s.max_rx_credit
  pub max_capped : s.max_rx_credit ≤ max_credit
  pub tx_earned : s.tx_credit + s.nchars_sent ≤ fct_credit_units * s.fcts_received
  pub rx_granted : s.rx_credit + s.nchars_received ≤ fct_credit_units * s.fcts_sent

pub init-Inv : (n : ℤ) {s : CreditCounter} → init n ≡ ok s → Inv s
unfolding init
init-Inv (pos n) h = ground arith
init-Inv (negsuc n) h = ground arith

pub call-Inv : (c : Call) (s : CreditCounter) → Inv s → Inv (call c s).1
unfolding on_fct_received on_nchar_sent on_fct_sent on_nchar_received reset
call-Inv c s v = ground arith

calls-keeps_Inv : (cs : List Call) (s : CreditCounter) → Inv s → Inv (calls cs s)
unfolding calls
calls-keeps_Inv [] s v = v
calls-keeps_Inv (c ∷ cs) s v = calls-keeps_Inv cs (call c s).1 (call-Inv c s v)

-- After any calls on a counter that the constructor accepted, raised ones and resets included, both
-- credits are within their caps, no more N-Chars have been sent than 8 for each FCT received, and no
-- more received than 8 for each FCT sent.
pub calls-Inv : (n : ℤ) (cs : List Call) {s : CreditCounter} → init n ≡ ok s → Inv (calls cs s)
calls-Inv n cs {s} h = calls-keeps_Inv cs s (init-Inv n h)

-- When a call raises, and what.
abbrev pub Raises : Call → CreditCounter → Exception → Type 0
Raises fct_received s e = (max_credit < s.tx_credit + 8) × (e ≡ credit_error fct_overflow)
Raises nchar_sent s e = (s.tx_credit ≡ 0) × (e ≡ runtime_error)
Raises fct_sent s e = (s.max_rx_credit < s.rx_credit + 8) × (e ≡ runtime_error)
Raises nchar_received s e = (s.rx_credit ≡ 0) × (e ≡ credit_error nchar_with_zero_rx_credit)
Raises resets s e = ⊥

-- A call raises exactly in these cases, and then leaves the counter as it was.
pub call-Raises :
    (c : Call) (s : CreditCounter) (e : Exception)
    → (((call c s).0 ≡ raise e) ↔ Raises c s e)
      × (((call c s).0 ≡ raise e) ↔ (call c s ≡ (raise e, s)))
unfolding on_fct_received on_nchar_sent on_fct_sent on_nchar_received
call-Raises fct_received s e = ground arith
call-Raises nchar_sent s e = ground arith
call-Raises fct_sent s e = ground arith
call-Raises nchar_received s e = ground arith
call-Raises resets s e = ground arith

-- The caller's gates are exact: `should_send_fct` says yes exactly if the headroom is at least 8 and
-- `on_fct_sent` would return, and `can_send` exactly if `on_nchar_sent` would return.
gates :
    (headroom : ℤ) (s : CreditCounter)
    → ((should_send_fct headroom s ≡ true)
        ↔ (ltb_ℤ headroom (pos fct_credit_units) ≡ false) × ((on_fct_sent s).0 ≡ ok tt))
      × ((can_send s ≡ true) ↔ ((on_nchar_sent s).0 ≡ ok tt))
unfolding should_send_fct can_send on_fct_sent on_nchar_sent
gates headroom s = ground arith

-- The FCTs of link initialisation grant at most what the FIFO can hold, and at most 56, and one more
-- would be too many for one of the two.
initial_fct_count_bounds :
    (capacity : ℕ) {n : ℕ}
    → initial_fct_count (pos capacity) ≡ ok n
    → (8 * n ≤ capacity)
      × (8 * n ≤ max_credit)
      × ((capacity < 8 * n + 8) ⊎ (max_credit < 8 * n + 8))
unfolding initial_fct_count
initial_fct_count_bounds capacity h = ground arith
