-- ===== src/Examples/Credits.antt =====
-- Instances of the theorems on flow_control.py.
use cocotbext_spacewire.Base.Int.{pos}
use cocotbext_spacewire.Base.{
  ℕ, suc, ◌+◌, ◌*◌, ◌≤◌, ◌≡◌, ◌↔◌, ◌⊎◌, refl, [], ◌∷◌, ok, raise, runtime_error, arith,
}
use cocotbext_spacewire.FlowControl.{
  counter, init, on_fct_received, on_nchar_received, on_fct_sent, should_send_fct,
}
use cocotbext_spacewire.FlowControl.Bounds.{
  fct_received, nchar_sent, resets, call, calls, Inv, Raises, calls-Inv, call-Raises,
}
use cocotbext_spacewire.FlowControl.Channel.{
  Channel, Reach, here, next, grant, IsStart, no_credit_errors, depth_bounded,
}
use cocotbext_spacewire.FlowControl.Overrun.{fifo_overrun}

calls-Inv_example : Inv (calls (fct_received ∷ nchar_sent ∷ resets ∷ nchar_sent ∷ []) (counter 56))
unfolding init
calls-Inv_example =
    calls-Inv (pos 56) (fct_received ∷ nchar_sent ∷ resets ∷ nchar_sent ∷ []) {s = counter 56} refl

call-Raises_example :
    (((call nchar_sent (counter 56)).0 ≡ raise runtime_error)
      ↔ Raises nchar_sent (counter 56) runtime_error)
    × (((call nchar_sent (counter 56)).0 ≡ raise runtime_error)
        ↔ (call nchar_sent (counter 56) ≡ (raise runtime_error, counter 56)))
call-Raises_example = call-Raises nchar_sent (counter 56) runtime_error

-- Two ends with room for `n` N-Chars, and the same after one FCT was sent.
abbrev quiet_channel : ℕ → Channel
quiet_channel n = record {
  sender = counter 56;
  receiver = counter n;
  fcts = 0;
  nchars = 0;
  depth = 0;
}

quiet-IsStart : IsStart (quiet_channel 24)
quiet-IsStart = omega arith

abbrev granted_channel : Channel
granted_channel = record (quiet_channel 24) {
  receiver = record (counter 24) { rx_credit = 8; fcts_sent = 1 };
  fcts = 1;
}

granted-Reach : Reach 24 (quiet_channel 24) granted_channel
unfolding should_send_fct on_fct_sent
granted-Reach = next here (grant (quiet_channel 24) refl refl)

no_credit_errors_example :
    ((granted_channel.fcts ≡ 0) ⊎ ((on_fct_received (counter 56)).0 ≡ ok tt))
    × ((granted_channel.nchars ≡ 0) ⊎ ((on_nchar_received granted_channel.receiver).0 ≡ ok tt))
no_credit_errors_example = no_credit_errors quiet-IsStart granted-Reach

depth_bounded_example : (granted_channel.depth ≡ 0) ⊎ (granted_channel.depth + 8 ≤ 24 + 24)
depth_bounded_example = depth_bounded quiet-IsStart granted-Reach

fifo_overrun_example :
    (d : Channel) × Reach (8 * suc 2) (quiet_channel 24) d × (d.depth ≡ 8 * suc 2 + 8)
fifo_overrun_example = fifo_overrun 2 (omega arith) (omega arith) refl quiet-IsStart
