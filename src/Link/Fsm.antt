-- ===== src/Link/Fsm.antt =====
-- link.py: the events fed to the state machine, what a change of state does, and the timers.
use cocotbext_spacewire.Base.Int.{pos}
use cocotbext_spacewire.Base.{
  ℕ, ◌+◌, true, false, none, some, [], ◌==◌, if◌then◌else◌, Outcome, ok, raise,
}
use cocotbext_spacewire.LinkFsm.{
  State, error_reset, error_wait, ready, started, connecting, run, Event, tick_6_4us, tick_12_8us,
  Output, output, feed, state_eq,
}
use cocotbext_spacewire.FlowControl.{
  CreditCounter, max_credit, on_nchar_sent, can_send, on_fct_sent, should_send_fct,
  initial_fct_count,
}
use cocotbext_spacewire.FlowControl as Credit
use cocotbext_spacewire.Characters.Decoder.{Decoder, fresh}
use cocotbext_spacewire.Characters.Decoder as Decoders
use cocotbext_spacewire.Link.State.{Timer, Link, tick_6_4_ns, tick_12_8_ns}

-- `_start_timer`
unfoldable pub start_timer : ℕ → Event → Link → Link
start_timer duration_ns event l = record l {
  timer_gen = l.timer_gen + 1;
  timer_task = some (record { duration_ns = duration_ns; event = event; gen = l.timer_gen + 1 });
}

-- `_cancel_timer`: the generation moves on, and the task is killed.
unfoldable pub cancel_timer : Link → Link
cancel_timer l = record l { timer_gen = l.timer_gen + 1; timer_task = none }

-- The timer of a state that is entered.
unfoldable pub schedule : State → Link → Link
schedule error_reset l = start_timer tick_6_4_ns tick_6_4us l
schedule error_wait l = start_timer tick_12_8_ns tick_12_8us l
schedule started l = start_timer tick_12_8_ns tick_12_8us l
schedule connecting l = start_timer tick_12_8_ns tick_12_8us l
schedule ready l = l
schedule run l = l

-- `initial_fct_count` raises for no capacity that the constructor has passed.
abbrev ok_or_zero : Outcome ℕ → ℕ
ok_or_zero (ok n) = n
ok_or_zero (raise e) = 0

-- What `_on_state_change` does for ErrorReset, Connecting and Run. `Encoder.reset()` has no argument.
unfoldable pub entered : State → Link → Link
entered error_reset l = record l {
  encoder = record { prev_content_bits = []; bad_parity_offsets = [] };
  decoder = Decoders.reset l.decoder;
  credit = Credit.reset l.credit;
  error_reset_count = l.error_reset_count + 1;
  error_reset_entered = true;
}
entered connecting l = record l { fct_sent_this_connecting = false }
entered run l = record l {
  pending_initial_fct_burst = ok_or_zero (initial_fct_count (pos l.rx_fifo_capacity_nchars));
  run_reached = true;
}
entered s l = l

-- `_on_state_change`
unfoldable pub on_state_change : Output → Link → Link
unfolding cancel_timer schedule entered
on_state_change out l =
    let l₁ = schedule out.state (cancel_timer l) in
    let l₂ = record l₁ { bit_rate_bps = out.bit_rate_bps } in
    let l₃ = entered out.state l₂ in record l₃ { tx_wakeup = true }

-- `_feed_fsm`
unfoldable pub feed_fsm : Event → Link → Link
feed_fsm event l =
    let fsm = feed event l.fsm in
    let l' = record l { fsm = fsm } in
    if state_eq fsm.state l.fsm.state then l' else on_state_change (output fsm) l'

-- `_run_timer` behind its wait.
unfoldable pub run_timer : Timer → Link → Link
run_timer t l = if t.gen == l.timer_gen then feed_fsm t.event l else l

-- The simulator ends the wait of the timer's task, which is then finished.
unfoldable pub timer_expires : Link → Link
timer_expires l = elim l.timer_task [
  | none ↦ l
  | some t ↦ run_timer t (record l { timer_task = none })
]
