-- ===== src/Link/Waits.antt =====
-- link.py: `connect` and `wait_for_error_reset`, cut at their waits, and the values that a link shows.
use cocotbext_spacewire.Base.Int.{ℤ, pos, negsuc}
use cocotbext_spacewire.Base.{
  ℕ, zero, suc, Bool, false, List, [], ◌∷◌, length, if◌then◌else◌, Outcome, ok, raise,
  timeout_error, Method, ◌>>◌, return,
}
use cocotbext_spacewire.LinkFsm.{State, run, state_eq}
use cocotbext_spacewire.Link.State.{Link}
use cocotbext_spacewire.Link.Actions.{Action, act}
use cocotbext_spacewire.Link.Api.{start}

-- The properties `state`, `tx_credit`, `rx_credit`, `tx_queue_depth` and `rx_queue_depth`.
unfoldable pub state : Link → State
state l = l.fsm.state

unfoldable pub tx_credit : Link → ℕ
tx_credit l = l.credit.tx_credit

unfoldable pub rx_credit : Link → ℕ
rx_credit l = l.credit.rx_credit

unfoldable pub tx_queue_depth : Link → ℕ
tx_queue_depth l = length l.tx_nchar_queue

unfoldable pub rx_queue_depth : Link → ℕ
rx_queue_depth l = length l.rx_nchar_queue

-- A caller has returned, or waits.
pub data Waiting : Type 0 where
  returned waits : Waiting

-- An event that is set ends a wait for it at once.
unfoldable pub await_run : Link → Waiting
unfolding state
await_run l = if state_eq (state l) run then returned else if l.run_reached then returned else waits

-- `connect` up to its wait for `_run_reached`; the wait in `start` is left out.
unfoldable pub connect : Method Link Waiting
unfolding await_run
connect l = ((if l.is_started then return tt else start) >> (λ l. (ok (await_run l), l))) l

-- The end of that wait, by the event or by the timeout.
unfoldable pub connect_ends : Bool → Outcome (Unit {0})
connect_ends timed_out = if timed_out then raise timeout_error else ok tt

-- Where `wait_for_error_reset` stands: it has returned or timed out, or waits with `deadline_left`.
pub data ResetWait : Type 0 where
  ended : Outcome (Unit {0}) → ResetWait
  waiting : ℕ → ResetWait

-- Its loop from the top to the next wait.
unfoldable pub wait_loop : ℕ → Link → ResetWait × Link
wait_loop zero l = (ended (ok tt), l)
wait_loop (suc deadline_left) l =
    (waiting (suc deadline_left), record l { error_reset_entered = false })

unfoldable pub wait_for_error_reset : ℤ → Link → ResetWait × Link
wait_for_error_reset (pos count) l = wait_loop count l
wait_for_error_reset (negsuc n) l = (ended (ok tt), l)

-- The simulator lets it go on, if `_error_reset_entered` is set.
unfoldable pub wait_goes_on : ResetWait → Link → ResetWait × Link
wait_goes_on (waiting (suc deadline_left)) l =
    if l.error_reset_entered then wait_loop deadline_left l else (waiting (suc deadline_left), l)
wait_goes_on w l = (w, l)

unfoldable pub wait_times_out : ResetWait → ResetWait
wait_times_out (waiting deadline_left) = ended (raise timeout_error)
wait_times_out w = w

-- What happens to a link with such a caller.
pub data WaitStep : Type 0 where
  acts : Action → WaitStep
  goes_on times_out : WaitStep

unfoldable pub wait_step : WaitStep → ResetWait × Link → ResetWait × Link
wait_step (acts a) (w, l) = (w, act a l)
wait_step goes_on (w, l) = wait_goes_on w l
wait_step times_out (w, l) = (wait_times_out w, l)

unfoldable pub wait_steps : List WaitStep → ResetWait × Link → ResetWait × Link
wait_steps [] s = s
wait_steps (x ∷ more) s = wait_steps more (wait_step x s)
