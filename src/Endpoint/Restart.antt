-- ===== src/Endpoint/Restart.antt =====
-- link.py: a link that is stopped and started again, and its monitor.
use cocotbext_spacewire.Base.Int.{ℤ}
use cocotbext_spacewire.Base.{◌++◌, ◌≡◌, refl, ap, ◌∙◌, false, Option, some, [], ◌∷◌, ok}
use cocotbext_spacewire.Driver as Driver
use cocotbext_spacewire.Monitor.{Monitor, invoke_callbacks, received, edge}
use cocotbext_spacewire.Monitor as Monitors
use cocotbext_spacewire.Monitor.Run.{changed, signal, signal_to}
use cocotbext_spacewire.Link.Receive.{feed_bit}
use cocotbext_spacewire.Link.Api as Api
use cocotbext_spacewire.Link.Actions.{samples, act, act_all}
use cocotbext_spacewire.Endpoint.{Endpoint, start, start_parts, stop, set_rate}
use cocotbext_spacewire.Endpoint.Run.{see}

-- `start` behind `stop` returns, and registers `feed_bit` once more.
restarted :
    (e : Endpoint)
    → ((start (stop e)).0 ≡ ok tt)
      × ((start (stop e)).1.monitor.task ≡ Monitors.running)
      × ((start (stop e)).1.monitor.callbacks ≡ e.monitor.callbacks ++ feed_bit ∷ [])
unfolding start start_parts stop set_rate Driver.start Driver.stop Monitors.start Monitors.stop
    Monitors.on_bit Api.stop
restarted e = (refl, refl, refl)

module _ {V : Type 0} (int_of : V → Option ℤ) where
  -- What a running monitor does at an edge whose value can be read.
  see_lem :
      (v : V) (b : ℤ) (e : Endpoint)
      → e.monitor.task ≡ Monitors.running
      → int_of v ≡ some b
      → (see int_of (changed v) e).link ≡ invoke_callbacks e.monitor.callbacks b e.link
  unfolding see signal signal_to edge set_rate
  see_lem v b e on reads =
      ap (λ task. (signal_to int_of task (changed v) (e.monitor, e.link)).1) on
      ∙ ap (λ r. (received r (record e.monitor { disconnected = false }, e.link)).1) reads

  -- `start` registers `feed_bit` with the monitor and `stop` does not take it back: a link that was
  -- started once, and is stopped and started again without an exception, is given every bit that its
  -- monitor reads twice.
  pub restart_doubles_bits :
      (v : V) (b : ℤ) (e : Endpoint)
      → e.monitor.callbacks ≡ feed_bit ∷ []
      → int_of v ≡ some b
      → let e' = (start (stop e)).1 in
        ((start (stop e)).0 ≡ ok tt)
        × ((see int_of (changed v) e').link ≡ act_all (samples b ∷ samples b ∷ []) e'.link)
  unfolding invoke_callbacks act_all act
  restart_doubles_bits v b e once reads =
      let e' = (start (stop e)).1 in
      let (returned, on, calls) = restarted e in
      (
        returned,
        see_lem v b e' on reads
            ∙ ap (λ callbacks. invoke_callbacks callbacks b e'.link)
                (calls ∙ ap (λ callbacks. callbacks ++ feed_bit ∷ []) once),
      )
