-- ===== src/Examples/Wires.antt =====
-- Instances of the theorems on driver.py and monitor.py.
use cocotbext_spacewire.Base.Int.{ℤ, pos}
use cocotbext_spacewire.Base.{
  refl, true, false, Option, some, List, [], ◌∷◌, ◌++◌, Bit, bit_nat, ok, Method,
}
use cocotbext_spacewire.Characters.Streams.{wire}
use cocotbext_spacewire.Driver.{
  Driver, idle, init, normalize_bit, normalize_bits, drive_levels, start, stop, enqueue_bit,
  enqueue_bits, send_bits, wait_until_driven, send_bits_and_wait, mark_bit_driven, ready, pending,
  tx_bit, run_from, run,
}
use cocotbext_spacewire.Driver.Run.{
  Action, starts, stops, runs, wakes, bit_ends, sends, run_step, wake_step, bit_step, act, act_all,
  accepted_all,
}
use cocotbext_spacewire.Driver.Refinement.{Implements, driver_refines}
use cocotbext_spacewire.Driver.Waiters.{rounds, IsServed, waiter-IsServed}
use cocotbext_spacewire.Monitor.{Monitor, running}
use cocotbext_spacewire.Monitor.Run.{changed, quiet, Has, signals}
use cocotbext_spacewire.Monitor.Wire.{driven_of, wire_delivers}

abbrev at_rest : Driver
at_rest = idle (pos 10000000) false false

-- A bit is sent before the loop runs, the driver is stopped while its time runs, and started again.
abbrev history : List Action
history =
    starts
    ∷ runs
    ∷ sends (pos 1 ∷ pos 0 ∷ pos 0 ∷ [])
    ∷ wakes
    ∷ runs
    ∷ stops
    ∷ sends (pos 2 ∷ [])
    ∷ starts
    ∷ runs
    ∷ bit_ends
    ∷ []

driver_refines_example : Implements false false (accepted_all history) (act_all history at_rest)
unfolding init normalize_bit
driver_refines_example = driver_refines (pos 10000000) (pos 0) (pos 0) history {m = at_rest} refl

-- The driver with two more bits queued by a caller that waits.
abbrev asked : Driver
asked = (send_bits_and_wait (pos 1 ∷ pos 1 ∷ []) (act_all history at_rest)).1

waiter-IsServed_example : IsServed 0 asked (act_all (rounds 3) asked)
unfolding init normalize_bit normalize_bits start stop drive_levels enqueue_bit enqueue_bits
    send_bits wait_until_driven send_bits_and_wait mark_bit_driven ready pending tx_bit run_from run
    run_step wake_step bit_step act act_all
waiter-IsServed_example =
    waiter-IsServed (pos 10000000) (pos 0) (pos 0) history (pos 1 ∷ pos 1 ∷ []) {m = at_rest}
      {event = 0} refl refl refl

-- A monitor whose one callback notes the bits.
abbrev note : ℤ → Method (List ℤ) (Unit {0})
note bit noted = (ok tt, noted ++ bit ∷ [])

abbrev listening : Monitor (List ℤ)
listening = record {
  disconnect_timeout_ns = pos 850;
  raise_on_disconnect = false;
  queue = [];
  task = running;
  disconnected = false;
  callbacks = note ∷ [];
  bit_available = false;
}

abbrev int_of_level : Bit → Option ℤ
int_of_level b = some (pos (bit_nat b))

-- The driver has driven two bits; a timeout falls between them.
wire_delivers_example :
    Has listening []
      (wire (driven_of history at_rest))
      (signals int_of_level (changed true ∷ quiet ∷ changed false ∷ []) (listening, []))
unfolding init normalize_bit normalize_bits start stop drive_levels enqueue_bit enqueue_bits
    send_bits mark_bit_driven ready pending tx_bit run_from run run_step wake_step bit_step act
    act_all
wire_delivers_example =
    wire_delivers int_of_level (λ b. b) (pos 10000000) (pos 0) (pos 0) history
      (changed true ∷ quiet ∷ changed false ∷ []) listening [] {driver = at_rest} (λ b. refl) refl
      refl refl refl
