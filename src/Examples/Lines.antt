-- ===== src/Examples/Lines.antt =====
-- An instance of the theorem on characters over driver.py and monitor.py.
use cocotbext_spacewire.Base.Int.{ℤ, pos}
use cocotbext_spacewire.Base.{
  ◌≡◌, refl, ap, sym, ◌∙◌, map, inl, true, false, Option, none, some, List, [], ◌∷◌, Bit, bit_nat,
  ok, raise, runtime_error, Outcome, Method,
}
use cocotbext_spacewire.Characters.Types.{Character, fct, plain}
use cocotbext_spacewire.Characters.Types as Types
use cocotbext_spacewire.Characters.Encoder as Encoders
use cocotbext_spacewire.Characters.Bits as Bits
use cocotbext_spacewire.Characters.Decoder.{fresh}
use cocotbext_spacewire.Characters.Delivery.{Synced}
use cocotbext_spacewire.Characters.Delivery as Delivery
use cocotbext_spacewire.Characters.Requests.{control}
use cocotbext_spacewire.Characters.CharDriver.{CharDriver}
use cocotbext_spacewire.Characters.CharDriver as CharDrivers
use cocotbext_spacewire.Characters.CharMonitor.{CharMonitor}
use cocotbext_spacewire.Characters.Loopback.{send_each}
use cocotbext_spacewire.Driver.{Driver, idle, init, send_bits, enqueue_bits}
use cocotbext_spacewire.Driver as Drivers
use cocotbext_spacewire.Driver.Run.{Action, starts, runs, bit_ends, act_all, accepted_all}
use cocotbext_spacewire.Driver.Run as Runs
use cocotbext_spacewire.Driver.Lines.{changes}
use cocotbext_spacewire.Monitor.{Monitor, running, Received, returns, waits, recv_bit}
use cocotbext_spacewire.Monitor.Run.{Signal, changed, quiet, signals}
use cocotbext_spacewire.Line.{Carried, send_each-Carried}

abbrev put_bit : Bit → Method Driver (Unit {0})
put_bit b d = send_bits (pos (bit_nat b) ∷ []) d

-- The bit that has been received; a caller that would wait fails.
abbrev bit_or_raise : Received ℤ × Monitor (Unit {0}) → Outcome ℤ × Monitor (Unit {0})
bit_or_raise (returns v, m) = (ok v, m)
bit_or_raise (waits bs, m) = (raise runtime_error, m)

abbrev get_bit : Method (Monitor (Unit {0})) ℤ
get_bit m = bit_or_raise (recv_bit m)

abbrev sender : CharDriver Driver
sender = record {
  encoder = Delivery.quiet [];
  put_bit = put_bit;
  sink = idle (pos 10000000) false false;
  type_counts = [];
  error_counts = [];
}

abbrev listener : Monitor (Unit {0})
listener = record {
  disconnect_timeout_ns = pos 850;
  raise_on_disconnect = false;
  queue = [];
  task = running;
  disconnected = false;
  callbacks = [];
  bit_available = false;
}

abbrev reader : CharMonitor (Monitor (Unit {0}))
reader = record {
  decoder = fresh [];
  strict = true;
  queue = [];
  get_bit = get_bit;
  source = listener;
}

-- The four bits of an FCT.
abbrev four_bits : List Action
four_bits = starts ∷ runs ∷ bit_ends ∷ runs ∷ bit_ends ∷ runs ∷ bit_ends ∷ runs ∷ bit_ends ∷ []

-- A timeout falls between two of their edges.
abbrev edges : List (Signal Bit)
edges = changed false ∷ changed true ∷ quiet ∷ changed false ∷ changed false ∷ []

abbrev int_of_level : Bit → Option ℤ
int_of_level b = some (pos (bit_nat b))

in_step : Synced (Delivery.quiet []) (fresh [])
in_step = record { same_content = refl; no_injection = refl; idle = (refl, refl); no_escape = refl }

-- The bits of an FCT are in the driver's queue.
sent :
    (send_each (plain fct ∷ []) sender).1.sink
    ≡ enqueue_bits (false ∷ true ∷ false ∷ false ∷ []) (idle (pos 10000000) false false)
unfolding send_each Encoders.coerce_character CharDrivers.on_encoder Encoders.encode
    Encoders.encode_as Encoders.encode_control Encoders.control_content_bits
    Encoders.encode_primitive CharDrivers.send_bits CharDrivers.put_bits send_bits
    Drivers.normalize_bits Drivers.normalize_bit Encoders.any_zero Bits.compute_parity Bits.ones
    CharDrivers.count_type CharDrivers.on_sink CharDrivers.send Encoders.advance
    Encoders.consume_bad_parity_request Encoders.encode_character Types.increment
    Drivers.enqueue_bit enqueue_bits
sent = refl

-- The driver drives them.
abbrev drained : Driver
drained =
    act_all four_bits
      (enqueue_bits (false ∷ true ∷ false ∷ false ∷ []) (idle (pos 10000000) false false))

drained-levels :
    (drained.queue ≡ [])
    × (map (λ (p : Bit × Bit). p.0) (changes false false drained.levels)
        ≡ false ∷ true ∷ false ∷ false ∷ [])
unfolding act_all Runs.act Runs.run_step Runs.bit_step Drivers.start Drivers.drive_levels
    Drivers.enqueue_bit enqueue_bits Drivers.mark_bit_driven Drivers.pending Drivers.ready
    Drivers.run Drivers.run_from Drivers.tx_bit
drained-levels = (refl, refl)

send_each-Carried_example :
    Carried (plain fct ∷ []) sender reader (signals int_of_level edges (listener, tt)).0 none
unfolding init Drivers.normalize_bit accepted_all Runs.accepted act_all
send_each-Carried_example =
    send_each-Carried int_of_level (λ b. b) (λ b. refl) (pos 10000000) (pos 0) (pos 0) [] four_bits
      (plain fct ∷ []) sender reader edges listener tt none {m₀ = idle (pos 10000000) false false}
      (λ b d. refl) (λ v m m' e. ap bit_or_raise e) (control fct (inl refl), tt) in_step refl refl
      refl refl (ap (λ d. (act_all four_bits d).queue) sent ∙ drained-levels.0) refl refl refl
      (sym (
        ap
          (λ d.
            map (λ b. b)
              (map (λ (p : Bit × Bit). p.0) (changes false false (act_all four_bits d).levels)))
          sent
        ∙ ap (map (λ b. b)) drained-levels.1))
