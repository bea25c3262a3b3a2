-- ===== src/Examples/Endpoints.antt =====
-- Instances of the theorems on a link of link.py with its driver and monitor.
use cocotbext_spacewire.Base.Int.{ℤ, pos}
use cocotbext_spacewire.Base.{
  ◌≡◌, refl, true, false, Option, none, some, List, [], ◌∷◌, Bit, bit_nat, Text, codes, ok,
}
use cocotbext_spacewire.Bus as Bus
use cocotbext_spacewire.LinkFsm as Fsm
use cocotbext_spacewire.FlowControl as Credit
use cocotbext_spacewire.Driver as Driver
use cocotbext_spacewire.Monitor as Monitor
use cocotbext_spacewire.Monitor.Run.{changed, quiet}
use cocotbext_spacewire.Link.State as State
use cocotbext_spacewire.Link.Api as Api
use cocotbext_spacewire.Link.Receive.{feed_bit}
use cocotbext_spacewire.Link.Actions.{samples, act_all}
use cocotbext_spacewire.Endpoint.{Endpoint, built, init, start, stop}
use cocotbext_spacewire.Endpoint.Run.{
  Action, driver_runs, driver_wakes, bit_ends, sees, polls, tx_runs, tx_goes_on, timer_ends, stops,
  see, steps,
}
use cocotbext_spacewire.Endpoint.Whole.{Works, new_driver, new_monitor, steps-Works}
use cocotbext_spacewire.Endpoint.Restart.{restart_doubles_bits}
use cocotbext_spacewire.Examples.Links as Links

-- Every handle is a bit, and has a value.
abbrev entity : Text → Option Bit
entity name = some false

abbrev int_of_level : Bit → Option ℤ
int_of_level b = some (pos (bit_nat b))

abbrev endpoint : Endpoint
endpoint = built Links.built new_driver new_monitor

-- Two ticks, a NULL handed to the driver, a bit of it driven and a bit heard, and a stop.
abbrev actions : List (Action Bit)
actions =
    driver_runs
    ∷ timer_ends
    ∷ timer_ends
    ∷ tx_runs
    ∷ driver_wakes
    ∷ driver_runs
    ∷ bit_ends
    ∷ sees (changed true)
    ∷ sees quiet
    ∷ polls
    ∷ tx_goes_on
    ∷ stops
    ∷ []

steps-Works_example :
    ((start endpoint).0 ≡ ok tt)
    × Works (Api.start endpoint.link).1 (steps int_of_level actions (start endpoint).1)
unfolding init Bus.init Bus.lookup_signal Driver.init Driver.normalize_bit Monitor.init State.init
    Fsm.init State.credit_limit Credit.init
steps-Works_example =
    steps-Works entity (codes "spw") 40000000 true false false (pos 8) none int_of_level actions
      {e = endpoint} refl

-- The link that was started once.
abbrev running : Endpoint
running = record endpoint { monitor = record new_monitor { callbacks = feed_bit ∷ [] } }

restart_doubles_bits_example :
    ((start (stop running)).0 ≡ ok tt)
    × ((see int_of_level (changed true) (start (stop running)).1).link
        ≡ act_all (samples (pos 1) ∷ samples (pos 1) ∷ []) (start (stop running)).1.link)
restart_doubles_bits_example = restart_doubles_bits int_of_level true (pos 1) running refl refl
