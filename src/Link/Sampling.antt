-- ===== src/Link/Sampling.antt =====
-- link.py over monitor.py and driver.py: the bits that a link samples.
use cocotbext_spacewire.Base.Int.{ℤ, pos}
use cocotbext_spacewire.Base.{
  ◌≡◌, refl, ap, ◌∙◌, false, Option, some, List, [], ◌∷◌, map, Bit, bit_nat, ok,
}
use cocotbext_spacewire.Characters.Streams.{wire}
use cocotbext_spacewire.Driver.{Driver}
use cocotbext_spacewire.Driver as Drivers
use cocotbext_spacewire.Driver.Run as Runs
use cocotbext_spacewire.Monitor.{Monitor, running, invoke_callbacks}
use cocotbext_spacewire.Monitor.Run.{Signal, values, called, signals}
use cocotbext_spacewire.Monitor.Wire.{driven_of, d_edges, wire_delivers}
use cocotbext_spacewire.Link.State.{Link}
use cocotbext_spacewire.Link.Receive.{feed_bit}
use cocotbext_spacewire.Link.Actions.{samples, act, act_all}

-- The monitor's calls of `feed_bit`, which `start` registers, are the link's actions `samples`.
called-samples : (vs : List ℤ) (l : Link) → called (feed_bit ∷ []) vs l ≡ act_all (map samples vs) l
unfolding called invoke_callbacks act_all act
called-samples [] l = refl
called-samples (v ∷ vs) l = called-samples vs (feed_bit v l).1

-- A link behind a monitor that is told of each edge of a peer's driver samples exactly the bits that
-- the driver has driven, in order: the run of actions that the other theorems on links are about. The
-- hypotheses are those of `wire_delivers`, with `feed_bit` as the one callback.
signals-samples :
    {V : Type 0} (int_of : V → Option ℤ) (level : Bit → V) (rate initial_d initial_s : ℤ)
    (actions : List Runs.Action) (xs : List (Signal V)) (m : Monitor Link) (l : Link)
    {driver : Driver}
    → ((b : Bit) → int_of (level b) ≡ some (pos (bit_nat b)))
    → Drivers.init rate initial_d initial_s ≡ ok driver
    → values xs ≡ map level (d_edges actions driver)
    → m.task ≡ running
    → m.raise_on_disconnect ≡ false
    → m.callbacks ≡ feed_bit ∷ []
    → (signals int_of xs (m, l)).1 ≡ act_all (map samples (wire (driven_of actions driver))) l
signals-samples int_of level rate initial_d initial_s actions xs m l {driver} reads built edges on
      quiet registered =
    let has =
      wire_delivers int_of level rate initial_d initial_s actions xs m l reads built edges on
        quiet in
    let bits = wire (driven_of actions driver) in
    has.effects ∙ ap (λ callbacks. called callbacks bits l) registered ∙ called-samples bits l
