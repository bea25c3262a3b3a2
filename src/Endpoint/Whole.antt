-- ===== src/Endpoint/Whole.antt =====
-- link.py: what the parts of a link, its driver and its monitor say of the whole.
use cocotbext_spacewire.Base.Int.{ℤ, pos}
use cocotbext_spacewire.Base.{
  ℕ, ◌≡◌, refl, sym, ap, ◌∙◌, subst, Bool, true, false, Option, List, [], ◌∷◌, Bit, take, drop,
  if◌then◌else◌, Text, arith, Outcome, ok, raise, and_then-ok, ok-injective, runtime_error,
}
use cocotbext_spacewire.Characters.Streams.{wire}
use cocotbext_spacewire.Bus as Bus
use cocotbext_spacewire.DsCodec.{encode_levels}
use cocotbext_spacewire.LinkFsm.{output}
use cocotbext_spacewire.Driver.{
  Driver, Waiting, drive_levels, send_bits_and_wait, normalize_bits, enqueue_bits, enqueue_bit,
  wait_until_driven, tx_bit, run_from, run, mark_bit_driven, idle, enqueue_and_wait,
}
use cocotbext_spacewire.Driver as Driver
use cocotbext_spacewire.Driver.Run as Drivers
use cocotbext_spacewire.Driver.Lines.{changes, unzip}
use cocotbext_spacewire.Driver.Refinement.{Implements, driver_refines}
use cocotbext_spacewire.Monitor.{Monitor}
use cocotbext_spacewire.Monitor as Monitors
use cocotbext_spacewire.Link.State.{TxTask, looping, Link}
use cocotbext_spacewire.Link.State as State
use cocotbext_spacewire.Link.Fsm.{cancel_timer, start_timer}
use cocotbext_spacewire.Link.Transmit.{tx_loop}
use cocotbext_spacewire.Link.Receive.{feed_bit}
use cocotbext_spacewire.Link.Api as Api
use cocotbext_spacewire.Link.Actions as Links
use cocotbext_spacewire.Link.Timing.{IsTimed, timer_of_state, tx_loop-keeps}
use cocotbext_spacewire.Endpoint.{
  Endpoint, built, init, start, stop, set_rate, transmit, hand_over, goes_on, is_driven,
  start_parts,
}
use cocotbext_spacewire.Endpoint.Run.{
  Action, driver_runs, driver_wakes, bit_ends, polls, tx_runs, tx_goes_on, stops, transmit_at,
  link_does, see, step, steps,
}
use cocotbext_spacewire.Endpoint.Refinement.{steps-IsRun, emitted_all, sampled_all}

-- The driver drives at the link's bit rate.
abbrev IsRated : Endpoint → Type 0
IsRated e = e.driver.bit_rate_bps ≡ pos e.link.bit_rate_bps

run_from-rate : (queue : List Bit) (d : Driver) → (run_from queue d).bit_rate_bps ≡ d.bit_rate_bps
unfolding run_from tx_bit mark_bit_driven drive_levels
run_from-rate [] d = refl
run_from-rate (b ∷ bs) d = refl

run_step-rate :
    (task : Driver.RunTask) (d : Driver) → (Drivers.run_step task d).bit_rate_bps ≡ d.bit_rate_bps
unfolding Drivers.run_step run
run_step-rate Driver.top d = run_from-rate d.queue d
run_step-rate _ d = refl

wake_step-rate :
    (task : Driver.RunTask) (d : Driver) → (Drivers.wake_step task d).bit_rate_bps ≡ d.bit_rate_bps
unfolding Drivers.wake_step
wake_step-rate Driver.parked d = ground arith
wake_step-rate _ d = refl

bit_step-rate :
    (task : Driver.RunTask) (d : Driver) → (Drivers.bit_step task d).bit_rate_bps ≡ d.bit_rate_bps
unfolding Drivers.bit_step
bit_step-rate Driver.timing d = refl
bit_step-rate _ d = refl

enqueue_bits-rate : (bs : List Bit) (d : Driver) → (enqueue_bits bs d).bit_rate_bps ≡ d.bit_rate_bps
unfolding enqueue_bits enqueue_bit
enqueue_bits-rate [] d = refl
enqueue_bits-rate (b ∷ bs) d = enqueue_bits-rate bs (enqueue_bit b d)

waiting-rate : (n : ℕ) (d : Driver) → (wait_until_driven n d).1.bit_rate_bps ≡ d.bit_rate_bps
unfolding wait_until_driven
waiting-rate n d = ground arith

sent-rate : (bs : List Bit) (d : Driver) → (enqueue_and_wait bs d).1.bit_rate_bps ≡ d.bit_rate_bps
sent-rate [] d = refl
sent-rate (b ∷ bs) d = waiting-rate _ (enqueue_bits (b ∷ bs) d) ∙ enqueue_bits-rate (b ∷ bs) d

send_wire :
    (bits : List Bit) (d : Driver)
    → send_bits_and_wait (wire bits) d
      ≡ (ok (enqueue_and_wait bits d).0, (enqueue_and_wait bits d).1)
unfolding send_bits_and_wait
send_wire bits d = rw (Drivers.normalize_bits-wire bits, send_bits_and_wait) refl

hand_over-rate :
    (r : Outcome (List Bit)) (e : Endpoint)
    → ((hand_over r e).driver.bit_rate_bps ≡ e.driver.bit_rate_bps)
      × ((hand_over r e).link ≡ e.link)
unfolding hand_over
hand_over-rate (ok bits) e =
    rw (send_wire bits e.driver, hand_over)
      (ap (λ o. o.1.bit_rate_bps) (send_wire bits e.driver) ∙ sent-rate bits e.driver, refl)
hand_over-rate (raise x) e = (refl, refl)

transmit_at-IsRated : (task : TxTask) (e : Endpoint) → IsRated e → IsRated (transmit_at task e)
unfolding transmit_at transmit tx_loop
transmit_at-IsRated looping e rated =
    let (same, kept) = hand_over-rate (tx_loop e.link).0 (record e { link = (tx_loop e.link).1 }) in
    same
    ∙ rated
    ∙ ap pos
        (sym (ap (λ l. l.bit_rate_bps) kept ∙ (tx_loop-keeps (output e.link.fsm).tx_mode e.link).3))
transmit_at-IsRated _ e rated = rated

if-IsRated : (b : Bool) (e e' : Endpoint) → IsRated e → IsRated e' → IsRated (if b then e' else e)
if-IsRated true e e' p q = q
if-IsRated false e e' p q = p

module _ {V : Type 0} (int_of : V → Option ℤ) where
  step-IsRated : (a : Action V) (e : Endpoint) → IsRated e → IsRated (step int_of a e)
  unfolding step see set_rate Drivers.act Driver.stop stop Api.stop cancel_timer goes_on Links.act
  step-IsRated driver_runs e p = run_step-rate e.driver.task e.driver ∙ p
  step-IsRated driver_wakes e p = wake_step-rate e.driver.task e.driver ∙ p
  step-IsRated bit_ends e p = bit_step-rate e.driver.task e.driver ∙ p
  step-IsRated polls e p =
      if-IsRated e.link.is_started e (link_does (Links.polls e.monitor.disconnected) e) p refl
  step-IsRated tx_runs e p = transmit_at-IsRated e.link.tx_task e p
  step-IsRated tx_goes_on e p =
      if-IsRated (is_driven e.tx_wait e.driver) e (link_does Links.tx_driven e) p refl
  step-IsRated stops e p = p
  step-IsRated _ e p = refl

  steps-IsRated :
      (actions : List (Action V)) (e : Endpoint) → IsRated e → IsRated (steps int_of actions e)
  unfolding steps
  steps-IsRated [] e p = p
  steps-IsRated (a ∷ more) e p = steps-IsRated more (step int_of a e) (step-IsRated a e p)

-- The driver and the monitor that the constructor makes.
abbrev pub new_driver : Driver
new_driver = idle (pos 10000000) false false

abbrev pub new_monitor : Monitor Link
new_monitor = record {
  disconnect_timeout_ns = pos 850;
  raise_on_disconnect = false;
  queue = [];
  task = Monitors.off;
  disconnected = false;
  callbacks = [];
  bit_available = false;
}

-- After `start`.
abbrev opened : Link → Endpoint
opened l = set_rate (record {
  link = (Api.start_rest l).1;
  driver = record (drive_levels false false new_driver) { task = Driver.top };
  monitor = record new_monitor { callbacks = feed_bit ∷ []; task = Monitors.running };
  tx_wait = Driver.done;
})

start_lem :
    (l : Link) → l.is_started ≡ false → start (built l new_driver new_monitor) ≡ (ok tt, opened l)
unfolding start start_parts Driver.start Monitors.start Monitors.on_bit start_timer
start_lem l h =
    ap
      (λ b.
        if b
        then (raise runtime_error, built l new_driver new_monitor)
        else start_parts (built l new_driver new_monitor))
      h

link_start_lem : (l : Link) → l.is_started ≡ false → Api.start l ≡ Api.start_rest l
unfolding Api.start
link_start_lem l h = ap (λ b. if b then (raise runtime_error, l) else Api.start_rest l) h

module _ {H : Type 0} (entity : Text → Option H) (prefix : Text) (bit_rate : ℕ)
    (wants_start wants_auto only_nulls : Bool) (rx_fifo_capacity : ℤ)
    (max_rx_credit : Option ℤ) where
  -- What the constructor makes.
  init_lem :
      {e : Endpoint}
      → init entity prefix bit_rate wants_start wants_auto only_nulls rx_fifo_capacity max_rx_credit
        ≡ ok e
      → (State.init bit_rate wants_start wants_auto only_nulls rx_fifo_capacity max_rx_credit
          ≡ ok e.link)
        × (e ≡ built e.link new_driver new_monitor)
  unfolding init Driver.init Driver.normalize_bit Monitors.init
  init_lem {e} h =
      let (bus, _, h₁) = and_then-ok (Bus.init entity prefix) _ h in
      let (link, made, h₂) =
        and_then-ok
          (State.init bit_rate wants_start wants_auto only_nulls rx_fifo_capacity max_rx_credit)
          (λ link. ok (built link new_driver new_monitor)) h₁ in
      let is : built link new_driver new_monitor ≡ e = ok-injective h₂ in
      let same : link ≡ e.link = ap (λ e. e.link) is in
      (made ∙ ap ok same, sym is ∙ ap (λ l. built l new_driver new_monitor) same)

init-is_started :
    (bit_rate : ℕ) (wants_start wants_auto only_nulls : Bool) (rx_fifo_capacity : ℤ)
    (max_rx_credit : Option ℤ) {l : Link}
    → State.init bit_rate wants_start wants_auto only_nulls rx_fifo_capacity max_rx_credit ≡ ok l
    → l.is_started ≡ false
unfolding State.init
init-is_started bit_rate wants_start wants_auto only_nulls rx_fifo_capacity max_rx_credit h =
    ground arith

-- A link as it is used, taken apart. Its own state is that of a run of the callbacks, the tasks and the
-- user's calls, from the link `l` that was just started. The lines D and S have changed exactly as
-- ds_codec.py's `ds_encode` says for the bits that the transmit loop has encoded in that run, as many of
-- them as the driver counts, and the others wait in order. The link has sampled the bits that its
-- monitor has queued. The driver's bit rate is the one that the machine's output names.
pub record Works (l : Link) (e : Endpoint) : Type 0 where
  pub actions : List Links.Action
  pub link : e.link ≡ Links.act_all actions l
  pub lines :
      unzip (changes false false e.driver.levels)
      ≡ encode_levels false false (take e.driver.driven_bits (emitted_all actions l))
  pub waiting : e.driver.queue ≡ drop e.driver.driven_bits (emitted_all actions l)
  pub heard : e.monitor.queue ≡ sampled_all actions
  pub rate : e.driver.bit_rate_bps ≡ pos (output e.link.fsm).bit_rate_bps

-- The run of the parts, from `start`.
module _ {V : Type 0} (int_of : V → Option ℤ) (bit_rate : ℕ)
    (wants_start wants_auto only_nulls : Bool) (rx_fifo_capacity : ℤ) (max_rx_credit : Option ℤ)
    {l : Link}
    (made : State.init bit_rate wants_start wants_auto only_nulls rx_fifo_capacity max_rx_credit
      ≡ ok l) where
  opened-Works :
      (actions : List (Action V)) → Works (Api.start l).1 (steps int_of actions (opened l))
  unfolding set_rate Driver.start Drivers.act Drivers.act_all Drivers.accepted_all Drivers.accepted
      Driver.init Driver.normalize_bit
  opened-Works actions =
      let l₁ = (Api.start l).1 in
      let e = steps int_of actions (opened l) in
      let run = steps-IsRun int_of actions (opened l) refl in
      let same : (Api.start_rest l).1 ≡ l₁ = sym (
        ap (λ r. r.1)
          (link_start_lem l (
            init-is_started bit_rate wants_start wants_auto only_nulls rx_fifo_capacity
              max_rx_credit made))) in
      let ds =
        Drivers.starts
        ∷ Drivers.sets_rate (pos (Api.start_rest l).1.bit_rate_bps)
        ∷ run.driver_actions in
      let emitted = run.sent ∙ ap (emitted_all run.link_actions) same in
      let v = driver_refines (pos 10000000) (pos 0) (pos 0) ds {m = new_driver} refl in
      let is : Drivers.act_all ds new_driver ≡ e.driver = sym run.driver in
      let link = run.link ∙ ap (Links.act_all run.link_actions) same in
      let timed =
        timer_of_state bit_rate wants_start wants_auto only_nulls rx_fifo_capacity max_rx_credit
          run.link_actions made in
      let v' : Implements false false (emitted_all run.link_actions l₁) e.driver =
        subst (λ sent. Implements false false sent e.driver) emitted
          (subst (Implements false false (Drivers.accepted_all ds)) is v) in
      record {
        actions = run.link_actions;
        link = link;
        lines = v'.lines;
        waiting = v'.waiting;
        heard = run.heard;
        rate =
            steps-IsRated int_of actions (opened l) refl
            ∙ ap pos (subst IsTimed (sym link) timed).rate;
      }

-- A link that the constructor has built is started without an exception, and after any of the actions
-- of the simulator and the user, of which stopping it is one and another start is none, its parts work
-- together in the sense of `Works`.
pub steps-Works :
    {H V : Type 0} (entity : Text → Option H) (prefix : Text) (bit_rate : ℕ)
    (wants_start wants_auto only_nulls : Bool) (rx_fifo_capacity : ℤ) (max_rx_credit : Option ℤ)
    (int_of : V → Option ℤ) (actions : List (Action V)) {e : Endpoint}
    → init entity prefix bit_rate wants_start wants_auto only_nulls rx_fifo_capacity max_rx_credit
      ≡ ok e
    → ((start e).0 ≡ ok tt) × Works (Api.start e.link).1 (steps int_of actions (start e).1)
steps-Works entity prefix bit_rate wants_start wants_auto only_nulls rx_fifo_capacity max_rx_credit
      int_of actions {e} h =
    let (made, is) =
      init_lem entity prefix bit_rate wants_start wants_auto only_nulls rx_fifo_capacity
        max_rx_credit h in
    let begun : start e ≡ (ok tt, opened e.link) =
      ap start is
      ∙ start_lem e.link (
          init-is_started bit_rate wants_start wants_auto only_nulls rx_fifo_capacity max_rx_credit
            made) in
    (
      ap (λ r. r.0) begun,
      subst (λ s. Works (Api.start e.link).1 (steps int_of actions s)) (sym (ap (λ r. r.1) begun))
          (opened-Works int_of bit_rate wants_start wants_auto only_nulls rx_fifo_capacity
            max_rx_credit made actions),
    )
