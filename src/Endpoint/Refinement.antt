-- ===== src/Endpoint/Refinement.antt =====
-- link.py: a link with its driver and monitor, taken apart into runs of each.
use cocotbext_spacewire.Base.Int.{ℤ, pos}
use cocotbext_spacewire.Base.{
  ◌≡◌, refl, sym, ap, ap₂, ◌∙◌, inl, inr, Bool, true, false, Option, none, some, List, [], ◌∷◌,
  ◌++◌, append-nil, append_assoc, Bit, if◌then◌else◌, arith, Outcome, Outcome-cases, ok, raise,
}
use cocotbext_spacewire.Characters.Streams.{wire}
use cocotbext_spacewire.Driver.{send_bits_and_wait}
use cocotbext_spacewire.Driver.Run as Drivers
use cocotbext_spacewire.Driver.Run.{bits_or_none}
use cocotbext_spacewire.Monitor.{Monitor, invoke_callbacks, received, edge, timed_out}
use cocotbext_spacewire.Monitor as Monitors
use cocotbext_spacewire.Monitor.Run.{Signal, changed, quiet, signal, signal_to}
use cocotbext_spacewire.Link.State.{TxTask, looping, Link}
use cocotbext_spacewire.Link.Transmit.{tx_loop}
use cocotbext_spacewire.Link.Receive.{feed_bit}
use cocotbext_spacewire.Link.Actions as Links
use cocotbext_spacewire.Link.Actions.{act, loop_step, driven_step}
use cocotbext_spacewire.Endpoint.{Endpoint, set_rate, stop, transmit, hand_over, goes_on, is_driven}
use cocotbext_spacewire.Endpoint.Run.{
  Action, driver_runs, driver_wakes, bit_ends, sees, polls, tx_runs, tx_goes_on, tx_wakes_up,
  timer_ends, disconnects, stops, receives, sends_char, sends_packet, transmit_at, link_does,
  driver_does, see, step, steps,
}

-- The bits that the transmit loop has encoded in a run of a link, and those that the link has sampled.
unfoldable pub emitted_at : TxTask → Link → List Bit
emitted_at looping l = bits_or_none (tx_loop l).0
emitted_at _ l = []

unfoldable pub emitted : Links.Action → Link → List Bit
unfolding emitted_at
emitted Links.tx_runs l = emitted_at l.tx_task l
emitted _ l = []

unfoldable pub emitted_all : List Links.Action → Link → List Bit
emitted_all [] l = []
emitted_all (a ∷ more) l = emitted a l ++ emitted_all more (act a l)

unfoldable pub sampled : Links.Action → List ℤ
sampled (Links.samples v) = v ∷ []
sampled _ = []

unfoldable pub sampled_all : List Links.Action → List ℤ
sampled_all [] = []
sampled_all (a ∷ more) = sampled a ++ sampled_all more

-- What has happened to the parts: a run of the link, and one of the driver, which has been given
-- exactly the bits that the transmit loop has encoded; the link has sampled exactly the bits that the
-- monitor has queued.
pub record IsRun (e e' : Endpoint) : Type 0 where
  pub link_actions : List Links.Action
  pub driver_actions : List Drivers.Action
  pub link : e'.link ≡ Links.act_all link_actions e.link
  pub driver : e'.driver ≡ Drivers.act_all driver_actions e.driver
  pub callbacks : e'.monitor.callbacks ≡ e.monitor.callbacks
  pub sent : Drivers.accepted_all driver_actions ≡ emitted_all link_actions e.link
  pub heard : e'.monitor.queue ≡ e.monitor.queue ++ sampled_all link_actions

pub link-act_all-append :
    (actions more : List Links.Action) (l : Link)
    → Links.act_all (actions ++ more) l ≡ Links.act_all more (Links.act_all actions l)
unfolding Links.act_all
link-act_all-append [] more l = refl
link-act_all-append (a ∷ actions) more l = link-act_all-append actions more (act a l)

emitted_all-append :
    (actions more : List Links.Action) (l : Link)
    → emitted_all (actions ++ more) l
      ≡ emitted_all actions l ++ emitted_all more (Links.act_all actions l)
unfolding emitted_all Links.act_all
emitted_all-append [] more l = refl
emitted_all-append (a ∷ actions) more l =
    ap (◌++◌ (emitted a l)) (emitted_all-append actions more (act a l))
    ∙ sym (append_assoc (emitted a l) (emitted_all actions (act a l)) _)

sampled_all-append :
    (actions more : List Links.Action)
    → sampled_all (actions ++ more) ≡ sampled_all actions ++ sampled_all more
unfolding sampled_all
sampled_all-append [] more = refl
sampled_all-append (a ∷ actions) more =
    ap (◌++◌ (sampled a)) (sampled_all-append actions more) ∙ sym (append_assoc (sampled a) _ _)

pub IsRun-trans : {e e₁ e₂ : Endpoint} → IsRun e e₁ → IsRun e₁ e₂ → IsRun e e₂
IsRun-trans {e} r s = record {
  link_actions = r.link_actions ++ s.link_actions;
  driver_actions = r.driver_actions ++ s.driver_actions;
  link =
      s.link
      ∙ ap (Links.act_all s.link_actions) r.link
      ∙ sym (link-act_all-append r.link_actions s.link_actions e.link);
  driver =
      s.driver
      ∙ ap (Drivers.act_all s.driver_actions) r.driver
      ∙ sym (Drivers.act_all-append r.driver_actions s.driver_actions e.driver);
  callbacks = s.callbacks ∙ r.callbacks;
  sent =
      Drivers.accepted_all-append r.driver_actions s.driver_actions
      ∙ ap₂ ◌++◌ r.sent (s.sent ∙ ap (emitted_all s.link_actions) r.link)
      ∙ sym (emitted_all-append r.link_actions s.link_actions e.link);
  heard =
      s.heard
      ∙ ap (λ q. q ++ sampled_all s.link_actions) r.heard
      ∙ append_assoc e.monitor.queue (sampled_all r.link_actions) (sampled_all s.link_actions)
      ∙ ap (◌++◌ e.monitor.queue) (sym (sampled_all-append r.link_actions s.link_actions));
}

-- An action that sends and samples nothing.
abbrev IsSilent : Links.Action → Type 0
IsSilent a = ((l : Link) → emitted a l ≡ []) × (sampled a ≡ [])

module _ (e : Endpoint) where
  link_does-IsRun : (a : Links.Action) → IsSilent a → IsRun e (link_does a e)
  unfolding set_rate Links.act_all Drivers.act_all Drivers.act emitted_all sampled_all
      Drivers.accepted_all Drivers.accepted
  link_does-IsRun a (none_sent, none_heard) = record {
    link_actions = a ∷ [];
    driver_actions = Drivers.sets_rate (pos (act a e.link).bit_rate_bps) ∷ [];
    link = refl;
    driver = refl;
    callbacks = refl;
    sent = sym (append-nil _ ∙ none_sent e.link);
    heard = sym (ap (◌++◌ e.monitor.queue) (append-nil _ ∙ none_heard) ∙ append-nil _);
  }

  driver_does-IsRun : (a : Drivers.Action) → Drivers.accepted a ≡ [] → IsRun e (driver_does a e)
  unfolding Links.act_all Drivers.act_all emitted_all sampled_all Drivers.accepted_all
  driver_does-IsRun a none_sent = record {
    link_actions = [];
    driver_actions = a ∷ [];
    link = refl;
    driver = refl;
    callbacks = refl;
    sent = append-nil _ ∙ none_sent;
    heard = sym (append-nil _);
  }

  same-IsRun : IsRun e e
  unfolding Links.act_all Drivers.act_all emitted_all sampled_all Drivers.accepted_all
  same-IsRun = record {
    link_actions = [];
    driver_actions = [];
    link = refl;
    driver = refl;
    callbacks = refl;
    sent = refl;
    heard = sym (append-nil _);
  }

  stop-IsRun : IsRun e (stop e)
  unfolding stop Links.act_all Drivers.act_all Drivers.act act Monitors.stop emitted_all emitted
      sampled_all sampled Drivers.accepted_all Drivers.accepted
  stop-IsRun = record {
    link_actions = Links.stops ∷ [];
    driver_actions = Drivers.stops ∷ [];
    link = refl;
    driver = refl;
    callbacks = refl;
    sent = refl;
    heard = sym (append-nil _);
  }

-- What `send_bits_and_wait` does to the driver, whatever it returns.
hand_over-parts :
    (bits : List Bit) (e : Endpoint)
    → ((hand_over (ok bits) e).driver ≡ Drivers.act (Drivers.sends_and_waits (wire bits)) e.driver)
      × ((hand_over (ok bits) e).link ≡ e.link)
      × ((hand_over (ok bits) e).monitor ≡ e.monitor)
unfolding hand_over Drivers.act
hand_over-parts bits e = elim (Outcome-cases (send_bits_and_wait (wire bits) e.driver).0) [
  | inl (w, q) ↦ rw (q, hand_over) (refl, refl, refl)
  | inr (x, q) ↦ rw (q, hand_over) (refl, refl, refl)
]

looping_lem :
    (l l' : Link) {r : Outcome (List Bit)}
    → l.tx_task ≡ looping
    → tx_loop l ≡ (r, l')
    → (act Links.tx_runs l ≡ l') × (emitted Links.tx_runs l ≡ bits_or_none r)
unfolding act loop_step emitted emitted_at
looping_lem l l' at sent = (
  ap (λ task. loop_step task l) at ∙ ap (λ o. o.1) sent,
  ap (λ task. emitted_at task l) at ∙ ap (λ o. bits_or_none o.0) sent,
)

-- The transmit loop at its top, by what it has encoded.
transmit-IsRun :
    (e : Endpoint) (r : Outcome (List Bit)) (l : Link)
    → e.link.tx_task ≡ looping
    → tx_loop e.link ≡ (r, l)
    → IsRun e (hand_over r (record e { link = l }))
unfolding Links.act_all Drivers.act_all emitted_all sampled_all sampled Drivers.accepted_all
    Drivers.accepted hand_over
transmit-IsRun e (ok bits) l at sent =
    let parts = hand_over-parts bits (record e { link = l }) in
    let (ran, out) = looping_lem e.link l at sent in
    record {
      link_actions = Links.tx_runs ∷ [];
      driver_actions = Drivers.sends_and_waits (wire bits) ∷ [];
      link = parts.1 ∙ sym ran;
      driver = parts.0;
      callbacks = ap (λ m. m.callbacks) parts.2;
      sent = ap (λ bits. bits ++ []) (ap bits_or_none (Drivers.normalize_bits-wire bits) ∙ sym out);
      heard = ap (λ m. m.queue) parts.2 ∙ sym (append-nil _);
    }
transmit-IsRun e (raise x) l at sent =
    let (ran, out) = looping_lem e.link l at sent in
    record {
      link_actions = Links.tx_runs ∷ [];
      driver_actions = [];
      link = sym ran;
      driver = refl;
      callbacks = refl;
      sent = ap (λ bits. bits ++ []) (sym out);
      heard = sym (append-nil _);
    }

transmit_at-IsRun :
    (task : TxTask) (e : Endpoint) → e.link.tx_task ≡ task → IsRun e (transmit_at task e)
unfolding transmit_at transmit
transmit_at-IsRun looping e at = transmit-IsRun e (tx_loop e.link).0 (tx_loop e.link).1 at refl
transmit_at-IsRun _ e at = same-IsRun e

if-IsRun : (b : Bool) (e e' : Endpoint) → IsRun e e' → IsRun e (if b then e' else e)
if-IsRun true e e' r = r
if-IsRun false e e' r = same-IsRun e

goes_on-IsRun : (e : Endpoint) → IsRun e (goes_on e)
unfolding goes_on act emitted sampled
goes_on-IsRun e =
    if-IsRun (is_driven e.tx_wait e.driver) e (link_does Links.tx_driven e)
      (link_does-IsRun e Links.tx_driven (λ l. refl, refl))

timed_out-keeps :
    (m : Monitor Link)
    → ((timed_out m).1.queue ≡ m.queue) × ((timed_out m).1.callbacks ≡ m.callbacks)
unfolding timed_out
timed_out-keeps m = ground arith

module _ {V : Type 0} (int_of : V → Option ℤ) where
  -- The monitor alone changes, and its queue and callbacks stay.
  quiet-IsRun :
      (m : Monitor Link) (e : Endpoint)
      → m.queue ≡ e.monitor.queue
      → m.callbacks ≡ e.monitor.callbacks
      → IsRun e (set_rate (record e { monitor = m }))
  unfolding set_rate Links.act_all Drivers.act_all Drivers.act emitted_all sampled_all
      Drivers.accepted_all Drivers.accepted
  quiet-IsRun m e queue callbacks = record {
    link_actions = [];
    driver_actions = Drivers.sets_rate (pos e.link.bit_rate_bps) ∷ [];
    link = refl;
    driver = refl;
    callbacks = callbacks;
    sent = refl;
    heard = queue ∙ sym (append-nil _);
  }

  -- A bit has been read.
  received-IsRun :
      (v : ℤ) (m : Monitor Link) (e : Endpoint)
      → m.queue ≡ e.monitor.queue
      → m.callbacks ≡ e.monitor.callbacks
      → e.monitor.callbacks ≡ feed_bit ∷ []
      → let (m', l) = received (some v) (m, e.link) in
        IsRun e (set_rate (record e { monitor = m'; link = l }))
  unfolding set_rate invoke_callbacks Links.act_all act Drivers.act_all Drivers.act emitted_all
      emitted sampled_all sampled Drivers.accepted_all Drivers.accepted
  received-IsRun v m e queue callbacks one = record {
    link_actions = Links.samples v ∷ [];
    driver_actions =
        Drivers.sets_rate (pos (invoke_callbacks m.callbacks v e.link).bit_rate_bps) ∷ [];
    link = ap (λ calls. invoke_callbacks calls v e.link) (callbacks ∙ one);
    driver = refl;
    callbacks = callbacks;
    sent = refl;
    heard = ap (λ q. q ++ v ∷ []) queue;
  }

  edge-IsRun :
      (r : Option ℤ) (m : Monitor Link) (e : Endpoint)
      → m.queue ≡ e.monitor.queue
      → m.callbacks ≡ e.monitor.callbacks
      → e.monitor.callbacks ≡ feed_bit ∷ []
      → let (m', l) = received r (m, e.link) in
        IsRun e (set_rate (record e { monitor = m'; link = l }))
  edge-IsRun none m e queue callbacks one = quiet-IsRun m e queue callbacks
  edge-IsRun (some v) m e queue callbacks one = received-IsRun v m e queue callbacks one

  -- An edge or a timeout, for a monitor whose one callback is `feed_bit`.
  see-IsRun :
      (task : Monitors.RunTask) (x : Signal V) (e : Endpoint)
      → e.monitor.callbacks ≡ feed_bit ∷ []
      → let (m', l) = signal_to int_of task x (e.monitor, e.link) in
        IsRun e (set_rate (record e { monitor = m'; link = l }))
  unfolding signal_to edge timed_out
  see-IsRun Monitors.running (changed v) e one =
      edge-IsRun (int_of v) (record e.monitor { disconnected = false }) e refl refl one
  see-IsRun Monitors.running quiet e one =
      let (queue, callbacks) = timed_out-keeps e.monitor in
      quiet-IsRun (timed_out e.monitor).1 e queue callbacks
  see-IsRun _ x e one = quiet-IsRun e.monitor e refl refl

  step-IsRun :
      (a : Action V) (e : Endpoint)
      → e.monitor.callbacks ≡ feed_bit ∷ []
      → IsRun e (step int_of a e)
  unfolding step see signal emitted sampled Drivers.accepted
  step-IsRun driver_runs e one = driver_does-IsRun e Drivers.runs refl
  step-IsRun driver_wakes e one = driver_does-IsRun e Drivers.wakes refl
  step-IsRun bit_ends e one = driver_does-IsRun e Drivers.bit_ends refl
  step-IsRun (sees x) e one = see-IsRun e.monitor.task x e one
  step-IsRun polls e one =
      if-IsRun e.link.is_started e (link_does (Links.polls e.monitor.disconnected) e)
        (link_does-IsRun e (Links.polls e.monitor.disconnected) (λ l. refl, refl))
  step-IsRun tx_runs e one = transmit_at-IsRun e.link.tx_task e refl
  step-IsRun tx_goes_on e one = goes_on-IsRun e
  step-IsRun tx_wakes_up e one = link_does-IsRun e Links.tx_wakes_up (λ l. refl, refl)
  step-IsRun timer_ends e one = link_does-IsRun e Links.timer_ends (λ l. refl, refl)
  step-IsRun disconnects e one = link_does-IsRun e Links.disconnects (λ l. refl, refl)
  step-IsRun stops e one = stop-IsRun e
  step-IsRun receives e one = link_does-IsRun e Links.receives (λ l. refl, refl)
  step-IsRun (sends_char c) e one = link_does-IsRun e (Links.sends_char c) (λ l. refl, refl)
  step-IsRun (sends_packet items terminator) e one =
      link_does-IsRun e (Links.sends_packet items terminator) (λ l. refl, refl)

  -- Every sequence of actions is a run of each part.
  pub steps-IsRun :
      (actions : List (Action V)) (e : Endpoint)
      → e.monitor.callbacks ≡ feed_bit ∷ []
      → IsRun e (steps int_of actions e)
  unfolding steps
  steps-IsRun [] e one = same-IsRun e
  steps-IsRun (a ∷ more) e one =
      let first = step-IsRun a e one in
      IsRun-trans first (steps-IsRun more (step int_of a e) (first.callbacks ∙ one))
