-- ===== src/Link/Timing.antt =====
-- link.py: the timers.
use cocotbext_spacewire.Base.Int.{ℤ}
use cocotbext_spacewire.Base.{
  ℕ, ◌+◌, ◌⊎◌, ap, ◌≡◌, ◌≢◌, refl, sym, subst, ◌∙◌, Bool, true, false, Option, none, some, List, [],
  ◌∷◌, arith, Bool-cases, Option-cases, Text, inl, inr, Outcome-cases, ok, if◌then◌else◌,
}
use cocotbext_spacewire.LinkFsm.{
  State, error_reset, error_wait, ready, started, connecting, run, TxMode, Event, tick_6_4us,
  tick_12_8us, output, feed, state_eq,
}
use cocotbext_spacewire.LinkFsm.{LinkFsm, update_flags, handler, enter}
use cocotbext_spacewire.LinkFsm.Feed.{feed-eq-after}
use cocotbext_spacewire.LinkFsm.Handshake.{next}
use cocotbext_spacewire.LinkFsm.Invariant.{feed-target}
use cocotbext_spacewire.LinkFsm.{auto_start, link_start, sent_null, sent_fct, link_disable}
use cocotbext_spacewire.Link.Transmit.{
  next_char, next_nchar, on_credit, pick, on_encoder, tx_begin, tx_loop, tx_wakes, feed_sent,
  mark_driven, tx_end,
}
use cocotbext_spacewire.Link.Keeps.{IgnoresReceiver, feed_bit-keeps, watchdog-keeps}
use cocotbext_spacewire.Link.Api.{
  armed, start, disconnect, stop, enqueue_nchar, enqueue_nchars, send_char, send_packet,
  take_packet,
}
use cocotbext_spacewire.Link.Actions.{
  Action, timer_ends, tx_runs, tx_wakes_up, tx_driven, disconnects, stops, receives, samples, polls,
  sends_char, sends_packet, loop_step, driven_step, act, act_all,
}
use cocotbext_spacewire.Characters.Types.{Character, CharType, null, fct}
use cocotbext_spacewire.Link.State.{
  Timer, TxTask, looping, sending, Link, tick_6_4_ns, tick_12_8_ns, init,
}
use cocotbext_spacewire.Packet.{Item, packet}
use cocotbext_spacewire.Packet.Stream.{nchars_of, recv_packet, Received, waits, returns}
use cocotbext_spacewire.Link.Fsm.{
  start_timer, cancel_timer, on_state_change, feed_fsm, run_timer, timer_expires,
}

-- A timer for an event, of the present generation. It may be missing, unless it is `due`.
abbrev Tick : Bool → Event → ℕ → ℕ → Option Timer → Type 0
Tick due event duration_ns gen (some t) =
    (t.gen ≡ gen) × (t.event ≡ event) × (t.duration_ns ≡ duration_ns)
Tick true event duration_ns gen none = ⊥
Tick false event duration_ns gen none = Unit

-- The timer of a state: the tick of ErrorReset, which may have expired; that of ErrorWait, Started and
-- Connecting, which is pending as long as the link has not been stopped; and none in Ready and Run.
abbrev pub TimerOf : Bool → State → ℕ → Option Timer → Type 0
TimerOf is_started error_reset gen task = Tick false tick_6_4us tick_6_4_ns gen task
TimerOf is_started error_wait gen task = Tick is_started tick_12_8us tick_12_8_ns gen task
TimerOf is_started started gen task = Tick is_started tick_12_8us tick_12_8_ns gen task
TimerOf is_started connecting gen task = Tick is_started tick_12_8us tick_12_8_ns gen task
TimerOf is_started ready gen task = task ≡ none
TimerOf is_started run gen task = task ≡ none

-- The pending timer and the line's bit rate are those of the present state.
pub record IsTimed (l : Link) : Type 0 where
  pub timer : TimerOf l.is_started l.fsm.state l.timer_gen l.timer_task
  pub rate : l.bit_rate_bps ≡ (output l.fsm).bit_rate_bps

abbrev pub IsTimedLike : Link → Link → Type 0
IsTimedLike l m =
    (m.fsm ≡ l.fsm)
    × (m.timer_gen ≡ l.timer_gen)
    × (m.timer_task ≡ l.timer_task)
    × (m.bit_rate_bps ≡ l.bit_rate_bps)
    × (m.is_started ≡ l.is_started)

IsTimed-ext : (l m : Link) → IsTimedLike l m → IsTimed l → IsTimed m
IsTimed-ext l m e t = ground arith

state_eq→eq : (a b : State) → state_eq a b ≡ true → a ≡ b
state_eq→eq a b h = ground arith

state_eq-ne : (a b : State) → a ≡ b → state_eq a b ≡ false → ⊥
state_eq-ne a b h k = ground arith

-- The link with the machine's new state, before the change is acted on.
abbrev pub stepped : Event → Link → Link
stepped e l = record l { fsm = feed e l.fsm }

-- The two branches of `_feed_fsm`.
pub feed_fsm-cases {ℓ} :
    (P : Link → Type ℓ) (e : Event) (l : Link)
    → ((feed e l.fsm).state ≡ l.fsm.state → P (stepped e l))
    → ((feed e l.fsm).state ≢ l.fsm.state
        → P (on_state_change (output (feed e l.fsm)) (stepped e l)))
    → P (feed_fsm e l)
unfolding feed_fsm
feed_fsm-cases P e l same changed = elim (Bool-cases (state_eq (feed e l.fsm).state l.fsm.state)) [
  | inl h ↦ rw h (same (state_eq→eq _ _ h))
  | inr h ↦ rw h (changed (λ q. state_eq-ne _ _ q h))
]

on_state_change-IsTimed : (l : Link) → IsTimed (on_state_change (output l.fsm) l)
unfolding on_state_change start_timer output
on_state_change-IsTimed l = ground arith

-- Whatever event is fed, the pending timer is then that of the machine's state.
feed_fsm-IsTimed : (e : Event) (l : Link) → IsTimed l → IsTimed (feed_fsm e l)
unfolding output
feed_fsm-IsTimed e l t =
    feed_fsm-cases IsTimed e l
      (λ same.
        let target = feed-target e l.fsm in
        record {
          timer = subst (λ s. TimerOf l.is_started s l.timer_gen l.timer_task) (sym same) t.timer;
          rate = t.rate ∙ ground arith;
        })
      (λ changed. on_state_change-IsTimed (stepped e l))

-- The tick of 12.8 µs ends each of the states that it belongs to.
ticked-next :
    (f : LinkFsm)
    → (f.state ≡ error_wait) ⊎ (f.state ≡ started) ⊎ (f.state ≡ connecting)
    → (next tick_12_8us f).state ≢ f.state
unfolding update_flags handler enter
ticked-next f at h = ground arith

ticked_lem :
    (f : LinkFsm)
    → (f.state ≡ error_wait) ⊎ (f.state ≡ started) ⊎ (f.state ≡ connecting)
    → (feed tick_12_8us f).state ≢ f.state
ticked_lem f at h = ticked-next f at (sym (ap (λ g. g.state) (feed-eq-after tick_12_8us f)) ∙ h)

-- The event of the timer that has just expired: the state changes, or there need not be a timer.
expired_lem :
    (is_started : Bool) (s : State) (f : LinkFsm) (gen : ℕ) (x : Timer)
    → f.state ≡ s
    → TimerOf is_started s gen (some x)
    → (x.gen ≡ gen) × (((feed x.event f).state ≢ s) ⊎ TimerOf is_started s gen none)
expired_lem is_started error_reset f gen x h (g, e, d) = (g, inr tt)
expired_lem is_started error_wait f gen x h (g, e, d) =
    (g, inl (rw (e, sym h) (ticked_lem f (inl h))))
expired_lem is_started started f gen x h (g, e, d) =
    (g, inl (rw (e, sym h) (ticked_lem f (inr (inl h)))))
expired_lem is_started connecting f gen x h (g, e, d) =
    (g, inl (rw (e, sym h) (ticked_lem f (inr (inr h)))))
expired_lem is_started ready f gen x h t = absurd cc
expired_lem is_started run f gen x h t = absurd cc

run_timer-IsTimed :
    (x : Timer) (l : Link)
    → l.bit_rate_bps ≡ (output l.fsm).bit_rate_bps
    → (x.gen ≡ l.timer_gen)
      × (((feed x.event l.fsm).state ≢ l.fsm.state)
          ⊎ TimerOf l.is_started l.fsm.state l.timer_gen l.timer_task)
    → IsTimed (run_timer x l)
unfolding run_timer
run_timer-IsTimed x l rate (g, inr t) =
    ground (arith, feed_fsm-IsTimed x.event l (record { timer = t; rate = rate }))
run_timer-IsTimed x l rate (g, inl moves) = ground (
  arith,
  feed_fsm-cases IsTimed x.event l (λ same. absurd (moves same))
      (λ changed. on_state_change-IsTimed (stepped x.event l)),
)

timer_expires-IsTimed : (l : Link) → IsTimed l → IsTimed (timer_expires l)
unfolding timer_expires
timer_expires-IsTimed l t = elim (Option-cases l.timer_task) [
  | inl e ↦ rw (e, timer_expires) t
  | inr (x, e) ↦
      let timer = subst (TimerOf l.is_started l.fsm.state l.timer_gen) e t.timer in
      rw (e, timer_expires)
        (run_timer-IsTimed x (record l { timer_task = none }) t.rate
          (expired_lem l.is_started l.fsm.state l.fsm l.timer_gen x refl timer))
]

next_char-keeps : (mode : TxMode) (l : Link) → IsTimedLike l (next_char mode l).1
unfolding next_char next_nchar on_credit
next_char-keeps mode l = ground arith

pub tx_loop-keeps : (mode : TxMode) (l : Link) → IsTimedLike l (tx_begin mode l).1
unfolding tx_begin pick on_encoder
tx_loop-keeps mode l = ground (arith, next_char-keeps mode l)

feed_sent-IsTimed : (c : CharType) (l : Link) → IsTimed l → IsTimed (feed_sent c l)
feed_sent-IsTimed null l t = feed_fsm-IsTimed sent_null l t
feed_sent-IsTimed fct l t = feed_fsm-IsTimed sent_fct l t
feed_sent-IsTimed _ l t = t

IsTimed-IgnoresReceiver : IgnoresReceiver IsTimed
IsTimed-IgnoresReceiver credit queue wakeup decoder l t = record { timer = t.timer; rate = t.rate }

loop_step-IsTimed : (task : TxTask) (l : Link) → IsTimed l → IsTimed (loop_step task l)
unfolding loop_step tx_loop
loop_step-IsTimed looping l t = IsTimed-ext l _ (tx_loop-keeps (output l.fsm).tx_mode l) t
loop_step-IsTimed _ l t = t

tx_end-IsTimed :
    (c : Character) (queued : Bool) (l : Link) → IsTimed l → IsTimed (tx_end c queued l)
unfolding tx_end mark_driven
tx_end-IsTimed c true l t =
    let f = feed_sent-IsTimed c.type l t in record { timer = f.timer; rate = f.rate }
tx_end-IsTimed c false l t =
    let f = feed_sent-IsTimed c.type l t in record { timer = f.timer; rate = f.rate }

driven_step-IsTimed : (task : TxTask) (l : Link) → IsTimed l → IsTimed (driven_step task l)
unfolding driven_step
driven_step-IsTimed (sending c queued) l t = tx_end-IsTimed c queued l t
driven_step-IsTimed _ l t = t

enqueue_nchars-IsTimed :
    (cs : List Character) (l : Link) → IsTimed l → IsTimed (enqueue_nchars cs l)
unfolding enqueue_nchars enqueue_nchar
enqueue_nchars-IsTimed [] l t = t
enqueue_nchars-IsTimed (c ∷ cs) l t =
    enqueue_nchars-IsTimed cs (enqueue_nchar c l) (record { timer = t.timer; rate = t.rate })

send_packet-IsTimed :
    (items : List Item) (terminator : Text) (l : Link)
    → IsTimed l
    → IsTimed (send_packet items terminator l).1
unfolding send_packet
send_packet-IsTimed items terminator l t = elim (Outcome-cases (packet items terminator)) [
  | inl (p, e) ↦ rw (e, send_packet) (enqueue_nchars-IsTimed (nchars_of p) l t)
  | inr (x, e) ↦ rw (e, send_packet) t
]

take_packet-IsTimed : (r : Received) (l : Link) → IsTimed l → IsTimed (take_packet r l).1
unfolding take_packet
take_packet-IsTimed (waits items) l t = record { timer = t.timer; rate = t.rate }
take_packet-IsTimed (returns r queue) l t = record { timer = t.timer; rate = t.rate }

stopped-TimerOf : (s : State) (gen : ℕ) → TimerOf false s gen none
stopped-TimerOf ready gen = refl
stopped-TimerOf run gen = refl
stopped-TimerOf _ gen = tt

-- Whatever a link does next, its pending timer and its bit rate stay those of its state.
act-IsTimed : (a : Action) (l : Link) → IsTimed l → IsTimed (act a l)
unfolding act tx_wakes disconnect stop cancel_timer send_char enqueue_nchar
act-IsTimed timer_ends l t = timer_expires-IsTimed l t
act-IsTimed tx_runs l t = loop_step-IsTimed l.tx_task l t
act-IsTimed tx_wakes_up l t = ground arith
act-IsTimed tx_driven l t = driven_step-IsTimed l.tx_task l t
act-IsTimed disconnects l t = feed_fsm-IsTimed link_disable l t
act-IsTimed stops l t = record {
  timer = stopped-TimerOf l.fsm.state (l.timer_gen + 1);
  rate = t.rate;
}
act-IsTimed receives l t = take_packet-IsTimed (recv_packet l.rx_nchar_queue) l t
act-IsTimed (samples v) l t = feed_bit-keeps IsTimed feed_fsm-IsTimed IsTimed-IgnoresReceiver v l t
act-IsTimed (polls disconnected) l t =
    watchdog-keeps IsTimed feed_fsm-IsTimed IsTimed-IgnoresReceiver disconnected l t
act-IsTimed (sends_char c) l t = ground arith
act-IsTimed (sends_packet items terminator) l t = send_packet-IsTimed items terminator l t

pub act_all-IsTimed : (actions : List Action) (l : Link) → IsTimed l → IsTimed (act_all actions l)
unfolding act_all
act_all-IsTimed [] l t = t
act_all-IsTimed (a ∷ more) l t = act_all-IsTimed more (act a l) (act-IsTimed a l t)

if_fed-IsTimed :
    (b : Bool) (e : Event) (l : Link) → IsTimed l → IsTimed (if b then feed_fsm e l else l)
if_fed-IsTimed true e l t = feed_fsm-IsTimed e l t
if_fed-IsTimed false e l t = t

armed-IsTimed : (l : Link) → l.fsm.state ≡ error_reset → IsTimed l → IsTimed (armed l)
unfolding start_timer
armed-IsTimed l s t = record {
  timer =
      subst (λ s. TimerOf true s (l.timer_gen + 1) (armed l).timer_task) (sym s) (refl, refl, refl);
  rate = t.rate;
}

start-IsTimed :
    (l : Link) → l.fsm.state ≡ error_reset → l.is_started ≡ false → IsTimed l → IsTimed (start l).1
unfolding start start_timer
start-IsTimed l s h t =
    let l₂ = armed l in
    let l₃ : Link = if l.pending_auto_start then feed_fsm auto_start l₂ else l₂ in
    rw h (
      if_fed-IsTimed l₃.pending_link_start link_start l₃
        (if_fed-IsTimed l.pending_auto_start auto_start l₂ (armed-IsTimed l s t)))

module _ (bit_rate : ℕ) (wants_start wants_auto only_nulls : Bool) (rx_fifo_capacity : ℤ)
    (max_rx_credit : Option ℤ) where
  init-IsTimed :
      {l : Link}
      → init bit_rate wants_start wants_auto only_nulls rx_fifo_capacity max_rx_credit ≡ ok l
      → IsTimed l × (l.fsm.state ≡ error_reset) × (l.is_started ≡ false)
  unfolding init output
  init-IsTimed h = ground arith

  -- After any sequence of actions, of which another start is none, on a link that was built and
  -- started: in ErrorWait, Started and Connecting the tick of 12.8 µs is pending, unless the link has
  -- been stopped; in ErrorReset no timer but the tick of 6.4 µs is, and in Ready and Run none; a pending
  -- timer is of the present generation. The bit rate is the one that the machine's output names.
  pub timer_of_state :
      (actions : List Action) {l : Link}
      → init bit_rate wants_start wants_auto only_nulls rx_fifo_capacity max_rx_credit ≡ ok l
      → IsTimed (act_all actions (start l).1)
  timer_of_state actions {l} h =
      let (t, s, new) = init-IsTimed h in
      act_all-IsTimed actions (start l).1 (start-IsTimed l s new t)
