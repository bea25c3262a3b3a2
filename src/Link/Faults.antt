-- ===== src/Link/Faults.antt =====
-- link.py: what an error of the link does, and what outlasts one.
use cocotbext_spacewire.Base.{
  ℕ, ◌+◌, ◌<◌, ◌≡◌, ◌≢◌, ◌⊎◌, refl, sym, subst, ◌∙◌, Bool, true, false, none, some, List, [], ◌∷◌,
  All, arith, Option-cases, inl, inr,
}
use cocotbext_spacewire.LinkFsm.{
  State, error_reset, error_wait, ready, started, Event, rx_err, got_fct, tick_6_4us, LinkFsm,
  output, feed, update_flags, enter, handler,
}
use cocotbext_spacewire.LinkFsm.Feed.{after, feed-eq-after}
use cocotbext_spacewire.LinkFsm.Graph.{IsFailure, feed-error_reset_iff}
use cocotbext_spacewire.FlowControl.{CreditCounter, max_credit, on_fct_received}
use cocotbext_spacewire.FlowControl as Credit
use cocotbext_spacewire.Characters.Types.{Character, fct}
use cocotbext_spacewire.Characters.Decoder as Decoders
use cocotbext_spacewire.Link.State.{Timer, Link, tick_6_4_ns}
use cocotbext_spacewire.Link.Fsm.{start_timer, on_state_change, feed_fsm, run_timer, timer_expires}
use cocotbext_spacewire.Link.Receive.{is_hard, receive_fct, on_rx_character, dispatch}
use cocotbext_spacewire.Link.Timing.{feed_fsm-cases, stepped, IsTimed, TimerOf}

-- The link `m` is `l` reset: the counts of credit are 0, encoder and decoder forget what they have
-- seen, the packet queues stay, and a new timer of 6.4 µs is all that is pending.
pub record IsResetOf (l m : Link) : Type 0 where
  pub state : m.fsm.state ≡ error_reset
  pub tx_credit : m.credit.tx_credit ≡ 0
  pub rx_credit : m.credit.rx_credit ≡ 0
  pub encoder : m.encoder ≡ record { prev_content_bits = []; bad_parity_offsets = [] }
  pub decoder : m.decoder ≡ Decoders.reset l.decoder
  pub timer :
      m.timer_task
      ≡ some (record { duration_ns = tick_6_4_ns; event = tick_6_4us; gen = m.timer_gen })
  pub later : l.timer_gen < m.timer_gen
  pub tx_queue : m.tx_nchar_queue ≡ l.tx_nchar_queue
  pub rx_queue : m.rx_nchar_queue ≡ l.rx_nchar_queue
  pub counted : m.error_reset_count ≡ l.error_reset_count + 1
  pub signalled : (m.error_reset_entered ≡ true) × (m.tx_wakeup ≡ true)

entry-IsResetOf :
    (e : Event) (l : Link)
    → (feed e l.fsm).state ≡ error_reset
    → IsResetOf l (on_state_change (output (feed e l.fsm)) (stepped e l))
unfolding on_state_change start_timer output Credit.reset
entry-IsResetOf e l h = rw h (record {
  state = refl;
  tx_credit = refl;
  rx_credit = refl;
  encoder = refl;
  decoder = refl;
  timer = refl;
  later = omega arith;
  tx_queue = refl;
  rx_queue = refl;
  counted = refl;
  signalled = (refl, refl);
})

-- Outside ErrorReset, an event that is an error of the present state resets the link.
pub link_reset :
    (e : Event) (l : Link)
    → l.fsm.state ≢ error_reset
    → IsFailure l.fsm.state l.fsm.got_null_latched e
    → IsResetOf l (feed_fsm e l)
link_reset e l out h =
    let to_reset = (feed-error_reset_iff e l.fsm out).1 h in
    feed_fsm-cases (IsResetOf l) e l (λ same. absurd (out (sym same ∙ to_reset)))
      (λ changed. entry-IsResetOf e l to_reset)

pub rx_err-IsFailure : (s : State) (latched : Bool) → s ≢ error_reset → IsFailure s latched rx_err
rx_err-IsFailure s latched h = ground arith

before-out : (s : State) → (s ≡ error_wait) ⊎ (s ≡ ready) ⊎ (s ≡ started) → s ≢ error_reset
before-out s at = ground arith

early_fct-IsFailure :
    (f : LinkFsm)
    → (f.state ≡ error_wait) ⊎ (f.state ≡ ready) ⊎ (f.state ≡ started)
    → f.got_null_latched ≡ true
    → IsFailure f.state f.got_null_latched got_fct
early_fct-IsFailure f at latched = ground arith

on_rx_fct : (c : Character) (l : Link) → c.type ≡ fct → on_rx_character c l ≡ receive_fct l
unfolding on_rx_character
on_rx_fct c l t = rw t

pub counted_fct :
    (l : Link)
    → l.fsm.state ≡ error_reset
    → l.credit.tx_credit ≡ 0
    → ((receive_fct l).fsm.state ≡ error_reset) × ((receive_fct l).credit.tx_credit ≡ 8)
unfolding receive_fct on_fct_received
counted_fct l s z = ground arith

-- An FCT that comes before Connecting resets the link, since gotNULL is latched, and is then counted
-- all the same: the link is in ErrorReset, and its transmit credit is 8.
pub early_fct-credit :
    (c : Character) (l : Link)
    → (l.fsm.state ≡ error_wait) ⊎ (l.fsm.state ≡ ready) ⊎ (l.fsm.state ≡ started)
    → l.fsm.got_null_latched ≡ true
    → c.type ≡ fct
    → is_hard c.error ≡ false
    → ((dispatch c l).fsm.state ≡ error_reset) × ((dispatch c l).credit.tx_credit ≡ 8)
unfolding dispatch
early_fct-credit c l at latched t e =
    let r =
      link_reset got_fct l (before-out l.fsm.state at) (early_fct-IsFailure l.fsm at latched) in
    rw (e, t, on_rx_fct c (feed_fsm got_fct l) t)
      (counted_fct (feed_fsm got_fct l) r.state r.tx_credit)

after-stays :
    (e : Event) (f : LinkFsm)
    → f.state ≡ error_reset
    → e ≢ tick_6_4us
    → let g = update_flags e f in (after (handler g.state g (some e)) g).state ≡ error_reset
unfolding update_flags handler enter
after-stays e f h k = ground arith

feed-stays :
    (e : Event) (f : LinkFsm)
    → f.state ≡ error_reset
    → e ≢ tick_6_4us
    → (feed e f).state ≡ error_reset
feed-stays e f h k = rw (feed-eq-after e f) (after-stays e f h k)

-- The link has come to rest in ErrorReset without a timer.
abbrev pub IsStranded : Link → Type 0
IsStranded l = (l.fsm.state ≡ error_reset) × (l.timer_task ≡ none)

-- A link in ErrorReset without a timer stays so through every event but the expiry of that timer.
feed_fsm-IsStranded :
    (e : Event) (l : Link) → IsStranded l → e ≢ tick_6_4us → IsStranded (feed_fsm e l)
feed_fsm-IsStranded e l (s, n) k =
    let stays = feed-stays e l.fsm s k in
    feed_fsm-cases IsStranded e l (λ same. (stays, n)) (λ changed. absurd (changed (stays ∙ sym s)))

-- The link is fed several events.
unfoldable pub feed_each : List Event → Link → Link
feed_each [] l = l
feed_each (e ∷ es) l = feed_each es (feed_fsm e l)

feed_each-IsStranded :
    (es : List Event) (l : Link)
    → IsStranded l
    → All (λ e. e ≢ tick_6_4us) es
    → IsStranded (feed_each es l)
unfolding feed_each
feed_each-IsStranded [] l h k = h
feed_each-IsStranded (e ∷ es) l h k =
    feed_each-IsStranded es (feed_fsm e l) (feed_fsm-IsStranded e l h k.0) k.1

tick-disabled :
    (f : LinkFsm)
    → f.state ≡ error_reset
    → f.is_link_disable ≡ true
    → (feed tick_6_4us f).state ≡ error_reset
unfolding update_flags handler enter
tick-disabled f s d = rw (feed-eq-after tick_6_4us f) (ground arith)

expired_tick :
    (l : Link)
    → l.fsm.state ≡ error_reset
    → l.fsm.is_link_disable ≡ true
    → l.timer_task ≡ none
    → IsStranded (feed_fsm tick_6_4us l)
expired_tick l s d n =
    let stays = tick-disabled l.fsm s d in
    feed_fsm-cases IsStranded tick_6_4us l (λ same. (stays, n))
      (λ changed. absurd (changed (stays ∙ sym s)))

ran-IsStranded :
    (x : Timer) (l : Link)
    → l.fsm.state ≡ error_reset
    → l.fsm.is_link_disable ≡ true
    → l.timer_task ≡ none
    → x.event ≡ tick_6_4us
    → IsStranded (run_timer x l)
unfolding run_timer
ran-IsStranded x l s d n e = rw e (ground (arith, expired_tick l s d n))

timer_event :
    (is_started : Bool) (s : State) (gen : ℕ) (x : Timer)
    → s ≡ error_reset
    → TimerOf is_started s gen (some x)
    → x.event ≡ tick_6_4us
timer_event is_started s gen x h t = (subst (λ s. TimerOf is_started s gen (some x)) h t).1

expiry-IsStranded :
    (l : Link)
    → IsTimed l
    → l.fsm.state ≡ error_reset
    → l.fsm.is_link_disable ≡ true
    → IsStranded (timer_expires l)
unfolding timer_expires
expiry-IsStranded l t s d = elim (Option-cases l.timer_task) [
  | inl e ↦ rw (e, timer_expires) (s, e)
  | inr (x, e) ↦
      let event =
        timer_event l.is_started l.fsm.state l.timer_gen x s
          (subst (TimerOf l.is_started l.fsm.state l.timer_gen) e t.timer) in
      rw (e, timer_expires) (ran-IsStranded x (record l { timer_task = none }) s d refl event)
]

-- The expiry of the timer of ErrorReset while the link is disabled strands it: whatever events the
-- link is fed then, but one more expiry of that timer, it stays in ErrorReset without a timer, also if
-- LINK_DISABLE is cleared.
pub disabled_expiry_strands :
    (es : List Event) (l : Link)
    → IsTimed l
    → l.fsm.state ≡ error_reset
    → l.fsm.is_link_disable ≡ true
    → All (λ e. e ≢ tick_6_4us) es
    → IsStranded (feed_each es (timer_expires l))
disabled_expiry_strands es l t s d hs =
    feed_each-IsStranded es (timer_expires l) (expiry-IsStranded l t s d) hs
