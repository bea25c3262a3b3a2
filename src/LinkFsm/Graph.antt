-- ===== src/LinkFsm/Graph.antt =====
-- link_fsm.py: the state diagram of notes/04_link_fsm.md.
use cocotbext_spacewire.Base.{
  ◌≡◌, sym, subst, inl, inr, Option-cases, ◌≢◌, ◌⊎◌, ◌↔◌, refl, Bool, true, Option, some, arith,
}
use cocotbext_spacewire.LinkFsm.{
  State, error_reset, error_wait, ready, started, connecting, run, Event, got_fct, got_n_char,
  got_time_code, rx_err, credit_err, link_disable, tick_12_8us, LinkFsm, update_flags, enter,
  handler, feed,
}
use cocotbext_spacewire.LinkFsm.Feed.{settle, after, feed-eq-after}

-- The arrows of the diagram.
infix 40 ◌⟶◌
pub data ◌⟶◌ : State → State → Type 0 where
  dwell : error_reset ⟶ error_wait
  wait : error_wait ⟶ ready
  enable : ready ⟶ started
  nulls : started ⟶ connecting
  fcts : connecting ⟶ run
  fail : {s : State} → s ≢ error_reset → s ⟶ error_reset

-- What one event does to the state: nothing, one arrow, or from ErrorWait through Ready to Started.
pub data Moves : State → State → Type 0 where
  stay : {s : State} → Moves s s
  step : {s t : State} → s ⟶ t → Moves s t
  chain : {s t u : State} → s ≡ error_wait → s ⟶ t → t ⟶ u → u ≡ started → Moves s u

handler-target :
    (s t : State) (f : LinkFsm) (e : Option Event)
    → handler s f e ≡ some t
    → (s ≢ error_reset) × (t ≡ error_reset)
      ⊎ (s ≡ error_reset) × (t ≡ error_wait)
      ⊎ (s ≡ error_wait) × (t ≡ ready)
      ⊎ (s ≡ ready) × (t ≡ started)
      ⊎ (s ≡ started) × (t ≡ connecting)
      ⊎ (s ≡ connecting) × (t ≡ run)
unfolding handler
handler-target s t f e h = ground arith

handler-⟶ : (s t : State) (f : LinkFsm) (e : Option Event) → handler s f e ≡ some t → s ⟶ t
handler-⟶ s t f e h = elim (handler-target s t f e h) [
  | inl (a, b) ↦ rw b (fail a)
  | inr (inl (a, b)) ↦ rw (a, b) dwell
  | inr (inr (inl (a, b))) ↦ rw (a, b) wait
  | inr (inr (inr (inl (a, b)))) ↦ rw (a, b) enable
  | inr (inr (inr (inr (inl (a, b))))) ↦ rw (a, b) nulls
  | inr (inr (inr (inr (inr (a, b))))) ↦ rw (a, b) fcts
]

⟶-ready : {s t : State} → s ⟶ t → t ≡ ready → s ≡ error_wait
⟶-ready dwell e = cc
⟶-ready wait e = refl
⟶-ready enable e = cc
⟶-ready nulls e = cc
⟶-ready fcts e = cc
⟶-ready (fail h) e = cc

settle-state :
    (t : State) (f : LinkFsm)
    → ((settle t f).state ≡ t) ⊎ (t ≡ ready) × ((settle t f).state ≡ started)
unfolding enter
settle-state t f = ground arith

state-update_flags : (e : Event) (f : LinkFsm) → (update_flags e f).state ≡ f.state
unfolding update_flags
state-update_flags e f = ground arith

after-Moves :
    (s : State) (e : Option Event) (g : LinkFsm)
    → g.state ≡ s
    → Moves s (after (handler s g e) g).state
after-Moves s e g same = elim (Option-cases (handler s g e)) [
  | inl h ↦ rw h (rw same stay)
  | inr (t, h) ↦
      let arrow = handler-⟶ s t g e h in
      rw h elim (settle-state t g) [
        | inl k ↦ rw k (step arrow)
        | inr (at_ready, k) ↦ rw k (chain (⟶-ready arrow at_ready) arrow (rw at_ready enable) refl)
      ]
]

-- Every event moves the machine along the diagram: not at all, by one arrow, or by the two arrows
-- from ErrorWait to Started.
pub feed-Moves : (e : Event) (f : LinkFsm) → Moves f.state (feed e f).state
feed-Moves e f =
    let g = update_flags e f in
    rw (feed-eq-after e f) (
      subst (λ s. Moves f.state (after (handler s g (some e)) g).state)
        (sym (state-update_flags e f)) (after-Moves f.state (some e) g (state-update_flags e f)))

-- The events that are errors of a state; `latched` is gotNULL before the event. The notes' diagram has
-- no CREDIT_ERR in Connecting, which the code has there too.
abbrev pub IsFailure : State → Bool → Event → Type 0
IsFailure error_reset latched e = ⊥
IsFailure connecting latched e =
    (e ≡ rx_err) ⊎ (e ≡ credit_err) ⊎ (e ≡ got_n_char) ⊎ (e ≡ got_time_code) ⊎ (e ≡ tick_12_8us)
IsFailure run latched e = (e ≡ rx_err) ⊎ (e ≡ credit_err) ⊎ (e ≡ link_disable)
IsFailure s latched e =
    (e ≡ rx_err)
    ⊎ (latched ≡ true) × ((e ≡ got_fct) ⊎ (e ≡ got_n_char) ⊎ (e ≡ got_time_code))
    ⊎ (s ≡ started) × (e ≡ tick_12_8us)

IsFailure-after :
    (e : Event) (f : LinkFsm)
    → f.state ≢ error_reset
    → let g = update_flags e f in
      ((after (handler g.state g (some e)) g).state ≡ error_reset)
      ↔ IsFailure f.state f.got_null_latched e
unfolding update_flags handler enter
IsFailure-after e f h = ground arith

-- Outside ErrorReset, an event leads to ErrorReset exactly if it is RX_ERR; in ErrorWait, Ready and
-- Started, GOT_FCT, GOT_N_CHAR or GOT_TIME_CODE with gotNULL latched before; in Started, TICK_12_8US; in
-- Connecting, CREDIT_ERR, GOT_N_CHAR, GOT_TIME_CODE or TICK_12_8US; in Run, CREDIT_ERR or LINK_DISABLE.
pub feed-error_reset_iff :
    (e : Event) (f : LinkFsm)
    → f.state ≢ error_reset
    → ((feed e f).state ≡ error_reset) ↔ IsFailure f.state f.got_null_latched e
feed-error_reset_iff e f h = rw (feed-eq-after e f) (IsFailure-after e f h)
