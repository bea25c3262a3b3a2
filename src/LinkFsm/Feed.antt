-- ===== src/LinkFsm/Feed.antt =====
-- link_fsm.py: `feed` without its loop.
use cocotbext_spacewire.Base.{
  ℕ, zero, suc, ◌+◌, ◌≡◌, ◌≢◌, ◌∙◌, refl, inl, inr, true, false, Option, none, some, if◌then◌else◌,
  arith, Bool-cases, Option-cases,
}
use cocotbext_spacewire.LinkFsm.{
  State, ready, started, Event, LinkFsm, update_flags, enter, link_enabled, handler, state_eq,
  transitions, feed,
}

-- One transition, and the one chained behind it: Ready goes on to Started if the link is enabled.
abbrev pub settle : State → LinkFsm → LinkFsm
settle ready f = let g = enter ready f in if link_enabled g then enter started g else g
settle s f = enter s f

abbrev pub after : Option State → LinkFsm → LinkFsm
after none f = f
after (some s) f = settle s f

-- Nothing is left to do without an event.
abbrev pub IsSettled : LinkFsm → Type 0
IsSettled f = handler f.state f none ≡ none

-- No handler answers with the state that it handles.
handler-ne_self :
    (f : LinkFsm) (e : Option Event) (s : State)
    → handler f.state f e ≡ some s
    → state_eq s f.state ≡ false
unfolding handler
handler-ne_self f e s h = ground arith

transitions-settled : (n : ℕ) (f : LinkFsm) → IsSettled f → transitions n none f ≡ f
unfolding transitions
transitions-settled zero f h = refl
transitions-settled (suc n) f h = rw (h, transitions)

transitions-next :
    (n : ℕ) (e : Option Event) (f : LinkFsm) {s : State}
    → handler f.state f e ≡ some s
    → transitions (suc n) e f ≡ transitions n none (enter s f)
unfolding transitions
transitions-next n e f {s} h = rw (h, transitions) (rw (handler-ne_self f e s h))

enter-IsSettled : (s : State) (f : LinkFsm) → s ≢ ready → IsSettled (enter s f)
unfolding enter handler
enter-IsSettled s f h = ground arith

ready-enabled :
    (f : LinkFsm)
    → link_enabled (enter ready f) ≡ true
    → handler ready (enter ready f) none ≡ some started
unfolding handler
ready-enabled f h = ground arith

ready-IsSettled : (f : LinkFsm) → link_enabled (enter ready f) ≡ false → IsSettled (enter ready f)
unfolding handler enter
ready-IsSettled f h = ground arith

enter-state : (s : State) (f : LinkFsm) → (enter s f).state ≡ s
unfolding enter
enter-state s f = ground arith

-- After an entry, at most one more transition is chained.
transitions-ready :
    (n : ℕ) (f : LinkFsm) → transitions (suc (suc n)) none (enter ready f) ≡ settle ready f
unfolding enter
transitions-ready n f = elim (Bool-cases (link_enabled (enter ready f))) [
  | inl on ↦ rw on (
      transitions-next (suc n) none (enter ready f) (ready-enabled f on)
      ∙ transitions-settled (suc n) (enter started (enter ready f))
          (enter-IsSettled started (enter ready f) (λ e. cc)))
  | inr off ↦ rw off (transitions-settled (suc (suc n)) (enter ready f) (ready-IsSettled f off))
]

transitions-enter :
    (n : ℕ) (s : State) (f : LinkFsm) → transitions (suc (suc n)) none (enter s f) ≡ settle s f
transitions-enter n ready f = transitions-ready n f
transitions-enter n s f = transitions-settled (suc (suc n)) _ (enter-IsSettled s f (λ e. cc))

-- Three rounds are enough, and with any more of them `feed` ends in the same state.
transitions-eq-after :
    (n : ℕ) (e : Option Event) (f : LinkFsm)
    → transitions (suc (suc (suc n))) e f ≡ after (handler f.state f e) f
unfolding transitions
transitions-eq-after n e f = elim (Option-cases (handler f.state f e)) [
  | inl h ↦ rw (h, transitions)
  | inr (s, h) ↦ transitions-next (suc (suc n)) e f h ∙ rw h (transitions-enter n s f)
]

pub feed-eq-after :
    (e : Event) (f : LinkFsm)
    → let g = update_flags e f in feed e f ≡ after (handler g.state g (some e)) g
unfolding feed
feed-eq-after e f = transitions-eq-after 5 (some e) (update_flags e f)

after-IsSettled : (e : Event) (f : LinkFsm) → IsSettled (after (handler f.state f (some e)) f)
unfolding handler enter
after-IsSettled e f = ground arith

-- The loop ends because no handler asks for a transition, and not by its bound of eight rounds: the
-- machine is settled after every event, and any larger bound gives the same machine.
pub feed-IsSettled :
    (e : Event) (f : LinkFsm) (n : ℕ)
    → IsSettled (feed e f) × (transitions (8 + n) (some e) (update_flags e f) ≡ feed e f)
feed-IsSettled e f n =
    let g = update_flags e f in
    let rounds : 8 + n ≡ suc (suc (suc (5 + n))) = omega arith in
    (
      rw (feed-eq-after e f) (after-IsSettled e g),
      rw (rounds, feed-eq-after e f) (transitions-eq-after (5 + n) (some e) g),
    )
