-- ===== src/Link/Restart.antt =====
-- link.py: `stop` and then `start`, which leave the machine in the state where it was.
use cocotbext_spacewire.Base.{
  ◌≡◌, ◌⊎◌, ap, refl, sym, ◌∙◌, Bool, true, false, none, some, arith, inl, inr, if◌then◌else◌, ok,
}
use cocotbext_spacewire.LinkFsm.{
  error_wait, Event, auto_start, link_start, tick_6_4us, LinkFsm, feed, update_flags, enter,
  handler,
}
use cocotbext_spacewire.LinkFsm.Feed.{after, feed-eq-after}
use cocotbext_spacewire.Link.State.{Link, Timer, tick_6_4_ns}
use cocotbext_spacewire.Link.Fsm.{start_timer, cancel_timer, feed_fsm, run_timer, timer_expires}
use cocotbext_spacewire.Link.Api.{armed, start, stop}
use cocotbext_spacewire.Link.Timing.{feed_fsm-cases}

-- The events of a start, and the tick that a start arms.
abbrev IsStartEvent : Event → Type 0
IsStartEvent e = (e ≡ auto_start) ⊎ (e ≡ link_start) ⊎ (e ≡ tick_6_4us)

after-waits :
    (e : Event) (f : LinkFsm)
    → IsStartEvent e
    → f.state ≡ error_wait
    → let g = update_flags e f in (after (handler g.state g (some e)) g).state ≡ error_wait
unfolding update_flags handler enter
after-waits e f k h = ground arith

-- In ErrorWait these events leave the state, the timer and its generation.
abbrev WaitsLike : Link → Link → Type 0
WaitsLike l m =
    (m.fsm.state ≡ error_wait) × (m.timer_task ≡ l.timer_task) × (m.timer_gen ≡ l.timer_gen)

feed_fsm-waits :
    (e : Event) (l : Link) → IsStartEvent e → l.fsm.state ≡ error_wait → WaitsLike l (feed_fsm e l)
feed_fsm-waits e l k h =
    let stays : (feed e l.fsm).state ≡ error_wait =
      rw (feed-eq-after e l.fsm) (after-waits e l.fsm k h) in
    feed_fsm-cases (WaitsLike l) e l (λ same. (stays, refl, refl))
      (λ changed. absurd (changed (stays ∙ sym h)))

if_fed-waits :
    (b : Bool) (e : Event) (l : Link)
    → IsStartEvent e
    → l.fsm.state ≡ error_wait
    → WaitsLike l (if b then feed_fsm e l else l)
if_fed-waits true e l k h = feed_fsm-waits e l k h
if_fed-waits false e l k h = (h, refl, refl)

restarted-waits :
    (l : Link) → l.fsm.state ≡ error_wait → WaitsLike (armed (stop l)) (start (stop l)).1
unfolding start stop cancel_timer start_timer
restarted-waits l h =
    let l₂ = armed (stop l) in
    let l₃ : Link = if l.pending_auto_start then feed_fsm auto_start l₂ else l₂ in
    let a = if_fed-waits l.pending_auto_start auto_start l₂ (inl refl) h in
    let b = if_fed-waits l₃.pending_link_start link_start l₃ (inr (inl refl)) a.0 in
    (b.0, b.1 ∙ a.1, b.2 ∙ a.2)

abbrev IsWaiting : Link → Type 0
IsWaiting m = (m.fsm.state ≡ error_wait) × (m.timer_task ≡ none)

ticked-waits :
    (x : Timer) (m : Link) → x.event ≡ tick_6_4us → IsWaiting m → IsWaiting (run_timer x m)
unfolding run_timer
ticked-waits x m e (h, n) =
    let w = feed_fsm-waits tick_6_4us m (inr (inr refl)) h in rw e (ground (arith, w))

expired-waits :
    (x : Timer) (m : Link)
    → m.fsm.state ≡ error_wait
    → m.timer_task ≡ some x
    → x.event ≡ tick_6_4us
    → IsWaiting (timer_expires m)
unfolding timer_expires
expired-waits x m h t e =
    rw (t, timer_expires) (ticked-waits x (record m { timer_task = none }) e (h, refl))

start-returns : (l : Link) → (start (stop l)).0 ≡ ok tt
unfolding start stop cancel_timer
start-returns l = refl

-- A link that is stopped in ErrorWait and started again, without an exception, is still in ErrorWait and
-- has the tick of ErrorReset pending, of 6.4 µs, and not its own: when it expires, the link is still in
-- ErrorWait and no timer is pending.
pub restart_strands :
    (l : Link)
    → l.fsm.state ≡ error_wait
    → let l' = (start (stop l)).1 in
      ((start (stop l)).0 ≡ ok tt)
      × (l'.fsm.state ≡ error_wait)
      × (l'.timer_task
          ≡ some (record { duration_ns = tick_6_4_ns; event = tick_6_4us; gen = l'.timer_gen }))
      × ((timer_expires l').fsm.state ≡ error_wait)
      × ((timer_expires l').timer_task ≡ none)
unfolding start_timer
restart_strands l h =
    let w = restarted-waits l h in
    let idle = expired-waits _ (start (stop l)).1 w.0 w.1 refl in
    let pending =
      w.1
      ∙ ap (λ n. some (record { duration_ns = tick_6_4_ns; event = tick_6_4us; gen = n }))
          (sym w.2) in
    (start-returns l, w.0, pending, idle.0, idle.1)
