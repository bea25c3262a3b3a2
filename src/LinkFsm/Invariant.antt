-- ===== src/LinkFsm/Invariant.antt =====
-- link_fsm.py: what holds of the machine between two events.
use cocotbext_spacewire.Base.{ℕ, ◌≡◌, ◌⊎◌, true, some, arith}
use cocotbext_spacewire.LinkFsm.{
  started, connecting, run, Event, LinkFsm, init, update_flags, enter, handler, feed,
}
use cocotbext_spacewire.LinkFsm.Feed.{after, feed-eq-after}

-- Connecting and Run need a NULL in both directions, Run an FCT in both, and a flag of one visit is
-- set only in the states that the visit leads through.
pub record Inv (f : LinkFsm) : Type 0 where
  pub qualified : (f.state ≡ connecting) ⊎ (f.state ≡ run) → f.got_null_latched ≡ true
  pub null_sent : (f.state ≡ connecting) ⊎ (f.state ≡ run) → f.sent_null_in_started ≡ true
  pub fcts : f.state ≡ run → (f.sent_fct_in_connecting ≡ true) × (f.got_fct_in_connecting ≡ true)
  pub sent_null_visit :
      f.sent_null_in_started ≡ true → (f.state ≡ started) ⊎ (f.state ≡ connecting) ⊎ (f.state ≡ run)
  pub sent_fct_visit : f.sent_fct_in_connecting ≡ true → (f.state ≡ connecting) ⊎ (f.state ≡ run)
  pub got_fct_visit : f.got_fct_in_connecting ≡ true → (f.state ≡ connecting) ⊎ (f.state ≡ run)

pub init-Inv : (target : ℕ) → Inv (init target)
unfolding init
init-Inv target = ground arith

after-Inv :
    (e : Event) (f : LinkFsm)
    → Inv f
    → let g = update_flags e f in Inv (after (handler g.state g (some e)) g)
unfolding update_flags handler enter
after-Inv e f v = ground arith

-- Every event preserves the invariant.
pub feed-Inv : (e : Event) (f : LinkFsm) → Inv f → Inv (feed e f)
feed-Inv e f v = rw (feed-eq-after e f) (after-Inv e f v)

-- The machine never changes the rate that it was built with.
after-target :
    (e : Event) (f : LinkFsm)
    → let g = update_flags e f in
      (after (handler g.state g (some e)) g).target_bit_rate_bps ≡ f.target_bit_rate_bps
unfolding update_flags handler enter
after-target e f = ground arith

pub feed-target : (e : Event) (f : LinkFsm) → (feed e f).target_bit_rate_bps ≡ f.target_bit_rate_bps
feed-target e f = rw (feed-eq-after e f) (after-target e f)
