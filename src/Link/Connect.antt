-- ===== src/Link/Connect.antt =====
-- link.py: two links on one cable, from their constructors to Run.
use cocotbext_spacewire.Base.Int.{ℤ, pos, negsuc, pos_part}
use cocotbext_spacewire.Base.{
  ℕ, ◌≤◌, ◌≡◌, refl, sym, ap, ap₂, ◌∙◌, subst, Bool, true, false, ◌||◌, Option, [], Outcome, ok,
  raise, ok-injective, arith,
}
use cocotbext_spacewire.LinkFsm.{State, ready, started, connecting, run, LinkFsm}
use cocotbext_spacewire.LinkFsm as Fsm
use cocotbext_spacewire.FlowControl.{CreditCounter, counter}
use cocotbext_spacewire.FlowControl as Credit
use cocotbext_spacewire.Characters.Delivery.{Synced}
use cocotbext_spacewire.Characters.Decoder as Decoders
use cocotbext_spacewire.Link.State.{Link, init, credit_limit}
use cocotbext_spacewire.Link.State as States
use cocotbext_spacewire.Link.Fsm.{timer_expires}
use cocotbext_spacewire.Link.Fsm as Events
use cocotbext_spacewire.Link.Api.{start}
use cocotbext_spacewire.Link.Handshake.{Stands}
use cocotbext_spacewire.Link.Turns.{machine, nulls, runs, null_sent, null_wakes, null_answer}
use cocotbext_spacewire.Link.Rounds.{round, round_of, MeetsAt, round_lem, fct_round}

-- A link behind `start` and the two ticks that lead through ErrorReset and ErrorWait.
unfoldable pub opened : Link → Link
opened l = timer_expires (timer_expires (start l).1)

-- In Run, where `connect` returns, with the credit of one FCT, and never reset.
abbrev pub IsConnected : Link → Type 0
IsConnected l =
    (l.fsm.state ≡ run)
    × (l.run_reached ≡ true)
    × (l.credit.tx_credit ≡ 8)
    × (l.error_reset_count ≡ 0)

Stands-IsConnected :
    (n : ℕ) (f : LinkFsm) (l : Link) → Stands (runs n f) l → f.state ≡ run → IsConnected l
Stands-IsConnected n f l s h = (ap (λ f. f.state) s.0 ∙ h, s.5, s.2, s.6.never_reset)

-- A link that the constructor has made.
abbrev new_link : ℕ → Bool → Bool → ℕ → CreditCounter → Link
new_link bit_rate wants_start wants_auto capacity credit = record {
  fsm = Fsm.init bit_rate;
  decoder = Decoders.fresh [];
  encoder = record { prev_content_bits = []; bad_parity_offsets = [] };
  credit = credit;
  rx_fifo_capacity_nchars = capacity;
  tx_nchar_queue = [];
  rx_nchar_queue = [];
  tx_nchar_outstanding = 0;
  tx_drained_evt = true;
  run_reached = false;
  error_reset_entered = false;
  tx_wakeup = false;
  timer_task = Option.none;
  timer_gen = 0;
  tx_task = States.off;
  error_reset_count = 0;
  only_nulls = false;
  fct_sent_this_connecting = false;
  is_started = false;
  pending_link_start = wants_start;
  pending_auto_start = wants_auto;
  pending_initial_fct_burst = 0;
  bit_rate_bps = 10000000;
}

init-counter :
    (limit : ℤ) {c : CreditCounter}
    → Credit.init limit ≡ ok c
    → (n : ℕ) × (c ≡ counter n) × (n ≤ 56)
unfolding Credit.init
init-counter (pos n) h = (n, ground arith, ground arith)
init-counter (negsuc n) h = absurd cc

made_of :
    (build : CreditCounter → Link) (r : Outcome CreditCounter) {l : Link}
    → (elim r [ raise e ↦ raise e | ok c ↦ ok (build c) ]) ≡ ok l
    → (c : CreditCounter) × (r ≡ ok c) × (l ≡ build c)
made_of build (ok c) h = (c, refl, sym (ok-injective h))
made_of build (raise e) h = absurd cc

init-new_link :
    (bit_rate : ℕ) (wants_start wants_auto : Bool) (rx_fifo_capacity : ℤ) (max_rx_credit : Option ℤ)
    {l : Link}
    → init bit_rate wants_start wants_auto false rx_fifo_capacity max_rx_credit ≡ ok l
    → (n : ℕ) × (l
        ≡ new_link bit_rate wants_start wants_auto (pos_part rx_fifo_capacity) (counter n))
      × (n ≤ 56)
unfolding init
init-new_link bit_rate wants_start wants_auto rx_fifo_capacity max_rx_credit h =
    let (c, made, is) =
      made_of (new_link bit_rate wants_start wants_auto (pos_part rx_fifo_capacity)) _ h in
    let (n, same, small) = init-counter (credit_limit rx_fifo_capacity max_rx_credit) made in
    (n, is ∙ ap (new_link bit_rate wants_start wants_auto (pos_part rx_fifo_capacity)) same, small)

-- A link that has been built and opened.
abbrev fresh_link : ℕ → Bool → Bool → ℕ → ℕ → Link
fresh_link bit_rate wants_start wants_auto capacity n =
    opened (new_link bit_rate wants_start wants_auto capacity (counter n))

-- Its encoder and its decoder have done nothing.
IsUnused : Link → Type 0
IsUnused l =
    (l.encoder ≡ record { prev_content_bits = []; bad_parity_offsets = [] })
    × (l.decoder ≡ Decoders.fresh [])

Unused-Synced : (l p : Link) → IsUnused l → IsUnused p → Synced l.encoder p.decoder
unfolding IsUnused
Unused-Synced l p u v =
    subst (λ e. Synced e p.decoder) (sym u.0)
      (subst (λ d. Synced (record { prev_content_bits = []; bad_parity_offsets = [] }) d) (sym v.1)
        (record {
          same_content = refl;
          no_injection = refl;
          idle = (refl, refl);
          no_escape = refl;
        }))

-- A link that is to start is in Started behind the two ticks.
started_lem :
    (bit_rate : ℕ) (wants_auto : Bool) (capacity n : ℕ)
    → let l = fresh_link bit_rate true wants_auto capacity n in
      Stands (nulls n (machine bit_rate true wants_auto started false false false false)) l
      × IsUnused l
unfolding opened start Events.timer_expires Events.run_timer Events.feed_fsm Events.on_state_change
    Events.start_timer Fsm.init Fsm.output Fsm.update_flags Fsm.enter Fsm.link_enabled
    Fsm.wait_state_error Fsm.in_error_reset Fsm.in_error_wait Fsm.in_ready Fsm.in_started
    Fsm.handler Fsm.transitions Fsm.feed IsUnused
started_lem bit_rate true capacity n = (
  (
    refl,
    refl,
    refl,
    refl,
    refl,
    refl,
    record {
      none_received = refl;
      empty = refl;
      none_outstanding = refl;
      is_drained = refl;
      sends_all = refl;
      never_reset = refl;
    },
  ),
  (refl, refl),
)
started_lem bit_rate false capacity n = (
  (
    refl,
    refl,
    refl,
    refl,
    refl,
    refl,
    record {
      none_received = refl;
      empty = refl;
      none_outstanding = refl;
      is_drained = refl;
      sends_all = refl;
      never_reset = refl;
    },
  ),
  (refl, refl),
)

-- A link in AutoStart is in Ready.
ready_lem :
    (bit_rate : ℕ) (capacity n : ℕ)
    → let l = fresh_link bit_rate false true capacity n in
      Stands (nulls n (machine bit_rate false true ready false false false false)) l × IsUnused l
unfolding opened start Events.timer_expires Events.run_timer Events.feed_fsm Events.on_state_change
    Events.start_timer Fsm.init Fsm.output Fsm.update_flags Fsm.enter Fsm.link_enabled
    Fsm.wait_state_error Fsm.in_error_reset Fsm.in_error_wait Fsm.in_ready Fsm.in_started
    Fsm.handler Fsm.transitions Fsm.feed IsUnused
ready_lem bit_rate capacity n = (
  (
    refl,
    refl,
    refl,
    refl,
    refl,
    refl,
    record {
      none_received = refl;
      empty = refl;
      none_outstanding = refl;
      is_drained = refl;
      sends_all = refl;
      never_reset = refl;
    },
  ),
  (refl, refl),
)

-- The round of the NULLs.
null_round :
    (t t' : ℕ) (a a' b' : Bool) (capacity capacity' n n' k : ℕ)
    → a' || b' ≡ true
    → MeetsAt
        (nulls n (machine t true a connecting true true false false))
        (nulls n' (machine t' a' b' connecting true true false false))
        (round k (fresh_link t true a capacity n, fresh_link t' a' b' capacity' n'))
null_round t t' a true b' capacity capacity' n n' k h =
    let (s, u) = started_lem t a capacity n in
    let (s', u') = started_lem t' b' capacity' n' in
    round_lem (null_sent t t' true a true b' n n' false false)
      (null_sent t t' true a true b' n n' true true) (null_answer t' t true b' true a n' n) k _
      (record { out = Unused-Synced _ _ u u'; back = Unused-Synced _ _ u' u; here = s; there = s' })
null_round t t' a false true capacity capacity' n n' k h =
    let (s, u) = started_lem t a capacity n in
    let (s', u') = ready_lem t' capacity' n' in
    round_lem (null_wakes t t' true a n n') (null_sent t t' true a false true n n' true true)
      (null_answer t' t false true true a n' n) k _
      (record { out = Unused-Synced _ _ u u'; back = Unused-Synced _ _ u' u; here = s; there = s' })
null_round t t' a false false capacity capacity' n n' k h = absurd cc

-- Two links behind the handshake.
module _ (bit_rate bit_rate' : ℕ) (wants_auto wants_start' wants_auto' : Bool)
    (rx_fifo_capacity rx_fifo_capacity' : ℤ) (max_rx_credit max_rx_credit' : Option ℤ) (k j : ℕ)
    (y : Bool) {l p : Link} (wanted : wants_start' || wants_auto' ≡ true)
    (made : init bit_rate true wants_auto false rx_fifo_capacity max_rx_credit ≡ ok l)
    (made' : init bit_rate' wants_start' wants_auto' false rx_fifo_capacity' max_rx_credit'
      ≡ ok p) where
  pub links_meet :
      MeetsAt
        (runs l.credit.max_rx_credit (machine bit_rate true wants_auto run true true true true))
        (runs p.credit.max_rx_credit
          (machine bit_rate' wants_start' wants_auto' run true true true true))
        (round_of y j (round k (opened l, opened p)))
  links_meet =
      let (n, is, _) = init-new_link bit_rate true wants_auto rx_fifo_capacity max_rx_credit made in
      let (n', is', _) =
        init-new_link bit_rate' wants_start' wants_auto' rx_fifo_capacity' max_rx_credit' made' in
      let opening =
        null_round bit_rate bit_rate' wants_auto wants_start' wants_auto'
          (pos_part rx_fifo_capacity) (pos_part rx_fifo_capacity') n n' k wanted in
      subst
        (λ q.
          MeetsAt
            (runs q.0.credit.max_rx_credit
              (machine bit_rate true wants_auto run true true true true))
            (runs q.1.credit.max_rx_credit
              (machine bit_rate' wants_start' wants_auto' run true true true true))
            (round_of y j (round k (opened q.0, opened q.1))))
        (sym (ap₂ {A = Link} {B = Link} {C = Link × Link} (λ l p. (l, p)) is is'))
        (fct_round bit_rate bit_rate' true wants_auto wants_start' wants_auto' n n' y j _ opening)

  links_connect_lem :
      let q = round_of y j (round k (opened l, opened p)) in IsConnected q.0 × IsConnected q.1
  links_connect_lem =
      let q = round_of y j (round k (opened l, opened p)) in
      (
        Stands-IsConnected _ _ q.0 links_meet.here refl,
        Stands-IsConnected _ _ q.1 links_meet.there refl,
      )

-- A link that has been built has a credit limit of 56 at most.
pub init-capped :
    (bit_rate : ℕ) (wants_start wants_auto : Bool) (rx_fifo_capacity : ℤ) (max_rx_credit : Option ℤ)
    {l : Link}
    → init bit_rate wants_start wants_auto false rx_fifo_capacity max_rx_credit ≡ ok l
    → l.credit.max_rx_credit ≤ 56
init-capped bit_rate wants_start wants_auto rx_fifo_capacity max_rx_credit h =
    let (n, is, small) =
      init-new_link bit_rate wants_start wants_auto rx_fifo_capacity max_rx_credit h in
    subst (λ n. n ≤ 56) (sym (ap (λ l. l.credit.max_rx_credit) is)) small

-- Two links that the constructor has built, the first with LinkStart and the second with LinkStart or
-- AutoStart, started and behind the two ticks: the first sends one character or more, the second
-- answers with one, then either of them sends one or more and the other answers. Then both are in Run,
-- where `connect` returns, with the credit of one FCT, and neither was reset. Neither sends only NULLs.
pub links_connect :
    (bit_rate bit_rate' : ℕ) (wants_auto wants_start' wants_auto' : Bool)
    (rx_fifo_capacity rx_fifo_capacity' : ℤ) (max_rx_credit max_rx_credit' : Option ℤ) (k j : ℕ)
    (y : Bool) {l p : Link}
    → wants_start' || wants_auto' ≡ true
    → init bit_rate true wants_auto false rx_fifo_capacity max_rx_credit ≡ ok l
    → init bit_rate' wants_start' wants_auto' false rx_fifo_capacity' max_rx_credit' ≡ ok p
    → let q = round_of y j (round k (opened l, opened p)) in IsConnected q.0 × IsConnected q.1
links_connect bit_rate bit_rate' wants_auto wants_start' wants_auto' capacity capacity'
      max_rx_credit max_rx_credit' k j y h made made' =
    links_connect_lem bit_rate bit_rate' wants_auto wants_start' wants_auto' capacity capacity'
      max_rx_credit max_rx_credit' k j y h made made'
