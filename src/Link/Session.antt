-- ===== src/Link/Session.antt =====
-- link.py: two links on one cable, from their constructors to the packets that their users exchange.
use cocotbext_spacewire.Base.Int.{ℤ}
use cocotbext_spacewire.Base.{
  ℕ, ◌≤◌, ◌≡◌, refl, sym, ap, ap₂, ◌∙◌, subst, Bool, true, false, not, ◌||◌, Option, List, [], ◌∷◌,
  ◌++◌, All, length, arith, ok,
}
use cocotbext_spacewire.LinkFsm.{run}
use cocotbext_spacewire.Link.State.{Link, init}
use cocotbext_spacewire.Link.Rounds.{round, round_of}
use cocotbext_spacewire.Link.Connect.{opened, links_meet, init-capped}
use cocotbext_spacewire.Link.Handshake.{Idle}
use cocotbext_spacewire.Link.Turns.{first_grant}
use cocotbext_spacewire.Link.Joined.{Joined, Joined-sym, payloads, Stocked, IsNChar}
use cocotbext_spacewire.Link.Transfer.{Step, step, step_of, steps, swap, given, taken}
use cocotbext_spacewire.Link.Conserved.{under_way, steps-Conserved}

first_grant-full : (n : ℕ) → 8 ≤ n → first_grant n ≡ 8
first_grant-full n h = ground arith

idle-Stock :
    (n : ℕ) (l : Link)
    → 8 ≤ n
    → n ≤ 56
    → l.credit.rx_credit ≡ 8
    → l.credit.max_rx_credit ≡ n
    → Idle l.rx_nchar_queue l.tx_nchar_queue l.tx_nchar_outstanding l.tx_drained_evt l.only_nulls
        l.error_reset_count
    → Stocked l
idle-Stock n l room small full limit idle = record {
  limited = omega arith;
  capped = omega arith;
  sendable = subst (All IsNChar) (sym idle.empty) tt;
  counted = idle.none_outstanding ∙ sym (ap length idle.empty);
  emptied = λ _. idle.is_drained;
}

-- Two links that have connected are joined, if the credit limit of each is 8 at least.
pub links_join :
    (bit_rate bit_rate' : ℕ) (wants_auto wants_start' wants_auto' : Bool)
    (rx_fifo_capacity rx_fifo_capacity' : ℤ) (max_rx_credit max_rx_credit' : Option ℤ) (k j : ℕ)
    (y : Bool) {l p : Link}
    → wants_start' || wants_auto' ≡ true
    → init bit_rate true wants_auto false rx_fifo_capacity max_rx_credit ≡ ok l
    → init bit_rate' wants_start' wants_auto' false rx_fifo_capacity' max_rx_credit' ≡ ok p
    → 8 ≤ l.credit.max_rx_credit
    → 8 ≤ p.credit.max_rx_credit
    → let q = round_of y j (round k (opened l, opened p)) in
      Joined q.0 q.1 × (under_way q ≡ []) × (under_way (swap q) ≡ [])
links_join bit_rate bit_rate' wants_auto wants_start' wants_auto' capacity capacity' max_rx_credit
      max_rx_credit' k j y {l} {p} h made made' room room' =
    let m =
      links_meet bit_rate bit_rate' wants_auto wants_start' wants_auto' capacity capacity'
        max_rx_credit max_rx_credit' k j y h made made' in
    let small = init-capped bit_rate true wants_auto capacity max_rx_credit made in
    let small' = init-capped bit_rate' wants_start' wants_auto' capacity' max_rx_credit' made' in
    let (fsm, _, tx, rx, limit, _, idle) = m.here in
    let (fsm', _, tx', rx', limit', _, idle') = m.there in
    let full = rx ∙ first_grant-full l.credit.max_rx_credit room in
    let full' = rx' ∙ first_grant-full p.credit.max_rx_credit room' in
    let q = round_of y j (round k (opened l, opened p)) in
    (
      record {
        out = m.out;
        back = m.back;
        runs = ap (λ f. f.state) fsm;
        peer_runs = ap (λ f. f.state) fsm';
        here = idle-Stock l.credit.max_rx_credit q.0 room small full limit idle;
        there = idle-Stock p.credit.max_rx_credit q.1 room' small' full' limit' idle';
        granted = tx ∙ sym full';
        grants = tx' ∙ sym full;
      },
      ap₂ (λ rx tx. payloads rx ++ payloads tx) idle'.none_received idle.empty,
      ap₂ (λ rx tx. payloads rx ++ payloads tx) idle.none_received idle'.empty,
    )

-- The same actions, with the links exchanged.
abbrev pub mirrored : List (Bool × Step) → List (Bool × Step)
mirrored [] = []
mirrored ((b, s) ∷ more) = (not b, s) ∷ mirrored more

steps-mirrored :
    (actions : List (Bool × Step)) (q : Link × Link)
    → steps (mirrored actions) (swap q) ≡ swap (steps actions q)
unfolding steps step_of
steps-mirrored [] q = refl
steps-mirrored ((true, s) ∷ more) q = steps-mirrored more (step s q)
steps-mirrored ((false, s) ∷ more) q = steps-mirrored more (swap (step s (swap q)))

-- What two links do between the handshake, which leaves `q`, and `q'`: both are in Run, and in either
-- direction the N-Chars that the calls of `recv_packet` have taken, and then those that are queued at
-- the receiver and at the sender, are exactly those of the packets given to the sender, in order.
pub record Delivered (actions : List (Bool × Step)) (q q' : Link × Link) : Type 0 where
  pub in_run : (q'.0.fsm.state ≡ run) × (q'.1.fsm.state ≡ run)
  pub forth : payloads (given actions) ≡ payloads (taken actions q) ++ under_way q'
  pub back :
      payloads (given (mirrored actions))
      ≡ payloads (taken (mirrored actions) (swap q)) ++ under_way (swap q')

-- Two links that the constructor has built, the first with LinkStart and the second with LinkStart or
-- AutoStart, neither sending only NULLs, with a credit limit of 8 at least each: they are started, the
-- two ticks pass, they take the turns of the handshake of `links_connect`, and then go on with any
-- turns, packets sent and packets received at both ends. Both stay in Run, and what they deliver is as
-- `Delivered` says.
pub links_deliver :
    (bit_rate bit_rate' : ℕ) (wants_auto wants_start' wants_auto' : Bool)
    (rx_fifo_capacity rx_fifo_capacity' : ℤ) (max_rx_credit max_rx_credit' : Option ℤ) (k j : ℕ)
    (y : Bool) (actions : List (Bool × Step)) {l p : Link}
    → wants_start' || wants_auto' ≡ true
    → init bit_rate true wants_auto false rx_fifo_capacity max_rx_credit ≡ ok l
    → init bit_rate' wants_start' wants_auto' false rx_fifo_capacity' max_rx_credit' ≡ ok p
    → 8 ≤ l.credit.max_rx_credit
    → 8 ≤ p.credit.max_rx_credit
    → let q = round_of y j (round k (opened l, opened p)) in Delivered actions q (steps actions q)
links_deliver bit_rate bit_rate' wants_auto wants_start' wants_auto' capacity capacity'
      max_rx_credit max_rx_credit' k j y actions {l} {p} h made made' room room' =
    let q = round_of y j (round k (opened l, opened p)) in
    let (joined, none_forth, none_back) =
      links_join bit_rate bit_rate' wants_auto wants_start' wants_auto' capacity capacity'
        max_rx_credit max_rx_credit' k j y h made made' room room' in
    let forth = steps-Conserved actions q joined in
    let back = steps-Conserved (mirrored actions) (swap q) (Joined-sym joined) in
    record {
      in_run = (forth.joined.runs, forth.joined.peer_runs);
      forth = sym (ap (λ u. u ++ payloads (given actions)) none_forth) ∙ forth.stream;
      back =
          sym (ap (λ u. u ++ payloads (given (mirrored actions))) none_back)
          ∙ back.stream
          ∙ ap (λ q'. payloads (taken (mirrored actions) (swap q)) ++ under_way q')
              (steps-mirrored actions q);
    }
