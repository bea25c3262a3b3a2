-- ===== src/Link/Arrival.antt =====
-- link.py: a packet that is sent with credit for all of it reaches the peer's user.
use cocotbext_spacewire.Base.{
  ℕ, zero, suc, ◌+◌, ◌*◌, ◌≤◌, ◌<◌, ◌≡◌, inl, inr, refl, sym, ap, ap₂, ◌∙◌, subst, true, List, [],
  ◌∷◌, ◌++◌, append-nil, length, Text, arith, ok,
}
use cocotbext_spacewire.LinkFsm.{run}
use cocotbext_spacewire.Packet.{Item, SpaceWirePacket, packet, len}
use cocotbext_spacewire.Packet.Stream.{nchars_of, returns, recv_packet, recv_packet-nchars_of}
use cocotbext_spacewire.Packet.EndToEnd.{recv_loop_ext}
use cocotbext_spacewire.Link.State.{Link}
use cocotbext_spacewire.Link.Api.{enqueue_nchars, send_packet}
use cocotbext_spacewire.Link.Exchange.{exchange}
use cocotbext_spacewire.Link.Rounds.{several}
use cocotbext_spacewire.Link.Joined.{Joined, Progress, by_fct, by_nchar, by_null, payloads}
use cocotbext_spacewire.Link.Moves.{exchange-Turned}
use cocotbext_spacewire.Link.Transfer.{enqueue_nchars_lem, enqueue_nchars-Joined, nchars_of-IsNChar}
use cocotbext_spacewire.Link.Conserved.{under_way}

pub length-nil {ℓ} : {A : Type ℓ} (xs : List A) → length xs ≡ 0 → xs ≡ []
length-nil [] h = refl
length-nil (x ∷ xs) h = absurd (omega arith)

-- Turns of the first link alone: it stays joined, and its stream is conserved.
record Sent (q q' : Link × Link) : Type 0 where
  joined : Joined q'.0 q'.1
  stream : under_way q' ≡ under_way q

more-Sent : (q q₁ q₂ : Link × Link) → under_way q₁ ≡ under_way q → Sent q₁ q₂ → Sent q q₂
more-Sent q q₁ q₂ h s = record { joined = s.joined; stream = s.stream ∙ h }

several-Sent : (k : ℕ) (q : Link × Link) → Joined q.0 q.1 → Sent q (several k q)
unfolding several
several-Sent zero q j = record { joined = j; stream = refl }
several-Sent (suc k) q j =
    let t = exchange-Turned q.0 q.1 j in
    more-Sent q (exchange q.0 q.1) _ t.stream (several-Sent k (exchange q.0 q.1) t.joined)

pub empty_turn : (l l' : Link) → l.tx_nchar_queue ≡ [] → Progress l l' → l'.tx_nchar_queue ≡ []
empty_turn l l' empty (by_fct _ same _) = same ∙ empty
empty_turn l l' empty (by_nchar shorter _ _ _) =
    let none : length l.tx_nchar_queue ≡ 0 = ap length empty in absurd (omega arith)
empty_turn l l' empty (by_null _ _ _ same _) = same ∙ empty

several-empty :
    (k : ℕ) (q : Link × Link)
    → Joined q.0 q.1
    → q.0.tx_nchar_queue ≡ []
    → (several k q).0.tx_nchar_queue ≡ []
unfolding several
several-empty zero q j h = h
several-empty (suc k) q j h =
    let t = exchange-Turned q.0 q.1 j in
    several-empty k (exchange q.0 q.1) t.joined (empty_turn q.0 (exchange q.0 q.1).0 h t.progress)

-- What `k` turns come to.
abbrev Drains : ℕ → Type 0
Drains k =
    (g : ℕ) (q : Link × Link)
    → Joined q.0 q.1
    → length q.0.tx_nchar_queue + g ≤ k
    → length q.0.tx_nchar_queue ≤ q.0.credit.tx_credit
    → q.0.credit.max_rx_credit < q.0.credit.rx_credit + 8 * (g + 1)
    → (several k q).0.tx_nchar_queue ≡ []

fct-Drains :
    (k g : ℕ) (q : Link × Link)
    → Drains k
    → Joined q.0 q.1
    → length q.0.tx_nchar_queue + g ≤ suc k
    → length q.0.tx_nchar_queue ≤ q.0.credit.tx_credit
    → q.0.credit.max_rx_credit < q.0.credit.rx_credit + 8 * g
    → q.0.credit.rx_credit ≤ q.0.credit.max_rx_credit
    → (several k q).0.tx_nchar_queue ≡ []
fct-Drains k zero q ih j enough credit fcts room = absurd (omega arith)
fct-Drains k (suc g) q ih j enough credit fcts room = ih g q j (omega arith) credit (omega arith)

-- Enough turns for the queue, when there is credit for all of it: one for each N-Char, and one for each
-- of the `g` FCTs at most that the credit limit still allows.
several-Drains : (k : ℕ) → Drains k
unfolding several
several-Drains zero g q j enough credit fcts = length-nil q.0.tx_nchar_queue (omega arith)
several-Drains (suc k) g q j enough credit fcts =
    let q' = exchange q.0 q.1 in
    let t = exchange-Turned q.0 q.1 j in
    let limit = t.limit in
    let room = t.joined.here.limited in
    elim t.progress [
      | by_fct more same kept ↦
          let n : length q'.0.tx_nchar_queue ≡ length q.0.tx_nchar_queue = ap length same in
          fct-Drains k g q' (several-Drains k) t.joined (omega arith) (omega arith) (omega arith)
            room
      | by_nchar shorter kept less _ ↦
          several-Drains k g q' t.joined (omega arith) (omega arith) (omega arith)
      | by_null (inl empty) _ _ same _ ↦ several-empty k q' t.joined (same ∙ empty)
      | by_null (inr none) _ _ same _ ↦
          several-empty k q' t.joined (same ∙ length-nil q.0.tx_nchar_queue (omega arith))
    ]

send_packet-ok :
    (items : List Item) (terminator : Text) (l : Link) {x : SpaceWirePacket}
    → packet items terminator ≡ ok x
    → send_packet items terminator l ≡ (ok x, enqueue_nchars (nchars_of x) l)
unfolding send_packet
send_packet-ok items terminator l made = rw (made, send_packet) refl

-- A packet that has arrived: both links are in Run, `send_packet` of the one may return, and
-- `recv_packet` of the other returns the packet and leaves nothing.
pub record Arrived (x : SpaceWirePacket) (q : Link × Link) : Type 0 where
  pub in_run : (q.0.fsm.state ≡ run) × (q.1.fsm.state ≡ run)
  pub drained : q.0.tx_drained_evt ≡ true
  pub received : recv_packet q.1.rx_nchar_queue ≡ returns (ok x) []

-- Two links in Run that are joined, with nothing to send and nothing received: a packet that the
-- constructor accepts, and for whose length there is credit, has arrived, in the sense of `Arrived`,
-- after as many turns of the sender as its length and 7 more, or after any more than these.
pub packet_arrives :
    (items : List Item) (terminator : Text) (k : ℕ) (l p : Link) {x : SpaceWirePacket}
    → Joined l p
    → l.tx_nchar_queue ≡ []
    → p.rx_nchar_queue ≡ []
    → packet items terminator ≡ ok x
    → len x ≤ l.credit.tx_credit
    → len x + 7 ≤ k
    → ((send_packet items terminator l).0 ≡ ok x)
      × Arrived x (several k ((send_packet items terminator l).1, p))
unfolding recv_packet
packet_arrives items terminator k l p {x} j empty unread made credit enough =
    let cs = nchars_of x in
    let l' = enqueue_nchars cs l in
    let sent = send_packet-ok items terminator l made in
    let (whole, size) = recv_packet-nchars_of items terminator [] made in
    let is = enqueue_nchars_lem cs l in
    let queued : l'.tx_nchar_queue ≡ cs =
      ap (λ l. l.tx_nchar_queue) is ∙ ap (λ queue. queue ++ cs) empty in
    let j' = enqueue_nchars-Joined cs l p (nchars_of-IsNChar items terminator made) j in
    let q : Link × Link = (l', p) in
    let q' = several k q in
    let run = several-Sent k q j' in
    let n : length l'.tx_nchar_queue ≡ len x = ap length queued ∙ size in
    let same_credit : l'.credit.tx_credit ≡ l.credit.tx_credit = ap (λ l. l.credit.tx_credit) is in
    let capped = j'.here.capped in
    let done : q'.0.tx_nchar_queue ≡ [] =
      several-Drains k 7 q j' (omega arith) (omega arith) (omega arith) in
    let arrived : payloads q'.1.rx_nchar_queue ≡ payloads cs =
      sym (ap (λ tx. payloads q'.1.rx_nchar_queue ++ payloads tx) done ∙ append-nil _)
      ∙ run.stream
      ∙ ap₂ (λ rx tx. payloads rx ++ payloads tx) unread queued in
    subst (λ r. (r.0 ≡ ok x) × Arrived x (several k (r.1, p))) (sym sent)
      (
        refl,
        record {
          in_run = (run.joined.runs, run.joined.peer_runs);
          drained = run.joined.here.emptied done;
          received =
              recv_loop_ext [] cs q'.1.rx_nchar_queue arrived
                (ap recv_packet (sym (append-nil cs)) ∙ whole);
        },
      )
