-- ===== src/Link/Conserved.antt =====
-- link.py: what two links in Run deliver to each other.
use cocotbext_spacewire.Base.{
  ◌≡◌, inl, inr, refl, sym, ap, ap₂, ◌∙◌, subst, Bool, true, false, List, [], ◌∷◌, ◌++◌, append-nil,
  append_assoc, Outcome-cases, Text,
}
use mathlib.Core.List.{map-append}
use cocotbext_spacewire.Characters.Types.{Character}
use cocotbext_spacewire.Characters.Delivery.{payload}
use cocotbext_spacewire.Packet.{Item, packet}
use cocotbext_spacewire.Packet.Stream.{nchars_of, recv_packet}
use cocotbext_spacewire.Link.State.{Link}
use cocotbext_spacewire.Link.Api.{enqueue_nchars, send_packet, take_packet}
use cocotbext_spacewire.Link.Exchange.{exchange}
use cocotbext_spacewire.Link.Joined.{Joined, Joined-sym, payloads, Payload}
use cocotbext_spacewire.Link.Moves.{exchange-Turned}
use cocotbext_spacewire.Link.Transfer.{
  Step, exchanges, receives, sends_packet, step, step_of, steps, swap, accepted, given, consumed,
  taken, left_over, consumed_lem, take_packet_lem, enqueue_nchars_lem, nchars_of-IsNChar,
  enqueue_nchars-Joined,
}

-- What waits on the way from the first link to the second.
abbrev pub under_way : Link × Link → List Payload
under_way q = payloads q.1.rx_nchar_queue ++ payloads q.0.tx_nchar_queue

-- A run from `q` to `q'` in which the first link was given `sent` and the second one's user has taken
-- `gone`: the links stay joined, and what has been taken, what waits in the second link's RX queue and
-- what is left in the first link's TX queue are, in order, what was in these queues before and what was
-- given, with the same types and values.
pub record Conserved (q q' : Link × Link) (sent gone : List Character) : Type 0 where
  pub joined : Joined q'.0 q'.1
  pub stream : under_way q ++ payloads sent ≡ payloads gone ++ under_way q'

joined_streams {ℓ} :
    {A : Type ℓ} (a b c s s' g g' : List A)
    → a ++ s ≡ g ++ b
    → b ++ s' ≡ g' ++ c
    → a ++ (s ++ s') ≡ (g ++ g') ++ c
joined_streams a b c s s' g g' h h' =
    sym (append_assoc a s s')
    ∙ ap (λ x. x ++ s') h
    ∙ append_assoc g b s'
    ∙ ap (◌++◌ g) h'
    ∙ sym (append_assoc g g' c)

Conserved-trans :
    (q q₁ q₂ : Link × Link) {sent gone sent' gone' : List Character}
    → Conserved q q₁ sent gone
    → Conserved q₁ q₂ sent' gone'
    → Conserved q q₂ (sent ++ sent') (gone ++ gone')
Conserved-trans q q₁ q₂ {sent} {gone} {sent'} {gone'} c c' = record {
  joined = c'.joined;
  stream =
      ap (◌++◌ (under_way q)) (map-append payload sent sent')
      ∙ joined_streams (under_way q) (under_way q₁) (under_way q₂) (payloads sent) (payloads sent')
          (payloads gone) (payloads gone') c.stream c'.stream
      ∙ ap (λ g. g ++ under_way q₂) (sym (map-append payload gone gone'));
}

-- A step that gives and takes nothing.
silent : (q q' : Link × Link) → Joined q'.0 q'.1 → under_way q' ≡ under_way q → Conserved q q' [] []
silent q q' j h = record { joined = j; stream = append-nil (under_way q) ∙ sym h }

pub received-Joined :
    (queue : List Character) (l p : Link)
    → Joined l p
    → Joined (record l { rx_nchar_queue = queue }) p
received-Joined queue l p j = record {
  out = j.out;
  back = j.back;
  runs = j.runs;
  peer_runs = j.peer_runs;
  here = j.here;
  there = j.there;
  granted = j.granted;
  grants = j.grants;
}

sent_lem :
    (cs : List Character) (l p : Link)
    → Joined (enqueue_nchars cs l) p
    → Conserved (l, p) (enqueue_nchars cs l, p) cs []
sent_lem cs l p j = record {
  joined = j;
  stream =
      append_assoc (payloads p.rx_nchar_queue) (payloads l.tx_nchar_queue) (payloads cs)
      ∙ ap (◌++◌ (payloads p.rx_nchar_queue)) (
          sym (map-append payload l.tx_nchar_queue cs)
          ∙ ap (λ l. payloads l.tx_nchar_queue) (sym (enqueue_nchars_lem cs l)));
}

-- The user of a link takes what `recv_packet` finds.
taken_lem :
    (l p : Link)
    → Joined l p
    → Conserved
        (l, p)
        (l, (take_packet (recv_packet p.rx_nchar_queue) p).1)
        []
        (consumed p.rx_nchar_queue)
unfolding recv_packet
taken_lem l p j =
    let is = take_packet_lem (recv_packet p.rx_nchar_queue) p in
    let rest = left_over (recv_packet p.rx_nchar_queue) in
    let tx = payloads l.tx_nchar_queue in
    record {
      joined =
          Joined-sym (subst (λ p. Joined p l) (sym is) (received-Joined rest p l (Joined-sym j)));
      stream =
          append-nil _
          ∙ ap (λ rx. rx ++ tx)
              (ap payloads (consumed_lem [] p.rx_nchar_queue)
                ∙ map-append payload (consumed p.rx_nchar_queue) rest)
          ∙ append_assoc (payloads (consumed p.rx_nchar_queue)) (payloads rest) tx
          ∙ ap (λ rx. payloads (consumed p.rx_nchar_queue) ++ (payloads rx ++ tx))
              (sym (ap (λ p. p.rx_nchar_queue) is));
    }

-- A packet that is accepted, or refused with an exception, which changes nothing.
packet_lem :
    (items : List Item) (t : Text) (l p : Link)
    → Joined l p
    → Conserved (l, p) ((send_packet items t l).1, p) (accepted (packet items t)) []
unfolding send_packet
packet_lem items t l p j = elim (Outcome-cases (packet items t)) [
  | inl (x, made) ↦
      rw (made, send_packet)
        (sent_lem (nchars_of x) l p
          (enqueue_nchars-Joined (nchars_of x) l p (nchars_of-IsNChar items t made) j))
  | inr (e, refused) ↦ rw (refused, send_packet) (silent (l, p) (l, p) j refl)
]

-- A packet for the second link.
peer_packet_lem :
    (items : List Item) (t : Text) (l p : Link)
    → Joined l p
    → Conserved (l, p) (l, (send_packet items t p).1) [] []
unfolding send_packet
peer_packet_lem items t l p j = elim (Outcome-cases (packet items t)) [
  | inl (x, made) ↦
      let cs = nchars_of x in
      rw (made, send_packet)
        (silent (l, p) (l, enqueue_nchars cs p)
          (Joined-sym
            (enqueue_nchars-Joined cs p l (nchars_of-IsNChar items t made) (Joined-sym j)))
          (ap (λ p. payloads p.rx_nchar_queue ++ payloads l.tx_nchar_queue)
            (enqueue_nchars_lem cs p)))
  | inr (e, refused) ↦ rw (refused, send_packet) (silent (l, p) (l, p) j refl)
]

-- The first user takes packets of the other direction.
peer_taken_lem :
    (l p : Link)
    → Joined l p
    → Conserved (l, p) ((take_packet (recv_packet l.rx_nchar_queue) l).1, p) [] []
peer_taken_lem l p j =
    let is = take_packet_lem (recv_packet l.rx_nchar_queue) l in
    silent (l, p) _
      (subst (λ l. Joined l p) (sym is)
        (received-Joined (left_over (recv_packet l.rx_nchar_queue)) l p j))
      (ap (λ l. payloads p.rx_nchar_queue ++ payloads l.tx_nchar_queue) is)

peer_turn_lem : (l p : Link) → Joined l p → Conserved (l, p) (swap (exchange p l)) [] []
peer_turn_lem l p j =
    let t = exchange-Turned p l (Joined-sym j) in
    silent (l, p) (swap (exchange p l)) (Joined-sym t.joined)
      (ap₂ (λ rx tx. payloads rx ++ payloads tx) t.kept_rx t.kept_tx)

turn_lem : (l p : Link) → Joined l p → Conserved (l, p) (exchange l p) [] []
turn_lem l p j = let t = exchange-Turned l p j in silent (l, p) (exchange l p) t.joined t.stream

-- Whatever two links in Run that are joined do, in turns, and whatever packets their users send and
-- take meanwhile: the links stay in Run and joined, and the N-Chars from the first to the second are
-- conserved, in order.
pub steps-Conserved :
    (actions : List (Bool × Step)) (q : Link × Link)
    → Joined q.0 q.1
    → Conserved q (steps actions q) (given actions) (taken actions q)
unfolding steps given taken step_of step
steps-Conserved [] q j = silent q q j refl
steps-Conserved ((true, exchanges) ∷ more) (l, p) j =
    let c = turn_lem l p j in Conserved-trans (l, p) _ _ c (steps-Conserved more _ c.joined)
steps-Conserved ((true, receives) ∷ more) (l, p) j =
    let c = peer_taken_lem l p j in Conserved-trans (l, p) _ _ c (steps-Conserved more _ c.joined)
steps-Conserved ((true, sends_packet items t) ∷ more) (l, p) j =
    let c = packet_lem items t l p j in
    Conserved-trans (l, p) _ _ c (steps-Conserved more _ c.joined)
steps-Conserved ((false, exchanges) ∷ more) (l, p) j =
    let c = peer_turn_lem l p j in Conserved-trans (l, p) _ _ c (steps-Conserved more _ c.joined)
steps-Conserved ((false, receives) ∷ more) (l, p) j =
    let c = taken_lem l p j in Conserved-trans (l, p) _ _ c (steps-Conserved more _ c.joined)
steps-Conserved ((false, sends_packet items t) ∷ more) (l, p) j =
    let c = peer_packet_lem items t l p j in
    Conserved-trans (l, p) _ _ c (steps-Conserved more _ c.joined)
