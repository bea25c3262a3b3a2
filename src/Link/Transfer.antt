-- ===== src/Link/Transfer.antt =====
-- link.py: two links in Run, whose users send and receive packets while the links take turns.
use cocotbext_spacewire.Base.Int.{pos}
use cocotbext_spacewire.Base.{
  ℕ, ◌+◌, ◌≤◌, ◌≡◌, inl, inr, refl, sym, ap, ap₂, ◌∙◌, subst, Bool, true, false, Bool-cases, none,
  some, List, [], ◌∷◌, ◌++◌, All, All-append, append-nil, append_assoc, length, length-append, map,
  Text, text_eq, arith, Outcome, ok, raise,
}
use cocotbext_spacewire.Characters.Types.{CharType, eop, eep, Character, plain, is_n_char_type}
use cocotbext_spacewire.Characters.Bits.{byte}
use cocotbext_spacewire.Characters.Encoder.{data_request}
use cocotbext_spacewire.Characters.Requests.{control, by_data}
use cocotbext_spacewire.Packet.{Item, SpaceWirePacket, packet, eop_text}
use cocotbext_spacewire.Packet.Stream.{
  nchars_of, data_nchar, terminator_type, packet-IsPacket, Received, waits, returns, recv_loop,
  recv_packet, ends_packet, value_or_zero,
}
use cocotbext_spacewire.Link.State.{Link}
use cocotbext_spacewire.Link.Api.{enqueue_nchar, enqueue_nchars, send_packet, take_packet}
use cocotbext_spacewire.Link.Exchange.{exchange}
use cocotbext_spacewire.Link.Joined.{IsNChar, Joined}

-- What the first of two links does: it sends the next character, or its user calls a method.
pub data Step : Type 0 where
  exchanges receives : Step
  sends_packet : List Item → Text → Step

unfoldable pub step : Step → Link × Link → Link × Link
step exchanges (l, p) = exchange l p
step receives (l, p) = ((take_packet (recv_packet l.rx_nchar_queue) l).1, p)
step (sends_packet items t) (l, p) = ((send_packet items t l).1, p)

abbrev pub swap : Link × Link → Link × Link
swap (l, p) = (p, l)

-- A step of the first link (`true`) or of the second.
unfoldable pub step_of : Bool × Step → Link × Link → Link × Link
step_of (true, s) q = step s q
step_of (false, s) q = swap (step s (swap q))

unfoldable pub steps : List (Bool × Step) → Link × Link → Link × Link
steps [] q = q
steps (s ∷ more) q = steps more (step_of s q)

-- The N-Chars of a packet that the constructor accepts.
abbrev pub accepted : Outcome SpaceWirePacket → List Character
accepted (ok p) = nchars_of p
accepted (raise e) = []

-- The N-Chars of the packets that the first link was given.
unfoldable pub given : List (Bool × Step) → List Character
given [] = []
given ((true, sends_packet items t) ∷ more) = accepted (packet items t) ++ given more
given (_ ∷ more) = given more

-- What `recv_packet` takes from the queue: up to the end of a packet, or everything.
unfoldable pub consumed : List Character → List Character
consumed [] = []
consumed (c ∷ queue) = elim (ends_packet c.type []) [
  | none ↦ c ∷ consumed queue
  | some result ↦ c ∷ []
]

-- The N-Chars that the calls of `recv_packet` of the second link have taken, in a run from `q`.
unfoldable pub taken : List (Bool × Step) → Link × Link → List Character
taken [] q = []
taken ((false, receives) ∷ more) q =
    consumed q.1.rx_nchar_queue ++ taken more (step_of (false, receives) q)
taken (s ∷ more) q = taken more (step_of s q)

-- What `recv_packet` leaves.
abbrev pub left_over : Received → List Character
left_over (waits items) = []
left_over (returns result queue) = queue

-- One character, by its type.
consumed_at :
    (type : CharType) (c : Character) (items items' : List Item) (queue : List Character)
    → queue ≡ consumed queue ++ left_over (recv_loop items' queue)
    → c ∷ queue
      ≡ (elim (ends_packet type []) as (λ _. List Character) [
        | none ↦ c ∷ consumed queue
        | some result ↦ c ∷ []
      ])
        ++ left_over (elim (ends_packet type items) as (λ _. Received) [
          | none ↦ recv_loop items' queue
          | some result ↦ returns result queue
        ])
consumed_at eop c items items' queue h = refl
consumed_at eep c items items' queue h = refl
consumed_at _ c items items' queue h = ap (◌∷◌ c) h

pub consumed_lem :
    (items : List Item) (queue : List Character)
    → queue ≡ consumed queue ++ left_over (recv_loop items queue)
unfolding consumed recv_loop
consumed_lem items [] = refl
consumed_lem items (c ∷ queue) =
    let items' = items ++ value_or_zero c.value ∷ [] in
    consumed_at c.type c items items' queue (consumed_lem items' queue)

-- The parts of a link that its user changes.
pub take_packet_lem :
    (r : Received) (l : Link) → (take_packet r l).1 ≡ record l { rx_nchar_queue = left_over r }
unfolding take_packet
take_packet_lem (waits items) l = refl
take_packet_lem (returns result queue) l = refl

abbrev still_drained : List Character → Bool → Bool
still_drained [] drained = drained
still_drained _ drained = false

pub enqueue_nchars_lem :
    (cs : List Character) (l : Link)
    → enqueue_nchars cs l ≡ record l {
      tx_nchar_queue = l.tx_nchar_queue ++ cs;
      tx_nchar_outstanding = l.tx_nchar_outstanding + length cs;
      tx_drained_evt = still_drained cs l.tx_drained_evt;
    }
unfolding enqueue_nchars enqueue_nchar
enqueue_nchars_lem [] l =
    ap₂ {A = List Character} {B = ℕ} {C = Link}
      (λ queue n. record l { tx_nchar_queue = queue; tx_nchar_outstanding = n })
      (sym (append-nil l.tx_nchar_queue)) (omega arith)
enqueue_nchars_lem (c ∷ cs) l =
    enqueue_nchars_lem cs (enqueue_nchar c l)
    ∙ ap₂ {A = List Character} {B = ℕ × Bool} {C = Link}
        (λ queue n. record l {
          tx_nchar_queue = queue;
          tx_nchar_outstanding = n.0;
          tx_drained_evt = n.1;
        })
        (append_assoc l.tx_nchar_queue (c ∷ []) cs) (ap₂ (λ n b. (n, b)) (omega arith) (never cs))
  where
    never : (cs : List Character) → still_drained cs false ≡ false
    never [] = refl
    never (c ∷ cs) = refl

data_nchar-IsNChar : (b : ℕ) → b ≤ 0xff → IsNChar (data_nchar b)
unfolding data_request byte is_n_char_type
data_nchar-IsNChar b h = (by_data (pos b) (ground arith), refl)

data-IsNChar : (bs : List ℕ) → All (λ b. b ≤ 0xff) bs → All IsNChar (map data_nchar bs)
data-IsNChar [] h = tt
data-IsNChar (b ∷ bs) h = (data_nchar-IsNChar b h.0, data-IsNChar bs h.1)

terminator-IsNChar : (t : Text) → IsNChar (plain (terminator_type t))
unfolding is_n_char_type
terminator-IsNChar t = elim (Bool-cases (text_eq t eop_text)) [
  | inl h ↦ rw h (control eop (inr (inl refl)), refl)
  | inr h ↦ rw h (control eep (inr (inr (inl refl))), refl)
]

pub nchars_of-IsNChar :
    (items : List Item) (t : Text) {p : SpaceWirePacket}
    → packet items t ≡ ok p
    → All IsNChar (nchars_of p)
unfolding nchars_of
nchars_of-IsNChar items t {p} h =
    All-append IsNChar (map data_nchar p.bytes) _
      (data-IsNChar p.bytes (packet-IsPacket items t h).0) (terminator-IsNChar p.terminator, tt)

appended-nil : (queue cs : List Character) (c : Character) → queue ++ c ∷ cs ≡ [] → ⊥
appended-nil [] cs c h = cc
appended-nil (x ∷ queue) cs c h = cc

-- N-Chars that are handed to the first link.
pub enqueue_nchars-Joined :
    (cs : List Character) (l p : Link)
    → All IsNChar cs
    → Joined l p
    → Joined (enqueue_nchars cs l) p
enqueue_nchars-Joined cs l p ns j =
    subst (λ l. Joined l p) (sym (enqueue_nchars_lem cs l))
      (record {
        out = j.out;
        back = j.back;
        runs = j.runs;
        peer_runs = j.peer_runs;
        here = record {
          limited = j.here.limited;
          capped = j.here.capped;
          sendable = All-append IsNChar l.tx_nchar_queue cs j.here.sendable ns;
          counted =
              ap (λ n. n + length cs) j.here.counted ∙ sym (length-append l.tx_nchar_queue cs);
          emptied = emptied_lem cs l j.here.emptied;
        };
        there = j.there;
        granted = j.granted;
        grants = j.grants;
      })
  where
    emptied_lem :
        (cs : List Character) (l : Link)
        → (l.tx_nchar_queue ≡ [] → l.tx_drained_evt ≡ true)
        → l.tx_nchar_queue ++ cs ≡ []
        → still_drained cs l.tx_drained_evt ≡ true
    emptied_lem [] l e h = e (sym (append-nil l.tx_nchar_queue) ∙ h)
    emptied_lem (c ∷ cs) l e h = absurd (appended-nil l.tx_nchar_queue cs c h)
