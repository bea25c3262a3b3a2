-- ===== src/Link/Exchange.antt =====
-- link.py: two links on one cable, which send in turns.
use cocotbext_spacewire.Base.{
  ◌≡◌, ◌≢◌, sym, ap, ap₂, ◌∙◌, Bool, true, false, Option, none, some, Text, List, All, Bit,
  if◌then◌else◌, Outcome, ok, raise, ok-injective,
}
use cocotbext_spacewire.LinkFsm.{
  reset, LinkFsm, Event, rx_err, got_null, got_fct, output, feed, state_eq,
}
use cocotbext_spacewire.Characters.Types.{
  CharType, Character, fct, null, plain, char_type_eq, is_n_char_type,
}
use cocotbext_spacewire.Characters.Encoder.{Encoder}
use cocotbext_spacewire.Characters.Decoder.{Decoder}
use cocotbext_spacewire.Characters.Streams.{wire}
use cocotbext_spacewire.Characters.Delivery.{payload, Synced}
use cocotbext_spacewire.Characters.RoundTrip.{IsClean}
use cocotbext_spacewire.Characters.Requests.{IsRequest}
use cocotbext_spacewire.Link.State.{sending, Link}
use cocotbext_spacewire.Link.Fsm.{feed_fsm, on_state_change}
use cocotbext_spacewire.Link.Transmit.{tx_loop, tx_end, next_char}
use cocotbext_spacewire.Link.Receive.{
  feed_bits, dispatch, on_rx_character, receive_fct, receive_nchar, is_hard, event_of,
}
use cocotbext_spacewire.Link.Actions.{driven_step}
use cocotbext_spacewire.Link.Peers.{tx_loop-Arrives}

-- What one end has sent reaches the other.
unfoldable pub hear : Outcome (List Bit) → Link → Link
hear (ok bits) p = (feed_bits (wire bits) p).1
hear (raise e) p = p

-- The transmit loop of `l` sends a character, and its peer `p` samples the bits.
unfoldable pub exchange : Link → Link → Link × Link
unfolding hear
exchange l p = let (r, l') = tx_loop l in (driven_step l'.tx_task l', hear r p)

-- An exchange with the character `c`, which leaves the sender `m` behind as it is chosen.
pub record Exchanged (l p m : Link) (c : Character) (queued : Bool) : Type 0 where
  pub e' : Encoder
  pub d' : Decoder
  pub synced : Synced e' d'
  pub sender :
      (exchange l p).0 ≡ tx_end c queued (record m { encoder = e'; tx_task = sending c queued })
  pub c' : Character
  pub same : payload c' ≡ payload c
  pub clean : IsClean c'
  pub peer : (exchange l p).1 ≡ dispatch c' (record p { decoder = d' })

pub exchange_lem :
    (l p m : Link) (c : Character) (queued : Bool)
    → (output l.fsm).tx_mode ≢ reset
    → All IsRequest l.tx_nchar_queue
    → next_char (output l.fsm).tx_mode l ≡ (ok (c, queued), m)
    → Synced l.encoder p.decoder
    → Exchanged l p m c queued
unfolding exchange driven_step
exchange_lem l p m c queued active requests chooses synced =
    let a = tx_loop-Arrives l p active requests synced in
    let chosen : (a.c, a.queued) ≡ (c, queued) =
      ok-injective (sym a.chosen ∙ ap (λ r. r.0) chooses) in
    let left : a.l' ≡ record m { encoder = a.l'.encoder; tx_task = sending c queued } =
      a.left
      ∙ ap₂ {A = Link} {B = Character × Bool}
          (λ m r. record m { encoder = a.l'.encoder; tx_task = sending r.0 r.1 })
          (ap (λ r. r.1) chooses) chosen in
    record {
      e' = a.l'.encoder;
      d' = a.d';
      synced = a.synced;
      sender =
          ap (λ r. driven_step r.1.tx_task r.1) a.sent ∙ ap (λ l. driven_step l.tx_task l) left;
      c' = a.c';
      same = a.same ∙ ap (λ r. payload r.0) chosen;
      clean = a.clean;
      peer = ap (λ r. hear r.0 p) a.sent ∙ ap (λ r. r.1) a.received;
    }

pub feed_fsm-stays :
    (e : Event) (l : Link) {f f' : LinkFsm}
    → l.fsm ≡ f
    → feed e f ≡ f'
    → state_eq f'.state f.state ≡ true
    → feed_fsm e l ≡ record l { fsm = f' }
unfolding feed_fsm
feed_fsm-stays e l {f} {f'} h h' same =
    let chosen : LinkFsm → LinkFsm → Bool → Link = λ f f' b.
      let l' = record l { fsm = f' } in if b then l' else on_state_change (output f') l' in
    ap (λ f. chosen f (feed e f) (state_eq (feed e f).state f.state)) h
    ∙ ap (λ f'. chosen f f' (state_eq f'.state f.state)) h'
    ∙ ap (chosen f f') same

pub feed_fsm-moves :
    (e : Event) (l : Link) {f f' : LinkFsm}
    → l.fsm ≡ f
    → feed e f ≡ f'
    → state_eq f'.state f.state ≡ false
    → feed_fsm e l ≡ on_state_change (output f') (record l { fsm = f' })
unfolding feed_fsm
feed_fsm-moves e l {f} {f'} h h' same =
    let chosen : LinkFsm → LinkFsm → Bool → Link = λ f f' b.
      let l' = record l { fsm = f' } in if b then l' else on_state_change (output f') l' in
    ap (λ f. chosen f (feed e f) (state_eq (feed e f).state f.state)) h
    ∙ ap (λ f'. chosen f f' (state_eq f'.state f.state)) h'
    ∙ ap (chosen f f') same

-- What `_dispatch` does, by the error and the type.
unfoldable pub dispatched : Character → Link → Option Text → CharType → Link
dispatched c p error type = if is_hard error then feed_fsm rx_err p else elim (event_of type) [
  | none ↦ p
  | some event ↦
      let l = feed_fsm event p in
      if char_type_eq type fct
      then receive_fct l
      else if is_n_char_type type
      then receive_nchar c l
      else l
]

-- A NULL or an FCT without an error, dispatched.
pub null-dispatch :
    (c : Character) (p : Link)
    → payload c ≡ payload (plain null)
    → IsClean c
    → dispatch c p ≡ feed_fsm got_null p
unfolding dispatch on_rx_character is_n_char_type dispatched
null-dispatch c p same clean = ap₂ (dispatched c p) clean.0 (ap (λ r. r.0) same)

pub fct-dispatch :
    (c : Character) (p : Link)
    → payload c ≡ payload (plain fct)
    → IsClean c
    → dispatch c p ≡ receive_fct (feed_fsm got_fct p)
unfolding dispatch on_rx_character dispatched
fct-dispatch c p same clean = ap₂ (dispatched c p) clean.0 (ap (λ r. r.0) same)
