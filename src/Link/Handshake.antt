-- ===== src/Link/Handshake.antt =====
-- link.py: what one turn of a link handshake does to the two ends.
use cocotbext_spacewire.Base.{
  ℕ, ◌+◌, ◌≡◌, ◌≢◌, ◌⊎◌, refl, sym, ap, ◌∙◌, subst, Bool, true, false, List, [], All, if◌then◌else◌,
  arith, Outcome, ok, raise, credit_error, fct_overflow, ltb,
}
use cocotbext_spacewire.LinkFsm.{
  State, started, connecting, run, TxMode, reset, LinkFsm, Event, credit_err, output, feed,
  state_eq, state_tx,
}
use cocotbext_spacewire.FlowControl.{CreditCounter, on_fct_received}
use cocotbext_spacewire.Characters.Types.{Character}
use cocotbext_spacewire.Characters.Encoder.{Encoder}
use cocotbext_spacewire.Characters.Delivery.{payload, Synced}
use cocotbext_spacewire.Characters.RoundTrip.{IsClean}
use cocotbext_spacewire.Characters.Requests.{IsRequest}
use cocotbext_spacewire.Link.State.{TxTask, looping, sending, Link}
use cocotbext_spacewire.Link.Fsm.{feed_fsm, on_state_change, start_timer}
use cocotbext_spacewire.Link.Transmit.{next_char, tx_end}
use cocotbext_spacewire.Link.Receive.{dispatch, receive_fct}
use cocotbext_spacewire.Link.Exchange.{exchange, exchange_lem, feed_fsm-stays, feed_fsm-moves}

-- What the handshake depends on at one end.
pub record View : Type 0 where
  pub fsm : LinkFsm
  pub fct_sent : Bool
  pub tx_credit : ℕ
  pub rx_credit : ℕ
  pub max_rx_credit : ℕ
  pub run_reached : Bool

-- Nothing received, nothing to send, all of it driven, and no reset.
pub record Idle (received queue : List Character) (outstanding : ℕ) (drained only_nulls : Bool)
    (resets : ℕ) : Type 0 where
  pub none_received : received ≡ []
  pub empty : queue ≡ []
  pub none_outstanding : outstanding ≡ 0
  pub is_drained : drained ≡ true
  pub sends_all : only_nulls ≡ false
  pub never_reset : resets ≡ 0

-- A link that looks so, and that is idle.
abbrev pub Stands : View → Link → Type 0
Stands v l =
    (l.fsm ≡ v.fsm)
    × (l.fct_sent_this_connecting ≡ v.fct_sent)
    × (l.credit.tx_credit ≡ v.tx_credit)
    × (l.credit.rx_credit ≡ v.rx_credit)
    × (l.credit.max_rx_credit ≡ v.max_rx_credit)
    × (l.run_reached ≡ v.run_reached)
    × Idle l.rx_nchar_queue l.tx_nchar_queue l.tx_nchar_outstanding l.tx_drained_evt l.only_nulls
        l.error_reset_count

-- A step of one end that leaves its encoder and its decoder alone.
pub record Becomes (v : View) (l l' : Link) : Type 0 where
  pub stands : Stands v l'
  pub encoder : l'.encoder ≡ l.encoder
  pub decoder : l'.decoder ≡ l.decoder

-- Two ends, with both lines in step.
pub record Meets (v w : View) (l p : Link) : Type 0 where
  pub out : Synced l.encoder p.decoder
  pub back : Synced p.encoder l.decoder
  pub here : Stands v l
  pub there : Stands w p

pub Meets-sym : {v w : View} {l p : Link} → Meets v w l p → Meets w v p l
Meets-sym m = record { out = m.back; back = m.out; here = m.there; there = m.here }

-- The steps of the machine: within a state, and to Started, Connecting and Run.
pub feed-stays :
    (e : Event) (v : View) (f : LinkFsm) (l : Link)
    → feed e v.fsm ≡ f
    → state_eq f.state v.fsm.state ≡ true
    → Stands v l
    → Becomes (record v { fsm = f }) l (feed_fsm e l)
feed-stays e v f l h same (fsm, fct_sent, credit, rx_credit, limit, reached, idle) =
    subst (Becomes (record v { fsm = f }) l) (sym (feed_fsm-stays e l fsm h same)) (record {
      stands = (refl, fct_sent, credit, rx_credit, limit, reached, idle);
      encoder = refl;
      decoder = refl;
    })

-- The view behind a change of state.
abbrev moved : State → View → View
moved connecting v = record v { fct_sent = false }
moved run v = record v { run_reached = true }
moved _ v = v

abbrev IsOpen : State → Type 0
IsOpen s = (s ≡ started) ⊎ (s ≡ connecting) ⊎ (s ≡ run)

opened_lem :
    (s : State) (mode : TxMode) (rx_enabled : Bool) (rate : ℕ) (v : View) (l : Link)
    → IsOpen s
    → Stands v l
    → Becomes (moved s v) l (
        on_state_change
          (record { state = s; tx_mode = mode; rx_enabled = rx_enabled; bit_rate_bps = rate })
          l)
unfolding on_state_change start_timer
opened_lem started mode rx_enabled rate v l o s = record {
  stands = s;
  encoder = refl;
  decoder = refl;
}
opened_lem connecting mode rx_enabled rate v l o
      (fsm, fct_sent, credit, rx_credit, limit, reached, idle) =
    record {
      stands = (fsm, refl, credit, rx_credit, limit, reached, idle);
      encoder = refl;
      decoder = refl;
    }
opened_lem run mode rx_enabled rate v l o (fsm, fct_sent, credit, rx_credit, limit, reached, idle) =
    record {
      stands = (fsm, fct_sent, credit, rx_credit, limit, refl, idle);
      encoder = refl;
      decoder = refl;
    }
opened_lem _ mode rx_enabled rate v l o s = absurd (grind arith)

pub feed-moves :
    (e : Event) (v : View) (f : LinkFsm) (l : Link)
    → feed e v.fsm ≡ f
    → state_eq f.state v.fsm.state ≡ false
    → IsOpen f.state
    → Stands v l
    → Becomes (moved f.state (record v { fsm = f })) l (feed_fsm e l)
unfolding output
feed-moves e v f l h differs o (fsm, fct_sent, credit, rx_credit, limit, reached, idle) =
    let b =
      opened_lem f.state (state_tx f.state) _ _ (record v { fsm = f }) (record l { fsm = f }) o
        (refl, fct_sent, credit, rx_credit, limit, reached, idle) in
    subst (Becomes (moved f.state (record v { fsm = f })) l)
      (sym (feed_fsm-moves e l fsm h differs))
      (record { stands = b.stands; encoder = b.encoder; decoder = b.decoder })

-- An FCT that finds no credit is counted.
pub receive_fct_lem :
    (v : View) (l : Link)
    → v.tx_credit ≡ 0
    → Stands v l
    → Becomes (record v { tx_credit = 8 }) l (receive_fct l)
unfolding receive_fct on_fct_received
receive_fct_lem v l none (fsm, fct_sent, credit, rx_credit, limit, reached, idle) =
    let counted : ℕ → Outcome (Unit {0}) × CreditCounter = λ n.
      if ltb 56 (n + 8) then (raise (credit_error fct_overflow), l.credit) else (
        ok tt,
        record l.credit { tx_credit = n + 8; fcts_received = l.credit.fcts_received + 1 },
      ) in
    let received : Outcome (Unit {0}) × CreditCounter → Link = λ r. elim r.0 [
      | ok _ ↦ record l { credit = r.1; tx_wakeup = true }
      | raise _ ↦ feed_fsm credit_err (record l { credit = r.1 })
    ] in
    subst (Becomes (record v { tx_credit = 8 }) l)
      (sym (ap (λ n. received (counted n)) (credit ∙ none)))
      (record {
        stands = (fsm, fct_sent, refl, rx_credit, limit, reached, idle);
        encoder = refl;
        decoder = refl;
      })

-- What `_tx_loop` does once a NULL or an FCT is driven.
tx_end-Becomes :
    (e : Event) (c : Character) (v : View) (l : Link)
    → tx_end c false l ≡ record (feed_fsm e l) { tx_task = looping }
    → Becomes v l (feed_fsm e l)
    → Becomes v l (tx_end c false l)
tx_end-Becomes e c v l is b =
    subst (Becomes v l) (sym is)
      (record { stands = b.stands; encoder = b.encoder; decoder = b.decoder })

-- A turn: the one end sends a character `c`, which leaves `m` behind as it is chosen, feeds `sent` to its
-- machine when it is driven, and the other end takes it in by `hears`.
module _ (l p m : Link) (c : Character) (v v' w w' : View) (sent : Event)
    (hears : Link → Link) where
  pub turn-Meets :
      Meets v w l p
      → (output v.fsm).tx_mode ≢ reset
      → next_char (output v.fsm).tx_mode l ≡ (ok (c, false), m)
      → (m.decoder ≡ l.decoder)
      → ((l : Link) → tx_end c false l ≡ record (feed_fsm sent l) { tx_task = looping })
      → ((c' : Character) (p : Link)
          → payload c' ≡ payload c
          → IsClean c'
          → dispatch c' p ≡ hears p)
      → ((e : Encoder) (task : TxTask)
          → let l = record m { encoder = e; tx_task = task } in Becomes v' l (feed_fsm sent l))
      → ((p : Link) → Stands w p → Becomes w' p (hears p))
      → Meets v' w' (exchange l p).0 (exchange l p).1
  turn-Meets meets active chooses kept ends hear_lem here there =
      let mode = ap (λ f. (output f).tx_mode) meets.here.0 in
      let x =
        exchange_lem l p m c false (λ h. active (sym mode ∙ h))
          (subst (All IsRequest) (sym meets.here.6.empty) tt)
          (ap (λ mode. next_char mode l) mode ∙ chooses) meets.out in
      let l₁ = record m { encoder = x.e'; tx_task = sending c false } in
      let p₁ = record p { decoder = x.d' } in
      let one = tx_end-Becomes sent c v' l₁ (ends l₁) (here x.e' (sending c false)) in
      let other = there p₁ meets.there in
      let heard : hears p₁ ≡ (exchange l p).1 = sym (x.peer ∙ hear_lem x.c' p₁ x.same x.clean) in
      let one' = subst (Becomes v' l₁) (sym x.sender) one in
      let other' = subst (Becomes w' p₁) heard other in
      record {
        out =
            subst (λ e. Synced e (exchange l p).1.decoder) (sym one'.encoder)
              (subst (Synced x.e') (sym other'.decoder) x.synced);
        back =
            subst (λ e. Synced e (exchange l p).0.decoder) (sym other'.encoder)
              (subst (Synced p.encoder) (sym (one'.decoder ∙ kept)) meets.back);
        here = one'.stands;
        there = other'.stands;
      }
