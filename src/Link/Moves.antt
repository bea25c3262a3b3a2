-- ===== src/Link/Moves.antt =====
-- link.py: one turn of a link in Run, by what it sends.
use cocotbext_spacewire.Base.{
  ℕ, suc, ◌+◌, ◌-◌, ◌≤◌, ◌<◌, ◌≡◌, ◌≢◌, ◌⊎◌, refl, sym, ap, ◌∙◌, subst, Bool, true, false, List, [],
  ◌∷◌, ◌++◌, All, length, ◌==◌, if◌then◌else◌, arith, ok,
}
use cocotbext_spacewire.LinkFsm.{
  run, sent_null, sent_fct, got_null, got_fct, got_n_char, reset, output, state_tx, feed,
}
use cocotbext_spacewire.Characters.Types.{Character, fct, plain}
use cocotbext_spacewire.Characters.Encoder.{null_request}
use cocotbext_spacewire.Characters.Delivery.{payload}
use cocotbext_spacewire.Characters.Requests.{IsRequest}
use cocotbext_spacewire.Link.State.{looping, sending, Link}
use cocotbext_spacewire.Link.Transmit.{next_char, next_run_char, tx_end, mark_driven}
use cocotbext_spacewire.Link.Receive.{receive_fct, receive_nchar}
use cocotbext_spacewire.Link.Exchange.{
  Exchanged, exchange, exchange_lem, null-dispatch, fct-dispatch,
}
use cocotbext_spacewire.Link.Running.{
  NoFct, null_sent, fct_sent, null_got, fct_got, n_char_got, feed_fsm-run, stays_in_run, sends_fct,
  sends_nchar, sends_null, run_choice,
}
use cocotbext_spacewire.Link.Arrivals.{
  receive_fct-ok, receive_nchar-ok, nchar-dispatch, feed_sent-nchar,
}
use cocotbext_spacewire.Link.Joined.{
  IsNChar, Stock, Joined, payloads, by_fct, by_nchar, by_null, Turned,
}

next_char-run :
    (l : Link) → l.fsm.state ≡ run → next_char (output l.fsm).tx_mode l ≡ next_run_char l
unfolding output next_char
next_char-run l h = ap (λ s. next_char (state_tx s) l) h

running-active : (l : Link) → l.fsm.state ≡ run → (output l.fsm).tx_mode ≢ reset
unfolding output
running-active l h e = let mode = sym (ap state_tx h) ∙ e in cc

sendable-requests : (cs : List Character) → All IsNChar cs → All IsRequest cs
sendable-requests [] h = tt
sendable-requests (c ∷ cs) h = (h.0.0, sendable-requests cs h.1)

-- An N-Char that goes from the one queue to the other.
moved_lem :
    (c c' : Character) (received queue : List Character)
    → payload c' ≡ payload c
    → payloads (received ++ c' ∷ []) ++ payloads queue ≡ payloads received ++ payloads (c ∷ queue)
moved_lem c c' [] queue h = ap (λ x. x ∷ payloads queue) h
moved_lem c c' (x ∷ received) queue h = ap (◌∷◌ (payload x)) (moved_lem c c' received queue h)

-- The last one of the queue sets the event.
drained_lem :
    (outstanding : ℕ) (queue : List Character) (drained : Bool)
    → outstanding ≡ suc (length queue)
    → queue ≡ []
    → (if outstanding - 1 == 0 then true else drained) ≡ true
drained_lem outstanding queue drained counted empty =
    ap (λ n. if n - 1 == 0 then true else drained) (counted ∙ ap (λ q. suc (length q)) empty)

module _ (l p : Link) (j : Joined l p) where
  exchanged :
      (c : Character) (queued : Bool) (m : Link)
      → next_run_char l ≡ (ok (c, queued), m)
      → Exchanged l p m c queued
  exchanged c queued m h =
      exchange_lem l p m c queued (running-active l j.runs)
        (sendable-requests l.tx_nchar_queue j.here.sendable) (next_char-run l j.runs ∙ h) j.out

  Turned-of :
      {l' p' : Link}
      → (exchange l p).0 ≡ l'
      → (exchange l p).1 ≡ p'
      → Turned l p l' p'
      → Turned l p (exchange l p).0 (exchange l p).1
  Turned-of is is' t =
      subst (λ l'. Turned l p l' (exchange l p).1) (sym is) (subst (Turned l p _) (sym is') t)

  -- A NULL.
  null-Turned :
      (l.tx_nchar_queue ≡ []) ⊎ (l.credit.tx_credit ≡ 0)
      → NoFct l
      → next_run_char l ≡ (ok (null_request, false), l)
      → Turned l p (exchange l p).0 (exchange l p).1
  unfolding tx_end mark_driven
  null-Turned idle none_due h =
      let x = exchanged null_request false l h in
      let l₁ = record l { encoder = x.e'; tx_task = sending null_request false } in
      let p₁ = record p { decoder = x.d' } in
      Turned-of
        (x.sender
          ∙ ap {A = Link} {B = Link} (λ l. record l { tx_task = looping })
              (feed_fsm-run sent_null l₁ null_sent j.runs))
        (x.peer
          ∙ null-dispatch x.c' p₁ x.same x.clean
          ∙ feed_fsm-run got_null p₁ null_got j.peer_runs)
        (record {
          joined = record {
            out = x.synced;
            back = j.back;
            runs = stays_in_run sent_null l.fsm null_sent j.runs;
            peer_runs = stays_in_run got_null p.fsm null_got j.peer_runs;
            here = j.here;
            there = j.there;
            granted = j.granted;
            grants = j.grants;
          };
          stream = refl;
          kept_tx = refl;
          kept_rx = refl;
          limit = refl;
          peer_limit = refl;
          peer_capacity = refl;
          capacity = refl;
          progress = by_null idle none_due refl refl refl;
        })

  -- An FCT, for which the peer has room in its credit.
  fct-Turned :
      l.credit.rx_credit + 8 ≤ l.credit.max_rx_credit
      → next_run_char l ≡ (
        ok (plain fct, false),
        record l {
          credit = record l.credit {
            rx_credit = l.credit.rx_credit + 8;
            fcts_sent = l.credit.fcts_sent + 1;
          };
        },
      )
      → Turned l p (exchange l p).0 (exchange l p).1
  unfolding tx_end mark_driven
  fct-Turned room h =
      let m = record l {
        credit = record l.credit {
          rx_credit = l.credit.rx_credit + 8;
          fcts_sent = l.credit.fcts_sent + 1;
        };
      } in
      let x = exchanged (plain fct) false m h in
      let l₁ = record m { encoder = x.e'; tx_task = sending (plain fct) false } in
      let p₁ = record p { decoder = x.d' } in
      let p₂ = record p₁ { fsm = feed got_fct p.fsm } in
      let cap : p.credit.tx_credit + 8 ≤ 56 =
        let g = j.grants in let c = j.here.capped in omega arith in
      Turned-of
        (x.sender
          ∙ ap {A = Link} {B = Link} (λ l. record l { tx_task = looping })
              (feed_fsm-run sent_fct l₁ fct_sent j.runs))
        (x.peer
          ∙ fct-dispatch x.c' p₁ x.same x.clean
          ∙ ap receive_fct (feed_fsm-run got_fct p₁ fct_got j.peer_runs)
          ∙ receive_fct-ok p₂ cap)
        (record {
          joined = record {
            out = x.synced;
            back = j.back;
            runs = stays_in_run sent_fct l.fsm fct_sent j.runs;
            peer_runs = stays_in_run got_fct p.fsm fct_got j.peer_runs;
            here = record {
              limited = room;
              capped = j.here.capped;
              sendable = j.here.sendable;
              counted = j.here.counted;
              emptied = j.here.emptied;
            };
            there = j.there;
            granted = j.granted;
            grants = ap (λ n. n + 8) j.grants;
          };
          stream = refl;
          kept_tx = refl;
          kept_rx = refl;
          limit = refl;
          peer_limit = refl;
          peer_capacity = refl;
          capacity = refl;
          progress = by_fct refl refl refl;
        })

  -- An N-Char, for which there is credit at both ends.
  nchar-Turned :
      (c : Character) (queue : List Character)
      → l.tx_nchar_queue ≡ c ∷ queue
      → 0 < l.credit.tx_credit
      → NoFct l
      → next_run_char l ≡ (
        ok (c, true),
        record l {
          tx_nchar_queue = queue;
          credit = record l.credit {
            tx_credit = l.credit.tx_credit - 1;
            nchars_sent = l.credit.nchars_sent + 1;
          };
        },
      )
      → Turned l p (exchange l p).0 (exchange l p).1
  unfolding tx_end mark_driven
  nchar-Turned c queue same credit none_due h =
      let m = record l {
        tx_nchar_queue = queue;
        credit = record l.credit {
          tx_credit = l.credit.tx_credit - 1;
          nchars_sent = l.credit.nchars_sent + 1;
        };
      } in
      let x = exchanged c true m h in
      let l₁ = record m { encoder = x.e'; tx_task = sending c true } in
      let p₁ = record p { decoder = x.d' } in
      let p₂ = record p₁ { fsm = feed got_n_char p.fsm } in
      let stock =
        subst
          (λ q.
            Stock l.credit.rx_credit l.credit.max_rx_credit q l.tx_nchar_outstanding
              l.tx_drained_evt)
          same j.here in
      let n_char = stock.sendable.0.1 in
      let more : 0 < p.credit.rx_credit = let g = j.granted in omega arith in
      let runs' = stays_in_run got_n_char p.fsm n_char_got j.peer_runs in
      Turned-of
        (x.sender
          ∙ ap {A = Link} {B = Link} (λ l. record (mark_driven true l) { tx_task = looping })
              (feed_sent-nchar c.type l₁ n_char))
        (x.peer
          ∙ nchar-dispatch c x.c' p₁ n_char x.same x.clean
          ∙ ap (receive_nchar x.c') (feed_fsm-run got_n_char p₁ n_char_got j.peer_runs)
          ∙ receive_nchar-ok x.c' p₂ runs' more)
        (record {
          joined = record {
            out = x.synced;
            back = j.back;
            runs = j.runs;
            peer_runs = runs';
            here = record {
              limited = j.here.limited;
              capped = j.here.capped;
              sendable = stock.sendable.1;
              counted = let n = stock.counted in omega arith;
              emptied = λ empty.
                  drained_lem l.tx_nchar_outstanding queue l.tx_drained_evt stock.counted empty;
            };
            there = record {
              limited = let g = j.there.limited in omega arith;
              capped = j.there.capped;
              sendable = j.there.sendable;
              counted = j.there.counted;
              emptied = j.there.emptied;
            };
            granted = ap (λ n. n - 1) j.granted;
            grants = j.grants;
          };
          stream =
              moved_lem c x.c' p.rx_nchar_queue queue x.same
              ∙ ap (λ q. payloads p.rx_nchar_queue ++ payloads q) (sym same);
          kept_tx = refl;
          kept_rx = refl;
          limit = refl;
          peer_limit = refl;
          peer_capacity = refl;
          capacity = refl;
          progress = by_nchar (rw same (omega arith)) refl (omega arith) none_due;
        })

  pub exchange-Turned : Turned l p (exchange l p).0 (exchange l p).1
  exchange-Turned = elim (run_choice l) [
    | sends_fct room h ↦ fct-Turned room h
    | sends_nchar c queue same credit none_due h ↦ nchar-Turned c queue same credit none_due h
    | sends_null idle none_due h ↦ null-Turned idle none_due h
  ]
