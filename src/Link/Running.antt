-- ===== src/Link/Running.antt =====
-- link.py: one turn of a link in Run, whose peer is in Run as well.
use cocotbext_spacewire.Base.Int.{ℤ, sub_ℕ}
use cocotbext_spacewire.Base.{
  ◌+◌, ◌-◌, ◌≤◌, ◌<◌, ◌≡◌, ◌⊎◌, inl, inr, refl, ap₂, ◌∙◌, true, false, Bool-cases, List, [], ◌∷◌,
  length, arith, ok,
}
use cocotbext_spacewire.LinkFsm.{
  run, LinkFsm, Event, sent_null, sent_fct, got_null, got_fct, got_n_char, update_flags, handler,
  feed, state_eq,
}
use cocotbext_spacewire.LinkFsm.Feed.{feed-eq-after}
use cocotbext_spacewire.LinkFsm.Handshake.{next}
use cocotbext_spacewire.FlowControl.{
  CreditCounter, on_fct_sent, on_nchar_sent, should_send_fct, can_send,
}
use cocotbext_spacewire.Characters.Types.{Character, fct, plain}
use cocotbext_spacewire.Characters.Encoder.{null_request}
use cocotbext_spacewire.Link.State.{Link}
use cocotbext_spacewire.Link.Fsm.{feed_fsm}
use cocotbext_spacewire.Link.Transmit.{next_run_char, next_nchar, on_credit}
use cocotbext_spacewire.Link.Exchange.{feed_fsm-stays}

-- The events of Run that two links without faults have.
pub data RunEvent : Event → Type 0 where
  null_sent : RunEvent sent_null
  fct_sent : RunEvent sent_fct
  null_got : RunEvent got_null
  fct_got : RunEvent got_fct
  n_char_got : RunEvent got_n_char

stays_next : (e : Event) (f : LinkFsm) → RunEvent e → f.state ≡ run → (next e f).state ≡ run
unfolding update_flags handler
stays_next e f null_sent h = ground arith
stays_next e f fct_sent h = ground arith
stays_next e f null_got h = ground arith
stays_next e f fct_got h = ground arith
stays_next e f n_char_got h = ground arith

pub stays_in_run : (e : Event) (f : LinkFsm) → RunEvent e → f.state ≡ run → (feed e f).state ≡ run
stays_in_run e f r h = rw (feed-eq-after e f) (stays_next e f r h)

pub feed_fsm-run :
    (e : Event) (l : Link)
    → RunEvent e
    → l.fsm.state ≡ run
    → feed_fsm e l ≡ record l { fsm = feed e l.fsm }
feed_fsm-run e l r h = feed_fsm-stays e l refl refl (ap₂ state_eq (stays_in_run e l.fsm r h) h)

-- There is no FCT to send.
abbrev pub headroom : Link → ℤ
headroom l = sub_ℕ l.rx_fifo_capacity_nchars (length l.rx_nchar_queue)

abbrev pub NoFct : Link → Type 0
NoFct l = should_send_fct (headroom l) l.credit ≡ false

-- What `_next_char` chooses in Run: an FCT, with room for it under the credit limit; an N-Char, with
-- credit; or a NULL, without credit or without an N-Char to send.
pub data RunChoice (l : Link) : Type 0 where
  sends_fct :
      l.credit.rx_credit + 8 ≤ l.credit.max_rx_credit
      → next_run_char l ≡ (
        ok (plain fct, false),
        record l {
          credit = record l.credit {
            rx_credit = l.credit.rx_credit + 8;
            fcts_sent = l.credit.fcts_sent + 1;
          };
        },
      )
      → RunChoice l
  sends_nchar :
      (c : Character) (queue : List Character)
      → l.tx_nchar_queue ≡ c ∷ queue
      → 0 < l.credit.tx_credit
      → NoFct l
      → next_run_char l ≡ (
        ok (c, true),
        record l {
          tx_nchar_queue = queue;
          credit = record l.credit {
            tx_credit = l.credit.tx_credit - 1;
            nchars_sent = l.credit.nchars_sent + 1;
          };
        },
      )
      → RunChoice l
  sends_null :
      (l.tx_nchar_queue ≡ []) ⊎ (l.credit.tx_credit ≡ 0)
      → NoFct l
      → next_run_char l ≡ (ok (null_request, false), l)
      → RunChoice l

on_fct_sent-ok :
    (s : CreditCounter)
    → s.rx_credit + 8 ≤ s.max_rx_credit
    → on_fct_sent s ≡ (ok tt, record s { rx_credit = s.rx_credit + 8; fcts_sent = s.fcts_sent + 1 })
unfolding on_fct_sent
on_fct_sent-ok s h = ground arith

on_nchar_sent-ok :
    (s : CreditCounter)
    → 0 < s.tx_credit
    → on_nchar_sent s
      ≡ (ok tt, record s { tx_credit = s.tx_credit - 1; nchars_sent = s.nchars_sent + 1 })
unfolding on_nchar_sent
on_nchar_sent-ok s h = ground arith

can_send-credit : (s : CreditCounter) → can_send s ≡ true → 0 < s.tx_credit
unfolding can_send
can_send-credit s h = ground arith

can_send-none : (s : CreditCounter) → can_send s ≡ false → s.tx_credit ≡ 0
unfolding can_send
can_send-none s h = ground arith

should_send_fct-room :
    (headroom : ℤ) (s : CreditCounter)
    → should_send_fct headroom s ≡ true
    → s.rx_credit + 8 ≤ s.max_rx_credit
unfolding should_send_fct
should_send_fct-room headroom s h = ground arith

module _ (l : Link) where
  choose_nchar :
      (queue : List Character)
      → l.tx_nchar_queue ≡ queue
      → NoFct l
      → next_run_char l ≡ next_nchar queue l
      → RunChoice l
  unfolding next_nchar on_credit
  choose_nchar [] empty none_due h = sends_null (inl empty) none_due h
  choose_nchar (c ∷ queue) same none_due h = elim (Bool-cases (can_send l.credit)) [
    | inl credit ↦
        let more = can_send-credit l.credit credit in
        sends_nchar c queue same more none_due
          (h ∙ rw (credit, next_nchar) (rw (on_nchar_sent-ok l.credit more) refl))
    | inr no_credit ↦
        sends_null (inr (can_send-none l.credit no_credit)) none_due
          (h ∙ rw (no_credit, next_nchar) refl)
  ]

  pub run_choice : RunChoice l
  unfolding next_run_char on_credit
  run_choice =
      let headroom = sub_ℕ l.rx_fifo_capacity_nchars (length l.rx_nchar_queue) in
      elim (Bool-cases (should_send_fct headroom l.credit)) [
        | inl grants ↦
            let room = should_send_fct-room headroom l.credit grants in
            sends_fct room (rw (grants, next_run_char) (rw (on_fct_sent-ok l.credit room) refl))
        | inr no_fct ↦ choose_nchar l.tx_nchar_queue refl no_fct (rw (no_fct, next_run_char) refl)
      ]
