-- ===== src/Link/Arrivals.antt =====
-- link.py: an FCT and an N-Char, as they are taken in by a link in Run.
use cocotbext_spacewire.Base.{
  ◌+◌, ◌-◌, ◌≤◌, ◌<◌, ◌≡◌, refl, ap, ap₂, ◌∙◌, true, none, [], ◌∷◌, ◌++◌, if◌then◌else◌, arith,
  Outcome, ok, raise,
}
use cocotbext_spacewire.LinkFsm.{State, run, credit_err, got_n_char, state_eq}
use cocotbext_spacewire.FlowControl.{CreditCounter, on_fct_received, on_nchar_received}
use cocotbext_spacewire.Characters.Types.{CharType, data_char, eop, eep, Character, is_n_char_type}
use cocotbext_spacewire.Characters.Delivery.{payload}
use cocotbext_spacewire.Characters.RoundTrip.{IsClean}
use cocotbext_spacewire.Link.State.{Link}
use cocotbext_spacewire.Link.Fsm.{feed_fsm}
use cocotbext_spacewire.Link.Transmit.{feed_sent}
use cocotbext_spacewire.Link.Receive.{dispatch, on_rx_character, receive_fct, receive_nchar}
use cocotbext_spacewire.Link.Exchange.{dispatched}

on_fct_received-ok :
    (s : CreditCounter)
    → s.tx_credit + 8 ≤ 56
    → on_fct_received s
      ≡ (ok tt, record s { tx_credit = s.tx_credit + 8; fcts_received = s.fcts_received + 1 })
unfolding on_fct_received
on_fct_received-ok s h = ground arith

on_nchar_received-ok :
    (s : CreditCounter)
    → 0 < s.rx_credit
    → on_nchar_received s
      ≡ (ok tt, record s { rx_credit = s.rx_credit - 1; nchars_received = s.nchars_received + 1 })
unfolding on_nchar_received
on_nchar_received-ok s h = ground arith

-- An FCT that fits under the cap.
pub receive_fct-ok :
    (l : Link)
    → l.credit.tx_credit + 8 ≤ 56
    → receive_fct l ≡ record l {
      credit = record l.credit {
        tx_credit = l.credit.tx_credit + 8;
        fcts_received = l.credit.fcts_received + 1;
      };
      tx_wakeup = true;
    }
unfolding receive_fct
receive_fct-ok l h =
    ap
      (λ (r : Outcome (Unit {0}) × CreditCounter).
        let (r, credit) = r in
        elim r as (λ _. Link) [
          | ok _ ↦ record l { credit = credit; tx_wakeup = true }
          | raise _ ↦ feed_fsm credit_err (record l { credit = credit })
        ])
      (on_fct_received-ok l.credit h)

-- An N-Char in Run, for which there is credit.
pub receive_nchar-ok :
    (c : Character) (l : Link)
    → l.fsm.state ≡ run
    → 0 < l.credit.rx_credit
    → receive_nchar c l ≡ record l {
      credit = record l.credit {
        rx_credit = l.credit.rx_credit - 1;
        nchars_received = l.credit.nchars_received + 1;
      };
      rx_nchar_queue = l.rx_nchar_queue ++ c ∷ [];
    }
unfolding receive_nchar
receive_nchar-ok c l here h =
    ap₂
      (λ (s : State) (r : Outcome (Unit {0}) × CreditCounter).
        let received : Link = elim r.0 as (λ _. Link) [
          | ok _ ↦ record l { credit = r.1; rx_nchar_queue = l.rx_nchar_queue ++ c ∷ [] }
          | raise _ ↦ feed_fsm credit_err (record l { credit = r.1 })
        ] in
        if state_eq s run then received else l)
      here (on_nchar_received-ok l.credit h)

dispatched-nchar :
    (c : Character) (l : Link) (type : CharType)
    → is_n_char_type type ≡ true
    → dispatched c l none type ≡ receive_nchar c (feed_fsm got_n_char l)
unfolding dispatched is_n_char_type
dispatched-nchar c l data_char h = refl
dispatched-nchar c l eop h = refl
dispatched-nchar c l eep h = refl
dispatched-nchar c l _ h = absurd cc

-- An N-Char without an error, dispatched.
pub nchar-dispatch :
    (c c' : Character) (l : Link)
    → is_n_char_type c.type ≡ true
    → payload c' ≡ payload c
    → IsClean c'
    → dispatch c' l ≡ receive_nchar c' (feed_fsm got_n_char l)
unfolding dispatch on_rx_character dispatched
nchar-dispatch c c' l n same clean =
    ap₂ (dispatched c' l) clean.0 (ap (λ r. r.0) same) ∙ dispatched-nchar c' l c.type n

-- An N-Char that has been driven feeds no event.
pub feed_sent-nchar :
    (type : CharType) (l : Link) → is_n_char_type type ≡ true → feed_sent type l ≡ l
unfolding is_n_char_type
feed_sent-nchar data_char l h = refl
feed_sent-nchar eop l h = refl
feed_sent-nchar eep l h = refl
feed_sent-nchar _ l h = absurd cc
