-- ===== src/Link/Transmit.antt =====
-- link.py: `_tx_loop` and `_next_char`.
use cocotbext_spacewire.Base.Int.{sub_ℕ}
use cocotbext_spacewire.Base.{
  ◌-◌, Bool, true, false, List, [], ◌∷◌, Bit, ◌==◌, if◌then◌else◌, length, Outcome, ok, raise,
  Method, ◌>>=◌, ◌>>◌, return, modify,
}
use cocotbext_spacewire.LinkFsm.{
  TxMode, reset, send_nulls, send_nulls_fcts, sent_null, sent_fct, output,
}
use cocotbext_spacewire.FlowControl.{
  CreditCounter, on_nchar_sent, can_send, on_fct_sent, should_send_fct,
}
use cocotbext_spacewire.Characters.Types.{CharType, fct, null, Character, plain}
use cocotbext_spacewire.Characters.Encoder.{Encoder, null_request, encode, character}
use cocotbext_spacewire.Link.State.{off, looping, parked, sending, Link}
use cocotbext_spacewire.Link.Fsm.{feed_fsm}

-- A method of the credit counter, called by the link.
unfoldable pub on_credit : {A : Type 0} → Method CreditCounter A → Method Link A
on_credit m l = let (r, credit) = m l.credit in (r, record l { credit = credit })

-- `try: self._credit.on_fct_sent() except RuntimeError: pass`
abbrev pub ignore : Method Link (Unit {0}) → Method Link (Unit {0})
ignore m l = (ok tt, (m l).1)

-- `_next_char` in Connecting.
unfoldable pub next_handshake_char : Method Link (Character × Bool)
next_handshake_char l =
    if l.only_nulls
    then (ok (null_request, false), l)
    else if l.fct_sent_this_connecting
    then (ok (null_request, false), l)
    else (ignore (on_credit on_fct_sent) >> return (plain fct, false))
        (record l { fct_sent_this_connecting = true })

-- The N-Char branch of `_next_char` in Run.
unfoldable pub next_nchar : List Character → Method Link (Character × Bool)
next_nchar [] l = (ok (null_request, false), l)
next_nchar (c ∷ queue) l =
    if can_send l.credit
    then (on_credit on_nchar_sent >> return (c, true)) (record l { tx_nchar_queue = queue })
    else (ok (null_request, false), l)

-- `_next_char` in Run: an FCT, an N-Char, or a NULL.
unfoldable pub next_run_char : Method Link (Character × Bool)
next_run_char l =
    let headroom = sub_ℕ l.rx_fifo_capacity_nchars (length l.rx_nchar_queue) in
    if should_send_fct headroom l.credit
    then (on_credit on_fct_sent >> return (plain fct, false)) l
    else next_nchar l.tx_nchar_queue l

-- `_next_char`; `_tx_loop` does not call it in `TxMode.RESET`.
unfoldable pub next_char : TxMode → Method Link (Character × Bool)
unfolding next_handshake_char next_run_char
next_char send_nulls = return (null_request, false)
next_char send_nulls_fcts = next_handshake_char
next_char _ = next_run_char

-- A method of the encoder, called by the link.
unfoldable pub on_encoder : {A : Type 0} → Method Encoder A → Method Link A
on_encoder m l = let (r, encoder) = m l.encoder in (r, record l { encoder = encoder })

-- An exception that leaves the coroutine.
abbrev pub end_task : {A : Type 0} → Outcome A × Link → Outcome A × Link
end_task (ok a, l) = (ok a, l)
end_task (raise e, l) = (raise e, record l { tx_task = off })

-- The character that `_tx_loop` sends next, with its bits.
unfoldable pub pick : TxMode → Method Link (List Bit)
pick mode = do
  chosen ← next_char mode
  bits ← on_encoder (encode (character chosen.0))
  modify (λ l. record l { tx_task = sending chosen.0 chosen.1 })
  return bits

-- `_tx_loop` from its top to its next wait, with the bits handed to the driver. An exception ends
-- the task.
unfoldable pub tx_begin : TxMode → Link → Outcome (List Bit) × Link
tx_begin reset l = (ok [], record l { tx_wakeup = false; tx_task = parked })
tx_begin mode l = end_task (pick mode l)

-- The top of the loop reads the mode.
unfoldable pub tx_loop : Method Link (List Bit)
unfolding tx_begin
tx_loop l = tx_begin (output l.fsm).tx_mode l

-- `_tx_wakeup` lets a parked loop go on.
unfoldable pub tx_wakes : Link → Link
tx_wakes l = elim l.tx_task [
  | parked ↦ if l.tx_wakeup then record l { tx_task = looping } else l
  | _ ↦ l
]

-- SENT_NULL and SENT_FCT, by the type of the character that has been driven.
abbrev pub feed_sent : CharType → Link → Link
feed_sent null l = feed_fsm sent_null l
feed_sent fct l = feed_fsm sent_fct l
feed_sent _ l = l

-- The count of the N-Chars that are not driven yet.
unfoldable pub mark_driven : Bool → Link → Link
mark_driven false l = l
mark_driven true l =
    let outstanding = l.tx_nchar_outstanding - 1 in
    record l {
      tx_nchar_outstanding = outstanding;
      tx_drained_evt = if outstanding == 0 then true else l.tx_drained_evt;
    }

-- `_tx_loop` behind `send_bits_and_wait`.
unfoldable pub tx_end : Character → Bool → Link → Link
unfolding mark_driven
tx_end c was_nchar_from_queue l = record (mark_driven was_nchar_from_queue (feed_sent c.type l)) {
  tx_task = looping;
}
