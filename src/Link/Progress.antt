-- ===== src/Link/Progress.antt =====
-- link.py: what a link does with `_run_reached`, `_error_reset_entered` and the count of ErrorResets.
use cocotbext_spacewire.Base.{
  ◌+◌, ◌≡◌, refl, Bool, true, false, none, List, [], ◌∷◌, arith, Option-cases, inl, inr,
  Outcome-cases, Text,
}
use cocotbext_spacewire.LinkFsm.{
  TxMode, Event, State, error_reset, run, link_disable, sent_null, sent_fct, Output, output, feed,
}
use cocotbext_spacewire.Characters.Types.{Character, CharType, null, fct}
use cocotbext_spacewire.Packet.{Item, packet}
use cocotbext_spacewire.Packet.Stream.{nchars_of, recv_packet, Received, waits, returns}
use cocotbext_spacewire.Link.State.{TxTask, looping, sending, Link}
use cocotbext_spacewire.Link.Fsm.{
  start_timer, cancel_timer, on_state_change, feed_fsm, run_timer, timer_expires,
}
use cocotbext_spacewire.Link.Transmit.{
  next_char, next_nchar, on_credit, pick, on_encoder, tx_begin, tx_loop, tx_wakes, feed_sent,
  mark_driven, tx_end,
}
use cocotbext_spacewire.Link.Api.{
  disconnect, stop, enqueue_nchar, enqueue_nchars, send_char, send_packet, take_packet,
}
use cocotbext_spacewire.Link.Actions.{
  Action, timer_ends, tx_runs, tx_wakes_up, tx_driven, disconnects, stops, receives, samples, polls,
  sends_char, sends_packet, loop_step, driven_step, act, act_all,
}
use cocotbext_spacewire.Link.Keeps.{feed_bit-keeps, watchdog-keeps}
use cocotbext_spacewire.Link.Timing.{feed_fsm-cases, stepped}

-- The marks that a link has left are those of another.
abbrev pub SameMarks : Link → Link → Type 0
SameMarks l m =
    (m.run_reached ≡ l.run_reached)
    × (m.error_reset_entered ≡ l.error_reset_entered)
    × (m.error_reset_count ≡ l.error_reset_count)

-- What a state's entry makes of the marks.
abbrev pub marked : State → Link → Link
marked error_reset l = record l {
  error_reset_count = l.error_reset_count + 1;
  error_reset_entered = true;
}
marked run l = record l { run_reached = true }
marked s l = l

on_state_change-marked :
    (out : Output) (l : Link) → SameMarks (marked out.state l) (on_state_change out l)
unfolding on_state_change start_timer
on_state_change-marked out l = ground arith

next_char-marks : (mode : TxMode) (l : Link) → SameMarks l (next_char mode l).1
unfolding next_char next_nchar on_credit
next_char-marks mode l = ground arith

tx_begin-marks : (mode : TxMode) (l : Link) → SameMarks l (tx_begin mode l).1
unfolding tx_begin pick on_encoder
tx_begin-marks mode l = ground (arith, next_char-marks mode l)

enqueue_nchars-marks : (cs : List Character) (l : Link) → SameMarks l (enqueue_nchars cs l)
unfolding enqueue_nchars enqueue_nchar
enqueue_nchars-marks [] l = (refl, refl, refl)
enqueue_nchars-marks (c ∷ cs) l = enqueue_nchars-marks cs (enqueue_nchar c l)

send_packet-marks :
    (items : List Item) (terminator : Text) (l : Link)
    → SameMarks l (send_packet items terminator l).1
unfolding send_packet
send_packet-marks items terminator l = elim (Outcome-cases (packet items terminator)) [
  | inl (p, e) ↦ rw (e, send_packet) (enqueue_nchars-marks (nchars_of p) l)
  | inr (x, e) ↦ rw (e, send_packet) (refl, refl, refl)
]

take_packet-marks : (r : Received) (l : Link) → SameMarks l (take_packet r l).1
unfolding take_packet
take_packet-marks (waits items) l = (refl, refl, refl)
take_packet-marks (returns r queue) l = (refl, refl, refl)

loop_step-marks : (task : TxTask) (l : Link) → SameMarks l (loop_step task l)
unfolding loop_step tx_loop
loop_step-marks looping l = tx_begin-marks (output l.fsm).tx_mode l
loop_step-marks _ l = (refl, refl, refl)

tx_wakes-marks : (l : Link) → SameMarks l (tx_wakes l)
unfolding tx_wakes
tx_wakes-marks l = ground arith

tx_end-marks :
    (c : Character) (queued : Bool) (l : Link) → SameMarks (feed_sent c.type l) (tx_end c queued l)
unfolding tx_end mark_driven
tx_end-marks c true l = (refl, refl, refl)
tx_end-marks c false l = (refl, refl, refl)

-- A property of the marks, kept by the entry of every state.
module _ (P : Link → Type 0) (ext : (l m : Link) → SameMarks l m → P l → P m)
    (enters : (s : State) (l : Link) → P l → P (marked s l)) where
  fed : (e : Event) (l : Link) → P l → P (feed_fsm e l)
  fed e l p =
      let l' = stepped e l in
      let out = output (feed e l.fsm) in
      feed_fsm-cases P e l (λ same. ext l l' (refl, refl, refl) p)
        (λ changed.
          ext (marked out.state l') (on_state_change out l') (on_state_change-marked out l')
            (enters out.state l' (ext l l' (refl, refl, refl) p)))

  timer_expires-keeps : (l : Link) → P l → P (timer_expires l)
  unfolding timer_expires run_timer
  timer_expires-keeps l p = elim (Option-cases l.timer_task) [
    | inl e ↦ rw (e, timer_expires) p
    | inr (x, e) ↦
        let l' = record l { timer_task = none } in
        let p' = ext l l' (refl, refl, refl) p in
        rw (e, timer_expires) (ground (arith, p', fed x.event l' p'))
  ]

  feed_sent-keeps : (c : CharType) (l : Link) → P l → P (feed_sent c l)
  feed_sent-keeps null l p = fed sent_null l p
  feed_sent-keeps fct l p = fed sent_fct l p
  feed_sent-keeps _ l p = p

  driven_step-keeps : (task : TxTask) (l : Link) → P l → P (driven_step task l)
  unfolding driven_step
  driven_step-keeps (sending c queued) l p =
      ext (feed_sent c.type l) (tx_end c queued l) (tx_end-marks c queued l)
        (feed_sent-keeps c.type l p)
  driven_step-keeps _ l p = p

  act-keeps : (a : Action) (l : Link) → P l → P (act a l)
  unfolding act disconnect stop cancel_timer send_char enqueue_nchar
  act-keeps timer_ends l p = timer_expires-keeps l p
  act-keeps tx_runs l p = ext l _ (loop_step-marks l.tx_task l) p
  act-keeps tx_wakes_up l p = ext l _ (tx_wakes-marks l) p
  act-keeps tx_driven l p = driven_step-keeps l.tx_task l p
  act-keeps disconnects l p = fed link_disable l p
  act-keeps stops l p = ext l _ (refl, refl, refl) p
  act-keeps receives l p = ext l _ (take_packet-marks (recv_packet l.rx_nchar_queue) l) p
  act-keeps (samples v) l p =
      feed_bit-keeps P fed (λ credit queue wakeup decoder l p. ext l _ (refl, refl, refl) p) v l p
  act-keeps (polls disconnected) l p =
      watchdog-keeps P fed (λ credit queue wakeup decoder l p. ext l _ (refl, refl, refl) p)
        disconnected l p
  act-keeps (sends_char c) l p = ground (arith, ext l (enqueue_nchar c l) (refl, refl, refl) p)
  act-keeps (sends_packet items terminator) l p = ext l _ (send_packet-marks items terminator l) p

  -- Every sequence of actions keeps it.
  pub act_all-keeps : (actions : List Action) (l : Link) → P l → P (act_all actions l)
  unfolding act_all
  act_all-keeps [] l p = p
  act_all-keeps (a ∷ more) l p = act_all-keeps more (act a l) (act-keeps a l p)
