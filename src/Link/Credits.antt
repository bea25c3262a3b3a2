-- ===== src/Link/Credits.antt =====
-- link.py: the credit that a link keeps and spends.
use cocotbext_spacewire.Base.Int.{ℤ}
use cocotbext_spacewire.Base.{
  ℕ, ◌+◌, ◌≤◌, ◌<◌, ◌≡◌, ◌⊎◌, Bool, true, false, Option, none, List, [], ◌∷◌, arith, Bool-cases,
  Option-cases, Text, inl, inr, Outcome, Outcome-cases, ok, raise, if◌then◌else◌,
}
use cocotbext_spacewire.LinkFsm.{
  State, run, TxMode, send_nulls, send_nulls_fcts, Event, rx_err, credit_err, sent_null, sent_fct,
  link_disable, link_start, auto_start, Output, output, feed, state_eq,
}
use cocotbext_spacewire.FlowControl.Bounds.{
  Inv, call-Inv, init-Inv, fct_received, nchar_sent, fct_sent, nchar_received, resets,
}
use cocotbext_spacewire.FlowControl as Credit
use cocotbext_spacewire.FlowControl.{
  CreditCounter, should_send_fct, can_send, on_nchar_sent, on_fct_sent, reset, on_fct_received,
  on_nchar_received,
}
use cocotbext_spacewire.Characters.Encoder.{null_request}
use cocotbext_spacewire.Characters.Types.{plain, Character, CharType, null, fct}
use cocotbext_spacewire.Characters.Decoder as Decoders
use cocotbext_spacewire.Packet.{Item, packet}
use cocotbext_spacewire.Packet.Stream.{nchars_of, recv_packet, Received, waits, returns}
use cocotbext_spacewire.Link.State.{Timer, TxTask, looping, sending, Link, init, credit_limit}
use cocotbext_spacewire.Link.Fsm.{
  start_timer, cancel_timer, entered, on_state_change, feed_fsm, run_timer, timer_expires,
}
use cocotbext_spacewire.Link.Transmit.{
  next_char, next_nchar, on_credit, pick, on_encoder, tx_begin, tx_loop, tx_wakes, feed_sent,
  mark_driven, tx_end,
}
use cocotbext_spacewire.Link.Receive.{
  is_hard, receive_fct, receive_nchar, on_rx_character, event_of, dispatch, dispatch_all, feed_bit,
  watchdog,
}
use cocotbext_spacewire.Link.Api.{
  armed, start, disconnect, stop, enqueue_nchar, enqueue_nchars, send_char, send_packet,
  take_packet,
}
use cocotbext_spacewire.Link.Actions.{
  Action, timer_ends, tx_runs, tx_wakes_up, tx_driven, disconnects, stops, receives, samples, polls,
  sends_char, sends_packet, loop_step, driven_step, act, act_all,
}
use cocotbext_spacewire.Link.Timing.{feed_fsm-cases, stepped}

-- What the counters of `l` satisfy.
abbrev HasCredit : Link → Type 0
HasCredit l = Inv l.credit

entered-HasCredit : (s : State) (l : Link) → HasCredit l → HasCredit (entered s l)
unfolding entered
entered-HasCredit s l v = ground (arith, call-Inv resets l.credit v)

on_state_change-HasCredit :
    (out : Output) (l : Link) → HasCredit l → HasCredit (on_state_change out l)
unfolding on_state_change start_timer
on_state_change-HasCredit out l v = ground (arith, call-Inv resets l.credit v)

feed_fsm-HasCredit : (e : Event) (l : Link) → HasCredit l → HasCredit (feed_fsm e l)
feed_fsm-HasCredit e l v =
    feed_fsm-cases HasCredit e l (λ same. v)
      (λ changed. on_state_change-HasCredit (output (feed e l.fsm)) (stepped e l) v)

receive_fct-HasCredit : (l : Link) → HasCredit l → HasCredit (receive_fct l)
unfolding receive_fct
receive_fct-HasCredit l v =
    let c = call-Inv fct_received l.credit v in
    elim (Outcome-cases (on_fct_received l.credit).0) [
      | inl (u, e) ↦ rw (e, receive_fct) c
      | inr (x, e) ↦
          rw (e, receive_fct)
            (feed_fsm-HasCredit credit_err (record l { credit = (on_fct_received l.credit).1 }) c)
    ]

receive_nchar-HasCredit : (c : Character) (l : Link) → HasCredit l → HasCredit (receive_nchar c l)
unfolding receive_nchar
receive_nchar-HasCredit c l v =
    let k = call-Inv nchar_received l.credit v in
    elim (Bool-cases (state_eq l.fsm.state run)) [
      | inr out ↦ rw out v
      | inl here ↦ rw here (elim (Outcome-cases (on_nchar_received l.credit).0) [
        | inl (u, e) ↦ rw (e, receive_nchar) k
        | inr (x, e) ↦
            rw (e, receive_nchar)
              (feed_fsm-HasCredit credit_err (record l { credit = (on_nchar_received l.credit).1 })
                k)
      ])
    ]

on_rx_character-HasCredit :
    (c : Character) (l : Link) → HasCredit l → HasCredit (on_rx_character c l)
unfolding on_rx_character
on_rx_character-HasCredit c l v =
    ground (arith, receive_fct-HasCredit l v, receive_nchar-HasCredit c l v)

dispatch-HasCredit : (c : Character) (l : Link) → HasCredit l → HasCredit (dispatch c l)
unfolding dispatch
dispatch-HasCredit c l v = elim (Bool-cases (is_hard c.error)) [
  | inl h ↦ rw h (feed_fsm-HasCredit rx_err l v)
  | inr h ↦ rw h (elim (Option-cases (event_of c.type)) [
    | inl e ↦ rw e v
    | inr (event, e) ↦
        rw e (on_rx_character-HasCredit c (feed_fsm event l) (feed_fsm-HasCredit event l v))
  ])
]

dispatch_all-HasCredit :
    (cs : List Character) (l : Link) → HasCredit l → HasCredit (dispatch_all cs l)
unfolding dispatch_all
dispatch_all-HasCredit [] l v = v
dispatch_all-HasCredit (c ∷ cs) l v =
    dispatch_all-HasCredit cs (dispatch c l) (dispatch-HasCredit c l v)

feed_bit-HasCredit : (b : ℤ) (l : Link) → HasCredit l → HasCredit (feed_bit b l).1
unfolding feed_bit
feed_bit-HasCredit b l v = elim (Outcome-cases (Decoders.feed b none l.decoder).0) [
  | inl (cs, e) ↦
      rw (e, feed_bit)
        (dispatch_all-HasCredit cs (record l { decoder = (Decoders.feed b none l.decoder).1 }) v)
  | inr (x, e) ↦ rw (e, feed_bit) v
]

-- A choice of `_next_char` that leaves the link `m`: the first character of the queue, which costs one
-- unit of credit; or an FCT or a NULL, which leave the queue and the transmit credit.
abbrev pub Chosen : Link → Outcome (Character × Bool) → Link → Type 0
Chosen l (ok (c, true)) m =
    (l.tx_nchar_queue ≡ c ∷ m.tx_nchar_queue) × (l.credit.tx_credit ≡ m.credit.tx_credit + 1)
Chosen l (ok (c, false)) m =
    (m.tx_nchar_queue ≡ l.tx_nchar_queue)
    × (m.credit.tx_credit ≡ l.credit.tx_credit)
    × ((c ≡ plain fct) ⊎ (c ≡ null_request))
Chosen l (raise e) m = ⊥

-- What a mode lets `_next_char` choose, and when it is only a NULL.
abbrev pub Permitted : TxMode → Link → Outcome (Character × Bool) → Type 0
Permitted mode l (raise e) = ⊥
Permitted send_nulls l (ok (c, taken)) = (c ≡ null_request) × (taken ≡ false)
Permitted send_nulls_fcts l (ok (c, taken)) =
    ((c ≡ plain fct) × (l.only_nulls ≡ false) × (l.fct_sent_this_connecting ≡ false)
      ⊎ (c ≡ null_request) × ((l.only_nulls ≡ true) ⊎ (l.fct_sent_this_connecting ≡ true)))
    × (taken ≡ false)
Permitted _ l (ok (c, true)) = 0 < l.credit.tx_credit
Permitted _ l (ok (c, false)) =
    (c ≡ plain fct) × (l.credit.rx_credit + 8 ≤ l.credit.max_rx_credit)
    ⊎ (c ≡ null_request) × ((l.tx_nchar_queue ≡ []) ⊎ (l.credit.tx_credit ≡ 0))

-- In every mode and state `_next_char` chooses a character: the guards in front of the counters' calls
-- are exact, and no exception ends the transmit loop here. It is the first character of the queue, for
-- one unit of credit, or an FCT or a NULL, which leave the queue and the transmit credit. In SEND_NULLS
-- it is a NULL; in SEND_NULLS_FCTS the FCT, if it is not sent yet and `only_nulls` is off, and else a
-- NULL; in the other modes an FCT only where the receive credit stays within its limit, and a NULL only
-- where the queue is empty or the transmit credit is 0.
pub next_char_lem :
    (mode : TxMode) (l : Link)
    → Chosen l (next_char mode l).0 (next_char mode l).1 × Permitted mode l (next_char mode l).0
unfolding next_char next_nchar on_credit on_fct_sent on_nchar_sent should_send_fct can_send
next_char_lem mode l = ground arith

next_char-HasCredit : (mode : TxMode) (l : Link) → HasCredit l → HasCredit (next_char mode l).1
unfolding next_char next_nchar on_credit
next_char-HasCredit mode l v =
    ground (arith, call-Inv fct_sent l.credit v, call-Inv nchar_sent l.credit v)

tx_begin-HasCredit : (mode : TxMode) (l : Link) → HasCredit l → HasCredit (tx_begin mode l).1
unfolding tx_begin pick on_encoder
tx_begin-HasCredit mode l v = ground (arith, next_char-HasCredit mode l v)

loop_step-HasCredit : (task : TxTask) (l : Link) → HasCredit l → HasCredit (loop_step task l)
unfolding loop_step tx_loop
loop_step-HasCredit looping l v = tx_begin-HasCredit (output l.fsm).tx_mode l v
loop_step-HasCredit _ l v = v

feed_sent-HasCredit : (c : CharType) (l : Link) → HasCredit l → HasCredit (feed_sent c l)
feed_sent-HasCredit null l v = feed_fsm-HasCredit sent_null l v
feed_sent-HasCredit fct l v = feed_fsm-HasCredit sent_fct l v
feed_sent-HasCredit _ l v = v

driven_step-HasCredit : (task : TxTask) (l : Link) → HasCredit l → HasCredit (driven_step task l)
unfolding driven_step tx_end mark_driven
driven_step-HasCredit (sending c true) l v = feed_sent-HasCredit c.type l v
driven_step-HasCredit (sending c false) l v = feed_sent-HasCredit c.type l v
driven_step-HasCredit _ l v = v

run_timer-HasCredit : (x : Timer) (l : Link) → HasCredit l → HasCredit (run_timer x l)
unfolding run_timer
run_timer-HasCredit x l v = ground (arith, feed_fsm-HasCredit x.event l v)

timer_expires-HasCredit : (l : Link) → HasCredit l → HasCredit (timer_expires l)
unfolding timer_expires
timer_expires-HasCredit l v = elim (Option-cases l.timer_task) [
  | inl e ↦ rw (e, timer_expires) v
  | inr (x, e) ↦ rw (e, timer_expires) (run_timer-HasCredit x (record l { timer_task = none }) v)
]

enqueue_nchars-HasCredit :
    (cs : List Character) (l : Link) → HasCredit l → HasCredit (enqueue_nchars cs l)
unfolding enqueue_nchars enqueue_nchar
enqueue_nchars-HasCredit [] l v = v
enqueue_nchars-HasCredit (c ∷ cs) l v = enqueue_nchars-HasCredit cs (enqueue_nchar c l) v

send_packet-HasCredit :
    (items : List Item) (terminator : Text) (l : Link)
    → HasCredit l
    → HasCredit (send_packet items terminator l).1
unfolding send_packet
send_packet-HasCredit items terminator l v = elim (Outcome-cases (packet items terminator)) [
  | inl (p, e) ↦ rw (e, send_packet) (enqueue_nchars-HasCredit (nchars_of p) l v)
  | inr (x, e) ↦ rw (e, send_packet) v
]

take_packet-HasCredit : (r : Received) (l : Link) → HasCredit l → HasCredit (take_packet r l).1
unfolding take_packet
take_packet-HasCredit (waits items) l v = v
take_packet-HasCredit (returns r queue) l v = v

act-HasCredit : (a : Action) (l : Link) → HasCredit l → HasCredit (act a l)
unfolding act tx_wakes disconnect stop cancel_timer watchdog send_char enqueue_nchar
act-HasCredit timer_ends l v = timer_expires-HasCredit l v
act-HasCredit tx_runs l v = loop_step-HasCredit l.tx_task l v
act-HasCredit tx_wakes_up l v = ground arith
act-HasCredit tx_driven l v = driven_step-HasCredit l.tx_task l v
act-HasCredit disconnects l v = feed_fsm-HasCredit link_disable l v
act-HasCredit stops l v = v
act-HasCredit receives l v = take_packet-HasCredit (recv_packet l.rx_nchar_queue) l v
act-HasCredit (samples b) l v = feed_bit-HasCredit b l v
act-HasCredit (polls disconnected) l v = ground (arith, feed_fsm-HasCredit rx_err l v)
act-HasCredit (sends_char c) l v = ground arith
act-HasCredit (sends_packet items terminator) l v = send_packet-HasCredit items terminator l v

act_all-HasCredit : (actions : List Action) (l : Link) → HasCredit l → HasCredit (act_all actions l)
unfolding act_all
act_all-HasCredit [] l v = v
act_all-HasCredit (x ∷ more) l v = act_all-HasCredit more (act x l) (act-HasCredit x l v)

if_fed-HasCredit :
    (b : Bool) (e : Event) (l : Link) → HasCredit l → HasCredit (if b then feed_fsm e l else l)
if_fed-HasCredit true e l v = feed_fsm-HasCredit e l v
if_fed-HasCredit false e l v = v

start-HasCredit : (l : Link) → l.is_started ≡ false → HasCredit l → HasCredit (start l).1
unfolding start start_timer
start-HasCredit l h v =
    let l₂ = armed l in
    let l₃ : Link = if l.pending_auto_start then feed_fsm auto_start l₂ else l₂ in
    rw h (
      if_fed-HasCredit l₃.pending_link_start link_start l₃
        (if_fed-HasCredit l.pending_auto_start auto_start l₂ v))

module _ (bit_rate : ℕ) (wants_start wants_auto only_nulls : Bool) (rx_fifo_capacity : ℤ)
    (max_rx_credit : Option ℤ) where
  init-credit :
      {l : Link}
      → init bit_rate wants_start wants_auto only_nulls rx_fifo_capacity max_rx_credit ≡ ok l
      → (Credit.init (credit_limit rx_fifo_capacity max_rx_credit) ≡ ok l.credit)
        × (l.is_started ≡ false)
  unfolding init
  init-credit h = ground arith

  -- After any sequence of actions, of which another start is none, on a link that was built and started,
  -- both credits are within their caps, no more N-Chars have been sent than 8 for each FCT received, and
  -- no more received than 8 for each FCT sent.
  pub act_all-credit :
      (actions : List Action) {l : Link}
      → init bit_rate wants_start wants_auto only_nulls rx_fifo_capacity max_rx_credit ≡ ok l
      → Inv (act_all actions (start l).1).credit
  act_all-credit actions {l} h =
      let (c, new) = init-credit h in
      act_all-HasCredit actions (start l).1
        (start-HasCredit l new (init-Inv (credit_limit rx_fifo_capacity max_rx_credit) c))
