-- ===== src/Link/Sending.antt =====
-- link.py: what `_tx_drained_evt` says of the characters handed to a link.
use cocotbext_spacewire.Base.Int.{ℤ}
use cocotbext_spacewire.Base.{
  ℕ, ◌+◌, ◌≤◌, ◌≡◌, ◌↔◌, refl, ◌∙◌, Bool, true, false, Option, none, List, [], ◌∷◌, ◌++◌, length,
  length-append, arith, Option-cases, Text, inl, inr, Outcome, Outcome-cases, ok, raise,
  if◌then◌else◌,
}
use cocotbext_spacewire.LinkFsm.{
  TxMode, Event, rx_err, sent_null, sent_fct, link_disable, link_start, auto_start, Output, output,
  feed,
}
use cocotbext_spacewire.Characters.Types.{Character, CharType, null, fct}
use cocotbext_spacewire.Packet.{Item, packet}
use cocotbext_spacewire.Packet.Stream.{nchars_of, recv_packet, Received, waits, returns}
use cocotbext_spacewire.Link.State.{Timer, TxTask, off, looping, sending, Link, init}
use cocotbext_spacewire.Link.Fsm.{
  start_timer, cancel_timer, on_state_change, feed_fsm, run_timer, timer_expires,
}
use cocotbext_spacewire.Link.Transmit.{
  next_char, next_nchar, on_credit, pick, on_encoder, tx_begin, tx_loop, tx_wakes, feed_sent,
  mark_driven, tx_end,
}
use cocotbext_spacewire.Link.Receive.{feed_bit, watchdog}
use cocotbext_spacewire.Link.Keeps.{feed_bit-keeps}
use cocotbext_spacewire.Link.Api.{
  armed, start, disconnect, stop, enqueue_nchar, enqueue_nchars, send_char, send_packet,
  take_packet,
}
use cocotbext_spacewire.Link.Actions.{
  Action, timer_ends, tx_runs, tx_wakes_up, tx_driven, disconnects, stops, receives, samples, polls,
  sends_char, sends_packet, loop_step, driven_step, act, act_all,
}
use cocotbext_spacewire.Link.Timing.{feed_fsm-cases, stepped}

-- The characters of the queue that the driver is sending: at most one.
abbrev pub in_flight : TxTask → ℕ
in_flight (sending c true) = 1
in_flight _ = 0

-- The count is that of the characters that are queued or being sent, or more by `lost` at least, and
-- the event is set exactly when it is 0.
pub record Accounted (lost : ℕ) (l : Link) : Type 0 where
  pub counted : length l.tx_nchar_queue + in_flight l.tx_task + lost ≤ l.tx_nchar_outstanding
  pub drained : (l.tx_drained_evt ≡ true) ↔ (l.tx_nchar_outstanding ≡ 0)

-- The sending side of `m` is that of `l`.
abbrev SendsLike : Link → Link → Type 0
SendsLike l m =
    (m.tx_nchar_queue ≡ l.tx_nchar_queue)
    × (m.tx_task ≡ l.tx_task)
    × (m.tx_nchar_outstanding ≡ l.tx_nchar_outstanding)
    × (m.tx_drained_evt ≡ l.tx_drained_evt)

like_trans : (a b c : Link) → SendsLike a b → SendsLike b c → SendsLike a c
like_trans a b c h k = (k.0 ∙ h.0, k.1 ∙ h.1, k.2 ∙ h.2, k.3 ∙ h.3)

Accounted-ext : {lost : ℕ} (l m : Link) → SendsLike l m → Accounted lost l → Accounted lost m
Accounted-ext l m h a = ground arith

on_state_change-like : (out : Output) (l : Link) → SendsLike l (on_state_change out l)
unfolding on_state_change start_timer
on_state_change-like out l = ground arith

feed_fsm-like : (e : Event) (l : Link) → SendsLike l (feed_fsm e l)
feed_fsm-like e l =
    feed_fsm-cases (SendsLike l) e l (λ same. (refl, refl, refl, refl))
      (λ changed. on_state_change-like (output (feed e l.fsm)) (stepped e l))

-- What the receiving side does leaves the sending side as it was.
feed_bit-like : (v : ℤ) (l : Link) → SendsLike l (feed_bit v l).1
feed_bit-like v l =
    feed_bit-keeps (SendsLike l) (λ e m p. like_trans l m (feed_fsm e m) p (feed_fsm-like e m))
      (λ credit queue wakeup decoder m p. p) v l (refl, refl, refl, refl)

run_timer-like : (x : Timer) (l : Link) → SendsLike l (run_timer x l)
unfolding run_timer
run_timer-like x l = ground (arith, feed_fsm-like x.event l)

timer_expires-like : (l : Link) → SendsLike l (timer_expires l)
unfolding timer_expires
timer_expires-like l = elim (Option-cases l.timer_task) [
  | inl e ↦ rw (e, timer_expires) (refl, refl, refl, refl)
  | inr (x, e) ↦ rw (e, timer_expires) (run_timer-like x (record l { timer_task = none }))
]

feed_sent-like : (c : CharType) (l : Link) → SendsLike l (feed_sent c l)
feed_sent-like null l = feed_fsm-like sent_null l
feed_sent-like fct l = feed_fsm-like sent_fct l
feed_sent-like _ l = (refl, refl, refl, refl)

-- What a choice takes off the queue is the character that it names.
abbrev taken : Outcome (Character × Bool) → ℕ
taken (ok (c, true)) = 1
taken (ok (c, false)) = 0
taken (raise e) = 0

next_char-taken :
    (mode : TxMode) (l : Link)
    → let (r, m) = next_char mode l in
      (length m.tx_nchar_queue + taken r ≤ length l.tx_nchar_queue)
      × (m.tx_nchar_outstanding ≡ l.tx_nchar_outstanding)
      × (m.tx_drained_evt ≡ l.tx_drained_evt)
unfolding next_char next_nchar on_credit
next_char-taken mode l = ground arith

tx_begin-Accounted :
    {lost : ℕ} (mode : TxMode) (l : Link) → Accounted lost l → Accounted lost (tx_begin mode l).1
unfolding tx_begin pick on_encoder
tx_begin-Accounted mode l a = ground (arith, next_char-taken mode l)

loop_step-Accounted :
    {lost : ℕ} (task : TxTask) (l : Link) → Accounted lost l → Accounted lost (loop_step task l)
unfolding loop_step tx_loop
loop_step-Accounted looping l a = tx_begin-Accounted (output l.fsm).tx_mode l a
loop_step-Accounted _ l a = a

marked-Accounted :
    {lost : ℕ} (c : Character) (queued : Bool) (l : Link)
    → l.tx_task ≡ sending c queued
    → Accounted lost l
    → Accounted lost (record (mark_driven queued l) { tx_task = looping })
unfolding mark_driven
marked-Accounted c true l t a = ground arith
marked-Accounted c false l t a = ground arith

tx_end-Accounted :
    {lost : ℕ} (c : Character) (queued : Bool) (l : Link)
    → l.tx_task ≡ sending c queued
    → Accounted lost l
    → Accounted lost (tx_end c queued l)
unfolding tx_end
tx_end-Accounted c queued l t a =
    let like = feed_sent-like c.type l in
    marked-Accounted c queued (feed_sent c.type l) (like.1 ∙ t)
      (Accounted-ext l (feed_sent c.type l) like a)

driven_step-Accounted :
    {lost : ℕ} (task : TxTask) (l : Link)
    → l.tx_task ≡ task
    → Accounted lost l
    → Accounted lost (driven_step task l)
unfolding driven_step
driven_step-Accounted (sending c queued) l t a = tx_end-Accounted c queued l t a
driven_step-Accounted _ l t a = a

length-snoc : (cs : List Character) (c : Character) → length (cs ++ c ∷ []) ≡ length cs + 1
length-snoc cs c = length-append cs (c ∷ [])

enqueue_nchar-Accounted :
    {lost : ℕ} (c : Character) (l : Link) → Accounted lost l → Accounted lost (enqueue_nchar c l)
unfolding enqueue_nchar
enqueue_nchar-Accounted c l a = ground (arith, length-snoc l.tx_nchar_queue c)

enqueue_nchars-Accounted :
    {lost : ℕ} (cs : List Character) (l : Link)
    → Accounted lost l
    → Accounted lost (enqueue_nchars cs l)
unfolding enqueue_nchars
enqueue_nchars-Accounted [] l a = a
enqueue_nchars-Accounted (c ∷ cs) l a =
    enqueue_nchars-Accounted cs (enqueue_nchar c l) (enqueue_nchar-Accounted c l a)

send_packet-Accounted :
    {lost : ℕ} (items : List Item) (terminator : Text) (l : Link)
    → Accounted lost l
    → Accounted lost (send_packet items terminator l).1
unfolding send_packet
send_packet-Accounted items terminator l a = elim (Outcome-cases (packet items terminator)) [
  | inl (p, e) ↦ rw (e, send_packet) (enqueue_nchars-Accounted (nchars_of p) l a)
  | inr (x, e) ↦ rw (e, send_packet) a
]

take_packet-like : (r : Received) (l : Link) → SendsLike l (take_packet r l).1
unfolding take_packet
take_packet-like (waits items) l = (refl, refl, refl, refl)
take_packet-like (returns r queue) l = (refl, refl, refl, refl)

act-Accounted : {lost : ℕ} (a : Action) (l : Link) → Accounted lost l → Accounted lost (act a l)
unfolding act tx_wakes disconnect stop cancel_timer watchdog send_char
act-Accounted timer_ends l a = Accounted-ext l (timer_expires l) (timer_expires-like l) a
act-Accounted tx_runs l a = loop_step-Accounted l.tx_task l a
act-Accounted tx_wakes_up l a = ground arith
act-Accounted tx_driven l a = driven_step-Accounted l.tx_task l refl a
act-Accounted disconnects l a =
    Accounted-ext l (feed_fsm link_disable l) (feed_fsm-like link_disable l) a
act-Accounted stops l a = ground arith
act-Accounted receives l a =
    let r = recv_packet l.rx_nchar_queue in
    Accounted-ext l (take_packet r l).1 (take_packet-like r l) a
act-Accounted (samples v) l a = Accounted-ext l (feed_bit v l).1 (feed_bit-like v l) a
act-Accounted (polls disconnected) l a =
    ground (arith, Accounted-ext l (feed_fsm rx_err l) (feed_fsm-like rx_err l) a)
act-Accounted (sends_char c) l a = ground (arith, enqueue_nchar-Accounted c l a)
act-Accounted (sends_packet items terminator) l a = send_packet-Accounted items terminator l a

act_all-Accounted :
    {lost : ℕ} (actions : List Action) (l : Link)
    → Accounted lost l
    → Accounted lost (act_all actions l)
unfolding act_all
act_all-Accounted [] l a = a
act_all-Accounted (x ∷ more) l a = act_all-Accounted more (act x l) (act-Accounted x l a)

if_fed-like : (b : Bool) (e : Event) (l : Link) → SendsLike l (if b then feed_fsm e l else l)
if_fed-like true e l = feed_fsm-like e l
if_fed-like false e l = (refl, refl, refl, refl)

armed-Accounted :
    {lost : ℕ} (l : Link) → Accounted lost l → l.tx_task ≡ off → Accounted lost (armed l)
unfolding start_timer
armed-Accounted l a t = ground arith

start-Accounted :
    {lost : ℕ} (l : Link)
    → Accounted lost l
    → l.tx_task ≡ off
    → l.is_started ≡ false
    → Accounted lost (start l).1
unfolding start start_timer
start-Accounted l a t h =
    let l₂ = armed l in
    let l₃ : Link = if l.pending_auto_start then feed_fsm auto_start l₂ else l₂ in
    let l₄ : Link = if l₃.pending_link_start then feed_fsm link_start l₃ else l₃ in
    rw h (
      Accounted-ext l₂ l₄
        (like_trans l₂ l₃ l₄ (if_fed-like l.pending_auto_start auto_start l₂)
          (if_fed-like l₃.pending_link_start link_start l₃))
        (armed-Accounted l a t))

-- A count of 0 leaves nothing behind.
none_left :
    (l : Link)
    → Accounted 0 l
    → l.tx_drained_evt ≡ true
    → (l.tx_nchar_queue ≡ []) × (in_flight l.tx_task ≡ 0)
none_left l a d = ground arith

module _ (bit_rate : ℕ) (wants_start wants_auto only_nulls : Bool) (rx_fifo_capacity : ℤ)
    (max_rx_credit : Option ℤ) where
  init-Accounted :
      {l : Link}
      → init bit_rate wants_start wants_auto only_nulls rx_fifo_capacity max_rx_credit ≡ ok l
      → Accounted 0 l × (l.tx_task ≡ off) × (l.is_started ≡ false)
  unfolding init
  init-Accounted h = ground arith

  -- After any sequence of actions, of which another start is none, on a link that was built and started:
  -- if `_tx_drained_evt` is set, for which `send_char` and `send_packet` wait, then the queue is empty
  -- and no character of it is still being driven.
  pub drained-sent :
      (actions : List Action) {l : Link}
      → init bit_rate wants_start wants_auto only_nulls rx_fifo_capacity max_rx_credit ≡ ok l
      → (act_all actions (start l).1).tx_drained_evt ≡ true
      → ((act_all actions (start l).1).tx_nchar_queue ≡ [])
        × (in_flight (act_all actions (start l).1).tx_task ≡ 0)
  drained-sent actions {l} h d =
      let (a, t, new) = init-Accounted h in
      none_left (act_all actions (start l).1)
        (act_all-Accounted actions (start l).1 (start-Accounted l a t new)) d

-- A stop while a character of the queue is being driven.
stopped-Accounted :
    (c : Character) (l : Link) → l.tx_task ≡ sending c true → Accounted 0 l → Accounted 1 (stop l)
unfolding stop cancel_timer
stopped-Accounted c l at a = ground arith

-- The event that `send_char` and `send_packet` wait for is never set.
never_drained : (l : Link) → Accounted 1 l → l.tx_drained_evt ≡ false
never_drained l a = ground arith

module _ (bit_rate : ℕ) (wants_start wants_auto only_nulls : Bool) (rx_fifo_capacity : ℤ)
    (max_rx_credit : Option ℤ) where
  -- A link that was built and started, and is stopped while a character of the queue is being driven and
  -- then started again, does not set `_tx_drained_evt` again in any sequence of actions, of which another
  -- start is none: none of them releases who waits in `send_char` or `send_packet`.
  pub stop_strands_senders :
      (actions more : List Action) (c : Character) {l : Link}
      → init bit_rate wants_start wants_auto only_nulls rx_fifo_capacity max_rx_credit ≡ ok l
      → (act_all actions (start l).1).tx_task ≡ sending c true
      → (act_all more (start (stop (act_all actions (start l).1))).1).tx_drained_evt ≡ false
  unfolding stop
  stop_strands_senders actions more c {l} h at =
      let (a, t, new) =
        init-Accounted bit_rate wants_start wants_auto only_nulls rx_fifo_capacity max_rx_credit
          h in
      let m = act_all actions (start l).1 in
      let sent = act_all-Accounted actions (start l).1 (start-Accounted l a t new) in
      let again = start-Accounted (stop m) (stopped-Accounted c m at sent) refl refl in
      never_drained (act_all more (start (stop m)).1)
        (act_all-Accounted more (start (stop m)).1 again)
