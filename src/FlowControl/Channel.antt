-- ===== src/FlowControl/Channel.antt =====
-- flow_control.py: the counters at the two ends of one direction of a link, as link.py uses them:
-- the receiver grants credit by FCTs and queues the N-Chars that the sender spends it on.
use cocotbext_spacewire.Base.Int.{sub_ℕ}
use cocotbext_spacewire.Base.{ℕ, suc, ◌+◌, ◌*◌, ◌≤◌, ◌≡◌, ◌⊎◌, true, ok, arith}
use cocotbext_spacewire.FlowControl.{
  CreditCounter, max_credit, on_fct_received, on_nchar_sent, can_send, on_fct_sent,
  on_nchar_received, should_send_fct,
}

-- `fcts` and `nchars` are in flight; `depth` is the receiver's queue.
pub record Channel : Type 0 where
  pub sender : CreditCounter
  pub receiver : CreditCounter
  pub fcts : ℕ
  pub nchars : ℕ
  pub depth : ℕ

-- One side acts, or the line delivers; the capacity is `rx_fifo_capacity_nchars`.
pub data Step (capacity : ℕ) : Channel → Channel → Type 0 where
  grant :
      (c : Channel) {r : CreditCounter}
      → should_send_fct (sub_ℕ capacity c.depth) c.receiver ≡ true
      → on_fct_sent c.receiver ≡ (ok tt, r)
      → Step capacity c (record c { receiver = r; fcts = c.fcts + 1 })
  fct_arrives :
      (c : Channel) {n : ℕ} {s : CreditCounter}
      → c.fcts ≡ suc n
      → on_fct_received c.sender ≡ (ok tt, s)
      → Step capacity c (record c { sender = s; fcts = n })
  send :
      (c : Channel) {s : CreditCounter}
      → can_send c.sender ≡ true
      → on_nchar_sent c.sender ≡ (ok tt, s)
      → Step capacity c (record c { sender = s; nchars = c.nchars + 1 })
  nchar_arrives :
      (c : Channel) {n : ℕ} {r : CreditCounter}
      → c.nchars ≡ suc n
      → on_nchar_received c.receiver ≡ (ok tt, r)
      → Step capacity c (record c { receiver = r; nchars = n; depth = c.depth + 1 })
  consume : (c : Channel) {n : ℕ} → c.depth ≡ suc n → Step capacity c (record c { depth = n })

pub data Reach (capacity : ℕ) (c : Channel) : Channel → Type 0 where
  here : Reach capacity c c
  next : {d e : Channel} → Reach capacity c d → Step capacity d e → Reach capacity c e

-- Every credit that the receiver has granted and not seen used is with the sender or on the line.
pub record Inv (capacity : ℕ) (c : Channel) : Type 0 where
  pub balanced : c.sender.tx_credit + c.nchars + 8 * c.fcts ≡ c.receiver.rx_credit
  pub rx_capped : c.receiver.rx_credit ≤ c.receiver.max_rx_credit
  pub max_capped : c.receiver.max_rx_credit ≤ max_credit
  pub room :
      (c.receiver.rx_credit + c.depth ≡ 0)
      ⊎ (c.receiver.rx_credit + c.depth + 8 ≤ capacity + c.receiver.max_rx_credit)

Step-Inv : {capacity : ℕ} {c d : Channel} → Step capacity c d → Inv capacity c → Inv capacity d
unfolding should_send_fct on_fct_sent on_fct_received can_send on_nchar_sent on_nchar_received
Step-Inv (grant c g e) v = ground arith
Step-Inv (fct_arrives c n e) v = ground arith
Step-Inv (send c g e) v = ground arith
Step-Inv (nchar_arrives c n e) v = ground arith
Step-Inv (consume c n) v = ground arith

-- The balance of credit is kept by whatever the two ends and the line do.
Reach-Inv : {capacity : ℕ} {c d : Channel} → Reach capacity c d → Inv capacity c → Inv capacity d
Reach-Inv here v = v
Reach-Inv (next r st) v = Step-Inv st (Reach-Inv r v)

-- Both ends after a reset, with nothing on the line and nothing queued.
pub record IsStart (c : Channel) : Type 0 where
  pub no_tx : c.sender.tx_credit ≡ 0
  pub no_rx : c.receiver.rx_credit ≡ 0
  pub no_fcts : c.fcts ≡ 0
  pub no_nchars : c.nchars ≡ 0
  pub no_depth : c.depth ≡ 0
  pub capped : c.receiver.max_rx_credit ≤ max_credit

IsStart-Inv : {capacity : ℕ} {c : Channel} → IsStart c → Inv capacity c
IsStart-Inv i = ground arith

arrivals :
    (capacity : ℕ) (d : Channel)
    → Inv capacity d
    → ((d.fcts ≡ 0) ⊎ ((on_fct_received d.sender).0 ≡ ok tt))
      × ((d.nchars ≡ 0) ⊎ ((on_nchar_received d.receiver).0 ≡ ok tt))
unfolding on_fct_received on_nchar_received
arrivals capacity d v = ground arith

-- Two ends that start in step, and that gate on `should_send_fct` and `can_send`, never see a
-- `CreditError`: whatever the interleaving, each FCT on the line fits the sender's cap and each N-Char
-- on the line finds receive credit.
pub no_credit_errors :
    {capacity : ℕ} {c d : Channel}
    → IsStart c
    → Reach capacity c d
    → ((d.fcts ≡ 0) ⊎ ((on_fct_received d.sender).0 ≡ ok tt))
      × ((d.nchars ≡ 0) ⊎ ((on_nchar_received d.receiver).0 ≡ ok tt))
no_credit_errors {capacity} {c} {d} i r = arrivals capacity d (Reach-Inv r (IsStart-Inv i))

-- The queue of the receiver stays 8 below the sum of its capacity and its credit limit (and empty
-- where that sum is less than 8).
pub depth_bounded :
    {capacity : ℕ} {c d : Channel}
    → IsStart c
    → Reach capacity c d
    → (d.depth ≡ 0) ⊎ (d.depth + 8 ≤ capacity + d.receiver.max_rx_credit)
depth_bounded {capacity} i r =
    let v = Reach-Inv {capacity = capacity} r (IsStart-Inv i) in ground arith

stalled-grants :
    (capacity : ℕ) (d : Channel)
    → Inv capacity d
    → 8 ≤ capacity
    → 8 ≤ d.receiver.max_rx_credit
    → d.fcts ≡ 0
    → d.nchars ≡ 0
    → d.depth ≡ 0
    → d.sender.tx_credit ≡ 0
    → should_send_fct (sub_ℕ capacity d.depth) d.receiver ≡ true
unfolding should_send_fct
stalled-grants capacity d v a b x y z w = ground arith

-- A sender without credit is not stuck: with nothing on the line and the queue read empty, the
-- receiver grants an FCT, if its FIFO and its credit limit hold at least 8 N-Chars.
no_deadlock :
    {capacity : ℕ} {c d : Channel}
    → IsStart c
    → Reach capacity c d
    → 8 ≤ capacity
    → 8 ≤ d.receiver.max_rx_credit
    → d.fcts ≡ 0
    → d.nchars ≡ 0
    → d.depth ≡ 0
    → d.sender.tx_credit ≡ 0
    → should_send_fct (sub_ℕ capacity d.depth) d.receiver ≡ true
no_deadlock {capacity} {c} {d} i r a b x y z w =
    stalled-grants capacity d (Reach-Inv r (IsStart-Inv i)) a b x y z w
