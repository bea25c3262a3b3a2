-- ===== src/FlowControl/Overrun.antt =====
-- flow_control.py: `should_send_fct` compares the headroom of the FIFO with the 8 N-Chars of one FCT,
-- and not with the credit that is still outstanding.
use cocotbext_spacewire.Base.Int.{sub_ℕ}
use cocotbext_spacewire.Base.{ℕ, zero, suc, ◌+◌, ◌*◌, ◌≤◌, ◌<◌, ◌≡◌, true, ok, arith}
use cocotbext_spacewire.FlowControl.{
  CreditCounter, max_credit, on_fct_received, on_nchar_sent, can_send, on_fct_sent,
  on_nchar_received, should_send_fct,
}
use cocotbext_spacewire.FlowControl.Channel.{
  Channel, grant, fct_arrives, send, nchar_arrives, Reach, here, next, IsStart,
}

Reach-trans :
    {capacity : ℕ} {c d e : Channel} → Reach capacity c d → Reach capacity d e → Reach capacity c e
Reach-trans p here = p
Reach-trans p (next r s) = next (Reach-trans p r) s

-- One FCT sent and delivered.
abbrev granted : Channel → Channel
granted c = record c {
  sender = (on_fct_received c.sender).1;
  receiver = (on_fct_sent c.receiver).1;
  fcts = 0;
}

grant_ok :
    (capacity : ℕ) (c : Channel)
    → c.receiver.rx_credit + 8 ≤ c.receiver.max_rx_credit
    → c.depth + 8 ≤ capacity
    → (should_send_fct (sub_ℕ capacity c.depth) c.receiver ≡ true)
      × (on_fct_sent c.receiver ≡ (ok tt, (on_fct_sent c.receiver).1))
unfolding should_send_fct on_fct_sent
grant_ok capacity c rx room = ground arith

fct_ok :
    (s : CreditCounter)
    → s.tx_credit + 8 ≤ max_credit
    → on_fct_received s ≡ (ok tt, (on_fct_received s).1)
unfolding on_fct_received
fct_ok s h = ground arith

granted-Reach :
    (capacity : ℕ) (c : Channel)
    → c.fcts ≡ 0
    → c.sender.tx_credit + 8 ≤ max_credit
    → c.receiver.rx_credit + 8 ≤ c.receiver.max_rx_credit
    → c.depth + 8 ≤ capacity
    → Reach capacity c (granted c)
granted-Reach capacity c idle tx rx room =
    let (should, sent) = grant_ok capacity c rx room in
    let on_line : c.fcts + 1 ≡ suc 0 = omega arith in
    next (next here (grant c should sent)) (fct_arrives _ on_line (fct_ok c.sender tx))

-- One N-Char sent and delivered.
abbrev moved : Channel → Channel
moved c = record c {
  sender = (on_nchar_sent c.sender).1;
  receiver = (on_nchar_received c.receiver).1;
  nchars = 0;
  depth = c.depth + 1;
}

send_ok :
    (s : CreditCounter)
    → 0 < s.tx_credit
    → (can_send s ≡ true) × (on_nchar_sent s ≡ (ok tt, (on_nchar_sent s).1))
unfolding can_send on_nchar_sent
send_ok s h = ground arith

nchar_ok :
    (s : CreditCounter) → 0 < s.rx_credit → on_nchar_received s ≡ (ok tt, (on_nchar_received s).1)
unfolding on_nchar_received
nchar_ok s h = ground arith

moved-Reach :
    (capacity : ℕ) (c : Channel)
    → c.nchars ≡ 0
    → 0 < c.sender.tx_credit
    → 0 < c.receiver.rx_credit
    → Reach capacity c (moved c)
moved-Reach capacity c idle tx rx =
    let (can, sent) = send_ok c.sender tx in
    let on_line : c.nchars + 1 ≡ suc 0 = omega arith in
    next (next here (send c can sent)) (nchar_arrives _ on_line (nchar_ok c.receiver rx))

-- A quiet line with `credit` left at both ends.
record Quiet (limit credit depth : ℕ) (c : Channel) : Type 0 where
  no_fcts : c.fcts ≡ 0
  no_nchars : c.nchars ≡ 0
  tx : c.sender.tx_credit ≡ credit
  rx : c.receiver.rx_credit ≡ credit
  queued : c.depth ≡ depth
  limited : c.receiver.max_rx_credit ≡ limit

granted-Quiet :
    {limit credit depth : ℕ} (c : Channel)
    → credit + 8 ≤ limit
    → limit ≤ max_credit
    → Quiet limit credit depth c
    → Quiet limit (credit + 8) depth (granted c)
unfolding on_fct_received on_fct_sent
granted-Quiet c h m q = ground arith

moved-Quiet :
    {limit credit depth : ℕ} (c : Channel)
    → Quiet limit (suc credit) depth c
    → Quiet limit credit (depth + 1) (moved c)
unfolding on_nchar_sent on_nchar_received
moved-Quiet c q = ground arith

-- The sender spends all its credit.
spend :
    (capacity : ℕ) {limit : ℕ} (credit depth total : ℕ) (c : Channel)
    → depth + credit ≡ total
    → Quiet limit credit depth c
    → (d : Channel) × Reach capacity c d × Quiet limit 0 total d
spend capacity zero depth total c e q = (c, here, ground arith)
spend capacity (suc k) depth total c e q =
    let (d, r, q') = spend capacity k (depth + 1) total (moved c) (omega arith) (moved-Quiet c q) in
    (d, Reach-trans (moved-Reach capacity c q.no_nchars (omega arith) (omega arith)) r, q')

grant_more :
    (capacity : ℕ) {limit credit depth : ℕ} (c : Channel)
    → credit + 8 ≤ limit
    → limit ≤ max_credit
    → depth + 8 ≤ capacity
    → Quiet limit credit depth c
    → Reach capacity c (granted c)
grant_more capacity c h m room q =
    granted-Reach capacity c q.no_fcts (omega arith) (omega arith) (omega arith)

-- Rounds of 8 N-Chars fill the FIFO up to 8 places.
fill :
    (capacity q : ℕ) {limit : ℕ} (c : Channel)
    → 8 * q ≤ capacity
    → 8 ≤ limit
    → limit ≤ max_credit
    → Quiet limit 0 0 c
    → (d : Channel) × Reach capacity c d × Quiet limit 0 (8 * q) d
fill capacity zero c h l m q = (c, here, ground arith)
fill capacity (suc n) c h l m q =
    let (d, r, qd) = fill capacity n c (omega arith) l m q in
    let g = grant_more capacity d l m (omega arith) qd in
    let (e, s, qe) =
      spend capacity 8 (8 * n) (8 * suc n) (granted d) (omega arith) (granted-Quiet d l m qd) in
    (e, Reach-trans (Reach-trans r g) s, qe)

-- The FIFO can be overrun: with a capacity of 8 (q + 1) N-Chars, 1 ≤ q ≤ 6, and a credit limit equal
-- to the capacity, two ends that start in step can reach a queue of 8 N-Chars more than the capacity.
pub fifo_overrun :
    (q : ℕ) {c : Channel}
    → 1 ≤ q
    → q ≤ 6
    → c.receiver.max_rx_credit ≡ 8 * suc q
    → IsStart c
    → (d : Channel) × Reach (8 * suc q) c d × (d.depth ≡ 8 * suc q + 8)
fifo_overrun q {c} low high limited i =
    let capacity : ℕ = 8 * suc q in
    let (d, r, qd) =
      fill capacity q {limit = capacity} c (omega arith) (omega arith) (omega arith)
        (ground arith) in
    let g = grant_more capacity d (omega arith) (omega arith) (omega arith) qd in
    let qg = granted-Quiet d (omega arith) (omega arith) qd in
    let h = grant_more capacity (granted d) (omega arith) (omega arith) (omega arith) qg in
    let qh = granted-Quiet (granted d) (omega arith) (omega arith) qg in
    let (e, s, qe) =
      spend capacity (0 + 8 + 8) (8 * q) (capacity + 8) (granted (granted d)) (omega arith) qh in
    (e, Reach-trans (Reach-trans r (Reach-trans g h)) s, qe.queued)
