-- ===== src/Link/Joined.antt =====
-- link.py: two links in Run on one cable, and what a turn of one of them may do.
use cocotbext_spacewire.Base.Int.{ℤ}
use cocotbext_spacewire.Base.{
  ℕ, ◌+◌, ◌≤◌, ◌≡◌, ◌⊎◌, Bool, true, Option, List, [], ◌++◌, All, length, map,
}
use cocotbext_spacewire.LinkFsm.{run}
use cocotbext_spacewire.Characters.Types.{CharType, Character, is_n_char_type}
use cocotbext_spacewire.Characters.Delivery.{payload, Synced}
use cocotbext_spacewire.Characters.Requests.{IsRequest}
use cocotbext_spacewire.Link.State.{Link}
use cocotbext_spacewire.Link.Running.{NoFct}

-- What the user may send: an N-Char that the encoder's constructors have built.
abbrev pub IsNChar : Character → Type 0
IsNChar c = IsRequest c × (is_n_char_type c.type ≡ true)

-- The credit limits of a link, and its queue, which is counted.
pub record Stock (rx_credit max_rx_credit : ℕ) (queue : List Character) (outstanding : ℕ)
    (drained : Bool) : Type 0 where
  pub limited : rx_credit ≤ max_rx_credit
  pub capped : max_rx_credit ≤ 56
  pub sendable : All IsNChar queue
  pub counted : outstanding ≡ length queue
  pub emptied : queue ≡ [] → drained ≡ true

abbrev pub Stocked : Link → Type 0
Stocked l =
    Stock l.credit.rx_credit l.credit.max_rx_credit l.tx_nchar_queue l.tx_nchar_outstanding
      l.tx_drained_evt

-- Two links in Run, with both lines in step and the credit of each granted by the other.
pub record Joined (l p : Link) : Type 0 where
  pub out : Synced l.encoder p.decoder
  pub back : Synced p.encoder l.decoder
  pub runs : l.fsm.state ≡ run
  pub peer_runs : p.fsm.state ≡ run
  pub here : Stocked l
  pub there : Stocked p
  pub granted : l.credit.tx_credit ≡ p.credit.rx_credit
  pub grants : p.credit.tx_credit ≡ l.credit.rx_credit

pub Joined-sym : {l p : Link} → Joined l p → Joined p l
Joined-sym j = record {
  out = j.back;
  back = j.out;
  runs = j.peer_runs;
  peer_runs = j.runs;
  here = j.there;
  there = j.here;
  granted = j.grants;
  grants = j.granted;
}

abbrev pub Payload : Type 0
Payload = CharType × Option ℤ × Option ℤ × Option ℤ

abbrev pub payloads : List Character → List Payload
payloads = map payload

-- What a turn of `l` has moved: an FCT, an N-Char or, without credit or without an N-Char, nothing.
pub data Progress (l l' : Link) : Type 0 where
  by_fct :
      l'.credit.rx_credit ≡ l.credit.rx_credit + 8
      → l'.tx_nchar_queue ≡ l.tx_nchar_queue
      → l'.credit.tx_credit ≡ l.credit.tx_credit
      → Progress l l'
  by_nchar :
      length l.tx_nchar_queue ≡ length l'.tx_nchar_queue + 1
      → l'.credit.rx_credit ≡ l.credit.rx_credit
      → l.credit.tx_credit ≡ l'.credit.tx_credit + 1
      → NoFct l
      → Progress l l'
  by_null :
      (l.tx_nchar_queue ≡ []) ⊎ (l.credit.tx_credit ≡ 0)
      → NoFct l
      → l'.credit.rx_credit ≡ l.credit.rx_credit
      → l'.tx_nchar_queue ≡ l.tx_nchar_queue
      → l'.credit.tx_credit ≡ l.credit.tx_credit
      → Progress l l'

-- A turn of `l`: the links stay joined, the N-Chars that `l` has to send or has sent stay the same, in
-- order, the other direction is left alone.
pub record Turned (l p l' p' : Link) : Type 0 where
  pub joined : Joined l' p'
  pub stream :
      payloads p'.rx_nchar_queue ++ payloads l'.tx_nchar_queue
      ≡ payloads p.rx_nchar_queue ++ payloads l.tx_nchar_queue
  pub kept_tx : p'.tx_nchar_queue ≡ p.tx_nchar_queue
  pub kept_rx : l'.rx_nchar_queue ≡ l.rx_nchar_queue
  pub limit : l'.credit.max_rx_credit ≡ l.credit.max_rx_credit
  pub peer_limit : p'.credit.max_rx_credit ≡ p.credit.max_rx_credit
  pub peer_capacity : p'.rx_fifo_capacity_nchars ≡ p.rx_fifo_capacity_nchars
  pub capacity : l'.rx_fifo_capacity_nchars ≡ l.rx_fifo_capacity_nchars
  pub progress : Progress l l'
