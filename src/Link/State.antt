-- ===== src/Link/State.antt =====
-- link.py: the state of a link, and its constructor.
use cocotbext_spacewire.Base.Int.{ℤ, pos, pos_part, min_ℤ}
use cocotbext_spacewire.Base.{
  ℕ, Bool, true, false, Option, none, some, List, [], Outcome, ok, raise,
}
use cocotbext_spacewire.LinkFsm.{
  State, error_reset, error_wait, ready, started, connecting, run, TxMode, reset, send_nulls,
  send_nulls_fcts, send_nulls_fcts_nchars_timecodes, Event, rx_err, sent_null, sent_fct, link_start,
  link_disable, auto_start, tick_6_4us, tick_12_8us, LinkFsm, Output, output, feed, state_eq,
}
use cocotbext_spacewire.LinkFsm as Fsm
use cocotbext_spacewire.FlowControl.{
  CreditCounter, max_credit, on_nchar_sent, can_send, on_fct_sent, should_send_fct,
  initial_fct_count,
}
use cocotbext_spacewire.FlowControl as Credit
use cocotbext_spacewire.Characters.Types.{Character}
use cocotbext_spacewire.Characters.Encoder.{Encoder}
use cocotbext_spacewire.Characters.Decoder.{Decoder, fresh}

-- A task of `_run_timer` that has not finished.
pub record Timer : Type 0 where
  pub duration_ns : ℕ
  pub event : Event
  pub gen : ℕ

-- Where `_tx_loop` stands: at its top, waiting for `_tx_wakeup`, or waiting for the driver to have
-- driven the bits of a character (with `was_nchar_from_queue`); `off` when it is not running.
pub data TxTask : Type 0 where
  off looping parked : TxTask
  sending : Character → Bool → TxTask

pub record Link : Type 0 where
  pub fsm : LinkFsm
  pub decoder : Decoder
  pub encoder : Encoder
  pub credit : CreditCounter
  pub rx_fifo_capacity_nchars : ℕ
  pub tx_nchar_queue : List Character
  pub rx_nchar_queue : List Character
  pub tx_nchar_outstanding : ℕ
  pub tx_drained_evt : Bool
  pub run_reached : Bool
  pub error_reset_entered : Bool
  pub tx_wakeup : Bool
  pub timer_task : Option Timer
  pub timer_gen : ℕ
  pub tx_task : TxTask
  pub error_reset_count : ℕ
  pub only_nulls : Bool
  pub fct_sent_this_connecting : Bool
  pub is_started : Bool
  pub pending_link_start : Bool
  pub pending_auto_start : Bool
  pub pending_initial_fct_burst : ℕ
  pub bit_rate_bps : ℕ

abbrev pub tick_6_4_ns : ℕ
tick_6_4_ns = 6400

abbrev pub tick_12_8_ns : ℕ
tick_12_8_ns = 12800

-- The credit limit that the constructor asks for.
unfoldable pub credit_limit : ℤ → Option ℤ → ℤ
credit_limit rx_fifo_capacity none = min_ℤ rx_fifo_capacity (pos max_credit)
credit_limit rx_fifo_capacity (some m) = min_ℤ m (min_ℤ rx_fifo_capacity (pos max_credit))

-- A negative capacity is refused by `CreditCounter`, so the stored one is a natural number.
unfoldable pub init : ℕ → Bool → Bool → Bool → ℤ → Option ℤ → Outcome Link
unfolding Fsm.init credit_limit
init bit_rate wants_start wants_auto only_nulls rx_fifo_capacity max_rx_credit =
    elim (Credit.init (credit_limit rx_fifo_capacity max_rx_credit)) [
      | raise e ↦ raise e
      | ok credit ↦ ok (record {
        fsm = Fsm.init bit_rate;
        decoder = fresh [];
        encoder = record { prev_content_bits = []; bad_parity_offsets = [] };
        credit = credit;
        rx_fifo_capacity_nchars = pos_part rx_fifo_capacity;
        tx_nchar_queue = [];
        rx_nchar_queue = [];
        tx_nchar_outstanding = 0;
        tx_drained_evt = true;
        run_reached = false;
        error_reset_entered = false;
        tx_wakeup = false;
        timer_task = none;
        timer_gen = 0;
        tx_task = off;
        error_reset_count = 0;
        only_nulls = only_nulls;
        fct_sent_this_connecting = false;
        is_started = false;
        pending_link_start = wants_start;
        pending_auto_start = wants_auto;
        pending_initial_fct_burst = 0;
        bit_rate_bps = 10000000;
      })
    ]
