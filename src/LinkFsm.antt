-- ===== src/LinkFsm.antt =====
-- cocotbext/spacewire/link_fsm.py: the link initialization state machine.
pub mod Feed
pub mod Invariant
pub mod Graph
pub mod Traces
pub mod Handshake
pub mod Disabled
use cocotbext_spacewire.Base.{
  ℕ, zero, suc, Bool, true, false, not, ◌&&◌, ◌||◌, Option, none, some, if◌then◌else◌, ◌==◌,
}

pub data State : Type 0 where
  error_reset error_wait ready started connecting run : State

pub data TxMode : Type 0 where
  reset send_nulls send_nulls_fcts send_nulls_fcts_nchars_timecodes : TxMode

pub data Event : Type 0 where
  got_null got_fct got_n_char got_time_code rx_err credit_err sent_null sent_fct : Event
  link_start link_start_clear link_disable link_disable_clear auto_start auto_start_clear : Event
  tick_6_4us tick_12_8us : Event

abbrev initial_bit_rate_bps : ℕ
initial_bit_rate_bps = 10000000

-- `_state` and the other private fields have no underscore; a flag named like an event is `is_…`.
pub record LinkFsm : Type 0 where
  pub target_bit_rate_bps : ℕ
  pub state : State
  pub got_null_latched : Bool
  pub is_link_start : Bool
  pub is_link_disable : Bool
  pub is_auto_start : Bool
  pub sent_null_in_started : Bool
  pub sent_fct_in_connecting : Bool
  pub got_fct_in_connecting : Bool

unfoldable pub init : ℕ → LinkFsm
init target = record {
  target_bit_rate_bps = target;
  state = error_reset;
  got_null_latched = false;
  is_link_start = false;
  is_link_disable = false;
  is_auto_start = false;
  sent_null_in_started = false;
  sent_fct_in_connecting = false;
  got_fct_in_connecting = false;
}

pub record Output : Type 0 where
  pub state : State
  pub tx_mode : TxMode
  pub rx_enabled : Bool
  pub bit_rate_bps : ℕ

abbrev state_index : State → ℕ
state_index error_reset = 1
state_index error_wait = 2
state_index ready = 3
state_index started = 4
state_index connecting = 5
state_index run = 6

-- `a is b` on states.
abbrev pub state_eq : State → State → Bool
state_eq a b = state_index a == state_index b

-- `_STATE_TX`
unfoldable pub state_tx : State → TxMode
state_tx started = send_nulls
state_tx connecting = send_nulls_fcts
state_tx run = send_nulls_fcts_nchars_timecodes
state_tx _ = reset

-- `_STATE_RX_ENABLED`
unfoldable pub state_rx_enabled : State → Bool
state_rx_enabled error_reset = false
state_rx_enabled _ = true

unfoldable pub output : LinkFsm → Output
unfolding state_tx state_rx_enabled
output f = record {
  state = f.state;
  tx_mode = state_tx f.state;
  rx_enabled = state_rx_enabled f.state;
  bit_rate_bps = if state_eq f.state run then f.target_bit_rate_bps else initial_bit_rate_bps;
}

-- `_update_flags`
unfoldable pub update_flags : Event → LinkFsm → LinkFsm
update_flags got_null f = record f { got_null_latched = true }
update_flags link_start f = record f { is_link_start = true }
update_flags link_start_clear f = record f { is_link_start = false }
update_flags link_disable f = record f { is_link_disable = true }
update_flags link_disable_clear f = record f { is_link_disable = false }
update_flags auto_start f = record f { is_auto_start = true }
update_flags auto_start_clear f = record f { is_auto_start = false }
update_flags sent_null f =
    if state_eq f.state started then record f { sent_null_in_started = true } else f
update_flags sent_fct f =
    if state_eq f.state connecting then record f { sent_fct_in_connecting = true } else f
update_flags got_fct f =
    if state_eq f.state connecting then record f { got_fct_in_connecting = true } else f
update_flags _ f = f

-- `_enter`
unfoldable pub enter : State → LinkFsm → LinkFsm
enter error_reset f = record f {
  state = error_reset;
  got_null_latched = false;
  sent_null_in_started = false;
  sent_fct_in_connecting = false;
  got_fct_in_connecting = false;
}
enter started f = record f { state = started; sent_null_in_started = false }
enter connecting f = record f {
  state = connecting;
  sent_fct_in_connecting = false;
  got_fct_in_connecting = false;
}
enter s f = record f { state = s }

-- `_link_enabled`
unfoldable pub link_enabled : LinkFsm → Bool
link_enabled f =
    if f.is_link_disable
    then false
    else if f.is_link_start
    then true
    else f.is_auto_start && f.got_null_latched

-- `event in {GOT_FCT, GOT_N_CHAR, GOT_TIME_CODE}`
abbrev is_character_event : Option Event → Bool
is_character_event (some got_fct) = true
is_character_event (some got_n_char) = true
is_character_event (some got_time_code) = true
is_character_event _ = false

abbrev is_rx_err : Option Event → Bool
is_rx_err (some rx_err) = true
is_rx_err _ = false

abbrev is_tick_6_4us : Option Event → Bool
is_tick_6_4us (some tick_6_4us) = true
is_tick_6_4us _ = false

abbrev is_tick_12_8us : Option Event → Bool
is_tick_12_8us (some tick_12_8us) = true
is_tick_12_8us _ = false

-- `_wait_state_error`
unfoldable pub wait_state_error : LinkFsm → Option Event → Bool
wait_state_error f e =
    if is_rx_err e then true else if not f.got_null_latched then false else is_character_event e

unfoldable pub in_error_reset : LinkFsm → Option Event → Option State
in_error_reset f e = if is_tick_6_4us e && not f.is_link_disable then some error_wait else none

unfoldable pub in_error_wait : LinkFsm → Option Event → Option State
unfolding wait_state_error
in_error_wait f e =
    if wait_state_error f e then some error_reset else if is_tick_12_8us e then some ready else none

unfoldable pub in_ready : LinkFsm → Option Event → Option State
unfolding wait_state_error link_enabled
in_ready f e =
    if wait_state_error f e then some error_reset else if link_enabled f then some started else none

unfoldable pub in_started : LinkFsm → Option Event → Option State
unfolding wait_state_error
in_started f e =
    if wait_state_error f e
    then some error_reset
    else if is_tick_12_8us e
    then some error_reset
    else if f.sent_null_in_started && f.got_null_latched
    then some connecting
    else none

-- The events that take Connecting back: RX_ERR, CREDIT_ERR, and the set {GOT_N_CHAR, GOT_TIME_CODE}.
abbrev is_connecting_error : Option Event → Bool
is_connecting_error (some rx_err) = true
is_connecting_error (some credit_err) = true
is_connecting_error (some got_n_char) = true
is_connecting_error (some got_time_code) = true
is_connecting_error _ = false

unfoldable pub in_connecting : LinkFsm → Option Event → Option State
in_connecting f e =
    if is_connecting_error e
    then some error_reset
    else if is_tick_12_8us e
    then some error_reset
    else if f.sent_fct_in_connecting && f.got_fct_in_connecting
    then some run
    else none

unfoldable pub in_run : LinkFsm → Option Event → Option State
in_run f (some rx_err) = some error_reset
in_run f (some credit_err) = some error_reset
in_run f (some link_disable) = some error_reset
in_run f _ = none

-- `_HANDLERS[state]`
unfoldable pub handler : State → LinkFsm → Option Event → Option State
unfolding in_error_reset in_error_wait in_ready in_started in_connecting in_run
handler error_reset = in_error_reset
handler error_wait = in_error_wait
handler ready = in_ready
handler started = in_started
handler connecting = in_connecting
handler run = in_run

-- The loop of `feed`; only the first round sees the event.
unfoldable pub transitions : ℕ → Option Event → LinkFsm → LinkFsm
transitions zero e f = f
transitions (suc rounds) e f = elim (handler f.state f e) [
  | none ↦ f
  | some next_state ↦ elim (state_eq next_state f.state) [
    | true ↦ f
    | false ↦ transitions rounds none (enter next_state f)
  ]
]

unfoldable pub feed : Event → LinkFsm → LinkFsm
feed e f = transitions 8 (some e) (update_flags e f)
