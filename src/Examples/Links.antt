-- ===== src/Examples/Links.antt =====
-- Instances of the theorems on link.py.
use cocotbext_spacewire.Base.Int.{pos}
use cocotbext_spacewire.Base.{ok, ◌≡◌, refl, inl, inr, true, false, none, some, List, [], ◌∷◌, ◌++◌}
use cocotbext_spacewire.LinkFsm.{
  error_reset, error_wait, started, rx_err, link_start, link_disable_clear, got_fct, tick_6_4us,
  TxMode, send_nulls_fcts_nchars_timecodes,
}
use cocotbext_spacewire.LinkFsm as Fsm
use cocotbext_spacewire.FlowControl.{counter}
use cocotbext_spacewire.FlowControl as Credit
use cocotbext_spacewire.FlowControl.Bounds.{Inv}
use cocotbext_spacewire.Characters.Types.{Character, plain, eop, fct}
use cocotbext_spacewire.Characters.Decoder.{fresh}
use cocotbext_spacewire.Link.State.{Link, TxTask, off, sending, init, credit_limit}
use cocotbext_spacewire.Link.Fsm.{feed_fsm, timer_expires}
use cocotbext_spacewire.Link.Transmit.{next_char}
use cocotbext_spacewire.Link.Receive.{dispatch}
use cocotbext_spacewire.Link.Api.{start}
use cocotbext_spacewire.Link.Actions.{
  Action, timer_ends, tx_runs, tx_wakes_up, tx_driven, samples, sends_char, disconnects, act_all,
}
use cocotbext_spacewire.Link.Timing.{IsTimed, timer_of_state}
use cocotbext_spacewire.Link.Credits.{Chosen, Permitted, next_char_lem, act_all-credit}
use cocotbext_spacewire.Link.Faults.{
  IsResetOf, link_reset, early_fct-credit, IsStranded, feed_each, disabled_expiry_strands,
}
use cocotbext_spacewire.Link.Restart.{restart_strands}
use cocotbext_spacewire.LinkFsm.{error_wait}
use cocotbext_spacewire.Link.Api.{stop}
use cocotbext_spacewire.Link.Sending.{in_flight, drained-sent, stop_strands_senders}
use cocotbext_spacewire.Characters.Requests.{control}
use cocotbext_spacewire.Link.Peers.{Arrives, tx_loop-Arrives}
use cocotbext_spacewire.Characters.Errors as Errors
use cocotbext_spacewire.Characters.Bits as Bits
use cocotbext_spacewire.Characters.Encoder as Encoders
use cocotbext_spacewire.Characters.Decoder as Decoders
use cocotbext_spacewire.Characters.Types as Types
use cocotbext_spacewire.Link.State as States
use cocotbext_spacewire.Link.Fsm as Events
use cocotbext_spacewire.Link.Transmit as Transmit
use cocotbext_spacewire.Link.Receive as Receive
use cocotbext_spacewire.Link.Api as Api
use cocotbext_spacewire.Link.Actions as Actions

-- A link that is to start, with room for one FCT's worth of N-Chars.
abbrev pub built : Link
built = record {
  fsm = Fsm.init 40000000;
  decoder = fresh [];
  encoder = record { prev_content_bits = []; bad_parity_offsets = [] };
  credit = counter 8;
  rx_fifo_capacity_nchars = 8;
  tx_nchar_queue = [];
  rx_nchar_queue = [];
  tx_nchar_outstanding = 0;
  tx_drained_evt = true;
  run_reached = false;
  error_reset_entered = false;
  tx_wakeup = false;
  timer_task = none;
  timer_gen = 0;
  tx_task = off;
  error_reset_count = 0;
  only_nulls = false;
  fct_sent_this_connecting = false;
  is_started = false;
  pending_link_start = true;
  pending_auto_start = false;
  pending_initial_fct_burst = 0;
  bit_rate_bps = 10000000;
}

abbrev null_bits : List Action
null_bits =
    samples (pos 0)
    ∷ samples (pos 1)
    ∷ samples (pos 1)
    ∷ samples (pos 1)
    ∷ samples (pos 0)
    ∷ samples (pos 1)
    ∷ samples (pos 0)
    ∷ samples (pos 0)
    ∷ []

abbrev fct_bits : List Action
fct_bits = samples (pos 0) ∷ samples (pos 1) ∷ samples (pos 0) ∷ samples (pos 0) ∷ []

-- From `start` to Run, and an EOP that is sent there.
abbrev session : List Action
session =
    (timer_ends ∷ timer_ends ∷ tx_runs ∷ tx_driven ∷ [])
    ++ null_bits
    ++ (tx_runs ∷ tx_driven ∷ [])
    ++ fct_bits
    ++ (sends_char (plain eop) ∷ tx_runs ∷ tx_driven ∷ [])

session_runs :
    ((act_all session (start built).1).fsm.state ≡ Fsm.run)
    × ((act_all session (start built).1).tx_drained_evt ≡ true)
unfolding Fsm.init Fsm.state_tx Fsm.state_rx_enabled Fsm.output Fsm.update_flags Fsm.enter
    Fsm.link_enabled Fsm.wait_state_error Fsm.in_error_reset Fsm.in_error_wait Fsm.in_ready
    Fsm.in_started Fsm.in_connecting Fsm.in_run Fsm.handler Fsm.transitions Fsm.feed
    States.credit_limit States.init Events.start_timer Events.cancel_timer Events.schedule
    Events.entered Events.on_state_change Events.feed_fsm Events.run_timer Events.timer_expires
    Transmit.on_credit Transmit.next_handshake_char Transmit.next_nchar Transmit.next_run_char
    Transmit.next_char Transmit.on_encoder Transmit.pick Transmit.tx_begin Transmit.tx_loop
    Transmit.tx_wakes Transmit.mark_driven Transmit.tx_end Receive.is_hard_error Receive.receive_fct
    Receive.receive_nchar Receive.on_rx_character Receive.dispatch Receive.dispatch_all
    Receive.feed_bit Receive.watchdog Api.start Api.disconnect Api.stop Api.enqueue_nchar
    Api.enqueue_nchars Api.send_char Api.send_packet Api.take_packet Actions.loop_step
    Actions.driven_step Actions.act Actions.act_all Bits.bit Bits.bits Bits.byte Bits.six_bit
    Bits.bits_from Bits.byte_to_lsb_bits Bits.or_from Bits.lsb_bits_to_int Bits.ones
    Bits.compute_parity Errors.push_first Errors.split_plus Errors.drop_spaces Errors.strip
    Errors.strip_parts Errors.error_types Errors.contains Errors.append_new Errors.combine_loop
    Errors.join_plus Errors.join_errors Errors.combine_errors Encoders.control_content_bits
    Encoders.init Encoders.reset Encoders.force_bad_parity Encoders.data_request Encoders.time_code
    Encoders.broadcast_request Encoders.any_zero Encoders.consume_bad_parity_request
    Encoders.advance Encoders.encode_primitive Encoders.encode_control Encoders.encode_data
    Encoders.after_escape Encoders.time_code_value Encoders.broadcast_value Encoders.encode_as
    Encoders.coerce_character Encoders.encode_character Encoders.encode
    Decoders.control_type_by_bits Decoders.init Decoders.reset Decoders.classify
    Decoders.parity_character Decoders.parse_primitive Decoders.offset_checks
    Decoders.combine_escaped Decoders.escaped_data_type Decoders.decode_escaped_data
    Decoders.resolve_escaped Decoders.resolve_primitive Decoders.count_errors
    Decoders.record_character Decoders.record_characters Decoders.complete Decoders.expected_of
    Decoders.is_partial Decoders.feed_bit Decoders.feed Decoders.push Credit.init
    Credit.on_fct_received Credit.on_nchar_sent Credit.can_send Credit.on_fct_sent
    Credit.on_nchar_received Credit.should_send_fct Credit.reset Credit.initial_fct_count
    Types.is_l_char_type Types.is_n_char_type Types.increment
session_runs = (refl, refl)

drained-sent_example :
    ((act_all session (start built).1).tx_nchar_queue ≡ [])
    × (in_flight (act_all session (start built).1).tx_task ≡ 0)
unfolding init Fsm.init credit_limit Credit.init
drained-sent_example =
    drained-sent 40000000 true false false (pos 8) none session {l = built} refl session_runs.1

-- The session before the EOP is driven.
abbrev sending_session : List Action
sending_session =
    (timer_ends ∷ timer_ends ∷ tx_runs ∷ tx_driven ∷ [])
    ++ null_bits
    ++ (tx_runs ∷ tx_driven ∷ [])
    ++ fct_bits
    ++ (sends_char (plain eop) ∷ tx_runs ∷ [])

sending_runs : (act_all sending_session (start built).1).tx_task ≡ sending (plain eop) true
unfolding Fsm.init Fsm.state_tx Fsm.state_rx_enabled Fsm.output Fsm.update_flags Fsm.enter
    Fsm.link_enabled Fsm.wait_state_error Fsm.in_error_reset Fsm.in_error_wait Fsm.in_ready
    Fsm.in_started Fsm.in_connecting Fsm.in_run Fsm.handler Fsm.transitions Fsm.feed
    States.credit_limit States.init Events.start_timer Events.cancel_timer Events.schedule
    Events.entered Events.on_state_change Events.feed_fsm Events.run_timer Events.timer_expires
    Transmit.on_credit Transmit.next_handshake_char Transmit.next_nchar Transmit.next_run_char
    Transmit.next_char Transmit.on_encoder Transmit.pick Transmit.tx_begin Transmit.tx_loop
    Transmit.tx_wakes Transmit.mark_driven Transmit.tx_end Receive.is_hard_error Receive.receive_fct
    Receive.receive_nchar Receive.on_rx_character Receive.dispatch Receive.dispatch_all
    Receive.feed_bit Receive.watchdog Api.start Api.disconnect Api.stop Api.enqueue_nchar
    Api.enqueue_nchars Api.send_char Api.send_packet Api.take_packet Actions.loop_step
    Actions.driven_step Actions.act Actions.act_all Bits.bit Bits.bits Bits.byte Bits.six_bit
    Bits.bits_from Bits.byte_to_lsb_bits Bits.or_from Bits.lsb_bits_to_int Bits.ones
    Bits.compute_parity Errors.push_first Errors.split_plus Errors.drop_spaces Errors.strip
    Errors.strip_parts Errors.error_types Errors.contains Errors.append_new Errors.combine_loop
    Errors.join_plus Errors.join_errors Errors.combine_errors Encoders.control_content_bits
    Encoders.init Encoders.reset Encoders.force_bad_parity Encoders.data_request Encoders.time_code
    Encoders.broadcast_request Encoders.any_zero Encoders.consume_bad_parity_request
    Encoders.advance Encoders.encode_primitive Encoders.encode_control Encoders.encode_data
    Encoders.after_escape Encoders.time_code_value Encoders.broadcast_value Encoders.encode_as
    Encoders.coerce_character Encoders.encode_character Encoders.encode
    Decoders.control_type_by_bits Decoders.init Decoders.reset Decoders.classify
    Decoders.parity_character Decoders.parse_primitive Decoders.offset_checks
    Decoders.combine_escaped Decoders.escaped_data_type Decoders.decode_escaped_data
    Decoders.resolve_escaped Decoders.resolve_primitive Decoders.count_errors
    Decoders.record_character Decoders.record_characters Decoders.complete Decoders.expected_of
    Decoders.is_partial Decoders.feed_bit Decoders.feed Decoders.push Credit.init
    Credit.on_fct_received Credit.on_nchar_sent Credit.can_send Credit.on_fct_sent
    Credit.on_nchar_received Credit.should_send_fct Credit.reset Credit.initial_fct_count
    Types.is_l_char_type Types.is_n_char_type Types.increment
sending_runs = refl

stop_strands_senders_example :
    (act_all
      (tx_runs ∷ [])
      (start (stop (act_all sending_session (start built).1))).1).tx_drained_evt
    ≡ false
unfolding init Fsm.init credit_limit Credit.init
stop_strands_senders_example =
    stop_strands_senders 40000000 true false false (pos 8) none sending_session (tx_runs ∷ [])
      (plain eop) {l = built} refl sending_runs

timer_of_state_example : IsTimed (act_all session (start built).1)
unfolding init Fsm.init credit_limit Credit.init
timer_of_state_example =
    timer_of_state 40000000 true false false (pos 8) none session {l = built} refl

act_all-credit_example : Inv (act_all session (start built).1).credit
unfolding init Fsm.init credit_limit Credit.init
act_all-credit_example =
    act_all-credit 40000000 true false false (pos 8) none session {l = built} refl

-- A link with one unit of credit, and an EOP to send.
abbrev supplied : Link
supplied = record built {
  credit = record (counter 0) { tx_credit = 1 };
  tx_nchar_queue = plain eop ∷ [];
}

next_char_lem_example :
    Chosen supplied
      (next_char send_nulls_fcts_nchars_timecodes supplied).0
      (next_char send_nulls_fcts_nchars_timecodes supplied).1
    × Permitted send_nulls_fcts_nchars_timecodes supplied
        (next_char send_nulls_fcts_nchars_timecodes supplied).0
next_char_lem_example = next_char_lem send_nulls_fcts_nchars_timecodes supplied

-- Started, with a NULL received.
abbrev waiting : Link
waiting = record built {
  fsm = record (Fsm.init 40000000) { state = started; got_null_latched = true };
}

link_reset_example : IsResetOf waiting (feed_fsm rx_err waiting)
link_reset_example = link_reset rx_err waiting (λ e. cc) (inl refl)

early_fct-credit_example :
    ((dispatch (plain fct) waiting).fsm.state ≡ error_reset)
    × ((dispatch (plain fct) waiting).credit.tx_credit ≡ 8)
early_fct-credit_example = early_fct-credit (plain fct) waiting (inr (inr refl)) refl refl refl

-- In ErrorReset and disabled, with the timer of that state.
abbrev blocked : Link
blocked = record (start built).1 { fsm = record (Fsm.init 40000000) { is_link_disable = true } }

disabled_expiry_strands_example :
    IsStranded (feed_each (link_disable_clear ∷ link_start ∷ []) (timer_expires blocked))
unfolding Api.start Events.start_timer feed_fsm Fsm.feed Fsm.transitions Fsm.handler
    Fsm.update_flags Fsm.init Fsm.output Fsm.state_tx
disabled_expiry_strands_example =
    disabled_expiry_strands (link_disable_clear ∷ link_start ∷ []) blocked
      (record { timer = (refl, refl, refl); rate = refl }) refl refl (λ e. cc, (λ e. cc, tt))

-- In ErrorWait.
abbrev held : Link
held = record built { fsm = record (Fsm.init 40000000) { state = error_wait } }

restart_strands_example :
    ((start (stop held)).0 ≡ ok tt)
    × ((start (stop held)).1.fsm.state ≡ error_wait)
    × ((start (stop held)).1.timer_task
        ≡ some (record {
          duration_ns = 6400;
          event = tick_6_4us;
          gen = (start (stop held)).1.timer_gen;
        }))
    × ((timer_expires (start (stop held)).1).fsm.state ≡ error_wait)
    × ((timer_expires (start (stop held)).1).timer_task ≡ none)
restart_strands_example = restart_strands held refl

-- In Run, with one unit of credit and an EOP to send.
abbrev pub in_run : Link
in_run = record supplied { fsm = record (Fsm.init 40000000) { state = Fsm.run } }

tx_loop-Arrives_example : Arrives in_run waiting
unfolding Fsm.output Fsm.state_tx
tx_loop-Arrives_example =
    tx_loop-Arrives in_run waiting (λ e. cc) (control eop (inr (inl refl)), tt)
      (record { same_content = refl; no_injection = refl; idle = (refl, refl); no_escape = refl })
