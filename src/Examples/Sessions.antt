-- ===== src/Examples/Sessions.antt =====
-- Instances of the theorems on two links of link.py.
use cocotbext_spacewire.Base.Int.{pos}
use cocotbext_spacewire.Base.{◌≡◌, refl, true, false, none, List, [], ◌∷◌, Bool, ok, arith}
use cocotbext_spacewire.LinkFsm as Fsm
use cocotbext_spacewire.FlowControl as Credit
use cocotbext_spacewire.FlowControl.{counter}
use cocotbext_spacewire.Characters.Delivery.{Synced}
use cocotbext_spacewire.Packet.{int, SpaceWirePacket, packet, eop_text, validate_data, len}
use cocotbext_spacewire.Link.State.{Link, init, credit_limit}
use cocotbext_spacewire.Link.Api.{send_packet}
use cocotbext_spacewire.Link.Rounds.{several, round, round_of}
use cocotbext_spacewire.Link.Connect.{opened, IsConnected, links_connect}
use cocotbext_spacewire.Link.Joined.{Joined, Stocked, payloads}
use cocotbext_spacewire.Link.Transfer.{Step, exchanges, receives, sends_packet, steps, taken}
use cocotbext_spacewire.Link.Arrival.{Arrived, packet_arrives}
use cocotbext_spacewire.Link.Cycles.{cycles, cycles_deliver}
use cocotbext_spacewire.Characters.Types.{plain, eop, is_n_char_type}
use cocotbext_spacewire.Characters.Requests.{control}
use cocotbext_spacewire.Base.{inl, inr}
use cocotbext_spacewire.Link.Session.{Delivered, links_deliver}
use cocotbext_spacewire.Examples.Links.{built}

-- A peer in AutoStart, at another bit rate.
abbrev peer : Link
peer = record built {
  fsm = Fsm.init 20000000;
  pending_link_start = false;
  pending_auto_start = true;
}

-- Behind three NULLs and their answer, then two characters of the peer and their answer.
abbrev connected : Link × Link
connected = round_of false 1 (round 2 (opened built, opened peer))

links_connect_example : IsConnected connected.0 × IsConnected connected.1
unfolding init Fsm.init credit_limit Credit.init
links_connect_example =
    links_connect 40000000 20000000 false false true (pos 8) (pos 8) none none 2 1 false {l = built}
      {p = peer} refl refl refl

-- A packet of one byte, sent by the first link and received by the other.
abbrev one_packet : List (Bool × Step)
one_packet =
    (true, sends_packet (int (pos 165) ∷ []) eop_text)
    ∷ (true, exchanges)
    ∷ (false, exchanges)
    ∷ (true, exchanges)
    ∷ (false, receives)
    ∷ []

links_deliver_example : Delivered one_packet connected (steps one_packet connected)
unfolding init Fsm.init credit_limit Credit.init
links_deliver_example =
    links_deliver 40000000 20000000 false false true (pos 8) (pos 8) none none 2 1 false one_packet
      {l = built} {p = peer} refl refl refl (omega arith) (omega arith)

-- In Run, with credit for eight N-Chars, which the other end has granted.
abbrev ready : Link
ready = record built {
  fsm = record (Fsm.init 40000000) { state = Fsm.run };
  credit = record (counter 8) { tx_credit = 8; rx_credit = 8 };
}

ready-Joined : Joined ready ready
ready-Joined = record {
  out = in_step;
  back = in_step;
  runs = refl;
  peer_runs = refl;
  here = stock;
  there = stock;
  granted = refl;
  grants = refl;
}
  where
    in_step : Synced ready.encoder ready.decoder
    in_step = record {
      same_content = refl;
      no_injection = refl;
      idle = (refl, refl);
      no_escape = refl;
    }

    stock : Stocked ready
    stock = record {
      limited = omega arith;
      capped = omega arith;
      sendable = tt;
      counted = refl;
      emptied = λ _. refl;
    }

abbrev one_byte : SpaceWirePacket
one_byte = record { bytes = 165 ∷ []; terminator = eop_text }

packet_arrives_example :
    ((send_packet (int (pos 165) ∷ []) eop_text ready).0 ≡ ok one_byte)
    × Arrived one_byte (several 9 ((send_packet (int (pos 165) ∷ []) eop_text ready).1, ready))
unfolding packet validate_data len
packet_arrives_example =
    packet_arrives (int (pos 165) ∷ []) eop_text 9 ready ready {x = one_byte} ready-Joined refl refl
      refl (omega arith) (omega arith)

-- The same, with an EOP to send.
abbrev loaded : Link
loaded = record ready {
  tx_nchar_queue = plain eop ∷ [];
  tx_nchar_outstanding = 1;
  tx_drained_evt = false;
}

loaded-Joined : Joined loaded ready
unfolding is_n_char_type
loaded-Joined = record {
  out = ready-Joined.out;
  back = ready-Joined.back;
  runs = refl;
  peer_runs = refl;
  here = record {
    limited = omega arith;
    capped = omega arith;
    sendable = ((control eop (inr (inl refl)), refl), tt);
    counted = refl;
    emptied = λ h. cc;
  };
  there = ready-Joined.there;
  granted = refl;
  grants = refl;
}

cycles_deliver_example :
    (payloads (taken (cycles 1) (loaded, ready)) ≡ payloads (plain eop ∷ []))
    × ((steps (cycles 1) (loaded, ready)).0.tx_nchar_queue ≡ [])
    × ((steps (cycles 1) (loaded, ready)).0.tx_drained_evt ≡ true)
cycles_deliver_example =
    cycles_deliver 1 loaded ready loaded-Joined refl (omega arith) (omega arith) (omega arith)
      (omega arith)
