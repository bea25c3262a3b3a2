-- ===== src/Examples/Machine.antt =====
-- Instances of the theorems on link_fsm.py.
use cocotbext_spacewire.Base.{
  ℕ, ◌+◌, ◌≡◌, ◌↔◌, refl, inl, inr, true, false, some, List, [], ◌∷◌, ◌++◌,
}
use mathlib.Core.List.{Memᴰ}
use cocotbext_spacewire.LinkFsm.{
  error_reset, started, run, Event, got_null, got_fct, rx_err, sent_null, sent_fct, link_start,
  link_disable, tick_6_4us, tick_12_8us, LinkFsm, init, update_flags, enter, handler, transitions,
  feed,
}
use cocotbext_spacewire.LinkFsm.Feed.{IsSettled, feed-IsSettled}
use cocotbext_spacewire.LinkFsm.Invariant.{Inv, init-Inv, feed-Inv}
use cocotbext_spacewire.LinkFsm.Graph.{Moves, IsFailure, feed-Moves, feed-error_reset_iff}
use cocotbext_spacewire.LinkFsm.Traces.{feed_all, run_needs_handshake}
use cocotbext_spacewire.LinkFsm.Handshake.{handshake_completes}
use cocotbext_spacewire.LinkFsm.Disabled.{disabled_link_runs}

abbrev rate : ℕ
rate = 200000000

-- ErrorReset with the link start set, and Started.
abbrev begun : LinkFsm
begun = record {
  target_bit_rate_bps = rate;
  state = error_reset;
  got_null_latched = false;
  is_link_start = true;
  is_link_disable = false;
  is_auto_start = false;
  sent_null_in_started = false;
  sent_fct_in_connecting = false;
  got_fct_in_connecting = false;
}

abbrev at_started : LinkFsm
at_started = record begun { state = started }

feed-IsSettled_example :
    IsSettled (feed tick_12_8us begun)
    × (transitions (8 + 3) (some tick_12_8us) (update_flags tick_12_8us begun)
        ≡ feed tick_12_8us begun)
feed-IsSettled_example = feed-IsSettled tick_12_8us begun 3

feed-Inv_example : Inv (feed tick_6_4us (init rate))
feed-Inv_example = feed-Inv tick_6_4us (init rate) (init-Inv rate)

feed-Moves_example : Moves error_reset (feed tick_6_4us begun).state
feed-Moves_example = feed-Moves tick_6_4us begun

feed-error_reset_iff_example :
    ((feed rx_err at_started).state ≡ error_reset) ↔ IsFailure started false rx_err
feed-error_reset_iff_example = feed-error_reset_iff rx_err at_started (λ e. cc)

abbrev handshake : List Event
handshake = link_start ∷ tick_6_4us ∷ tick_12_8us ∷ got_null ∷ sent_null ∷ sent_fct ∷ got_fct ∷ []

run_needs_handshake_example :
    Memᴰ sent_null handshake
    × Memᴰ got_null handshake
    × Memᴰ sent_fct handshake
    × Memᴰ got_fct handshake
unfolding init feed_all feed transitions update_flags enter handler
run_needs_handshake_example = run_needs_handshake rate handshake refl

abbrev disabled : LinkFsm
disabled = record begun { is_link_disable = true }

abbrev null_exchange : List Event
null_exchange = got_null ∷ sent_null ∷ []

abbrev fct_exchange : List Event
fct_exchange = got_fct ∷ sent_null ∷ sent_fct ∷ []

handshake_completes_example :
    (feed_all (tick_6_4us ∷ tick_12_8us ∷ null_exchange ++ fct_exchange) begun).state ≡ run
handshake_completes_example =
    handshake_completes null_exchange fct_exchange begun refl refl refl (inr refl, (inl refl, tt))
      (Memᴰ.tail (Memᴰ.head refl)) (Memᴰ.head refl)
      (inr (inr (inr refl)), (inl refl, (inr (inr (inl refl)), tt)))
      (Memᴰ.tail (Memᴰ.tail (Memᴰ.head refl))) (Memᴰ.head refl)

disabled_link_runs_example :
    ((feed_all (link_disable ∷ null_exchange ++ fct_exchange) at_started).state ≡ run)
    × ((feed_all (link_disable ∷ null_exchange ++ fct_exchange) at_started).is_link_disable ≡ true)
unfolding handler
disabled_link_runs_example =
    disabled_link_runs null_exchange fct_exchange at_started (refl, refl) (inr refl, (inl refl, tt))
      (Memᴰ.tail (Memᴰ.head refl)) (Memᴰ.head refl)
      (inr (inr (inr refl)), (inl refl, (inr (inr (inl refl)), tt)))
      (Memᴰ.tail (Memᴰ.tail (Memᴰ.head refl))) (Memᴰ.head refl)
