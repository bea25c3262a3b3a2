-- ===== src/Link/Keeps.antt =====
-- link.py: what the receiving side of a link keeps, whatever the characters.
use cocotbext_spacewire.Base.Int.{ℤ}
use cocotbext_spacewire.Base.{
  Bool, true, none, List, [], ◌∷◌, ◌++◌, inl, inr, Bool-cases, Option-cases, Outcome-cases, arith,
}
use cocotbext_spacewire.LinkFsm.{Event, rx_err, credit_err}
use cocotbext_spacewire.FlowControl.{CreditCounter, on_fct_received, on_nchar_received}
use cocotbext_spacewire.Characters.Types.{Character}
use cocotbext_spacewire.Characters.Decoder.{Decoder}
use cocotbext_spacewire.Characters.Decoder as Decoders
use cocotbext_spacewire.Link.State.{Link}
use cocotbext_spacewire.Link.Fsm.{feed_fsm}
use cocotbext_spacewire.Link.Receive.{
  is_hard, receive_fct, receive_nchar, on_rx_character, event_of, dispatch, dispatch_all, feed_bit,
  watchdog,
}

-- A property of links that the receiving side's own fields do not touch.
abbrev pub IgnoresReceiver : (Link → Type 0) → Type 0
IgnoresReceiver P =
    (credit : CreditCounter) (queue : List Character) (wakeup : Bool) (decoder : Decoder) (l : Link)
    → P l
    → P (record l {
      credit = credit;
      rx_nchar_queue = queue;
      tx_wakeup = wakeup;
      decoder = decoder;
    })

module _ (P : Link → Type 0) (fed : (e : Event) (l : Link) → P l → P (feed_fsm e l))
    (ignores : IgnoresReceiver P) where
  receive_fct-keeps : (l : Link) → P l → P (receive_fct l)
  unfolding receive_fct on_fct_received
  receive_fct-keeps l p =
      let credit = (on_fct_received l.credit).1 in
      ground (
        arith,
        ignores credit l.rx_nchar_queue true l.decoder l p,
        fed credit_err (record l { credit = credit })
            (ignores credit l.rx_nchar_queue l.tx_wakeup l.decoder l p),
      )

  receive_nchar-keeps : (c : Character) (l : Link) → P l → P (receive_nchar c l)
  unfolding receive_nchar on_nchar_received
  receive_nchar-keeps c l p =
      let credit = (on_nchar_received l.credit).1 in
      ground (
        arith,
        ignores credit (l.rx_nchar_queue ++ c ∷ []) l.tx_wakeup l.decoder l p,
        fed credit_err (record l { credit = credit })
            (ignores credit l.rx_nchar_queue l.tx_wakeup l.decoder l p),
      )

  on_rx_character-keeps : (c : Character) (l : Link) → P l → P (on_rx_character c l)
  unfolding on_rx_character
  on_rx_character-keeps c l p = ground (arith, receive_fct-keeps l p, receive_nchar-keeps c l p)

  dispatch-keeps : (c : Character) (l : Link) → P l → P (dispatch c l)
  unfolding dispatch
  dispatch-keeps c l p = elim (Bool-cases (is_hard c.error)) [
    | inl h ↦ rw h (fed rx_err l p)
    | inr h ↦ rw h (elim (Option-cases (event_of c.type)) [
      | inl e ↦ rw e p
      | inr (event, e) ↦ rw e (on_rx_character-keeps c (feed_fsm event l) (fed event l p))
    ])
  ]

  dispatch_all-keeps : (cs : List Character) (l : Link) → P l → P (dispatch_all cs l)
  unfolding dispatch_all
  dispatch_all-keeps [] l p = p
  dispatch_all-keeps (c ∷ cs) l p = dispatch_all-keeps cs (dispatch c l) (dispatch-keeps c l p)

  -- A sampled bit keeps what every event keeps.
  pub feed_bit-keeps : (v : ℤ) (l : Link) → P l → P (feed_bit v l).1
  unfolding feed_bit
  feed_bit-keeps v l p =
      let decoder = (Decoders.feed v none l.decoder).1 in
      let p' = ignores l.credit l.rx_nchar_queue l.tx_wakeup decoder l p in
      elim (Outcome-cases (Decoders.feed v none l.decoder).0) [
        | inl (cs, e) ↦ rw (e, feed_bit) (dispatch_all-keeps cs (record l { decoder = decoder }) p')
        | inr (x, e) ↦ rw (e, feed_bit) p'
      ]

  pub watchdog-keeps : (disconnected : Bool) (l : Link) → P l → P (watchdog disconnected l)
  unfolding watchdog
  watchdog-keeps disconnected l p = ground (arith, fed rx_err l p)
