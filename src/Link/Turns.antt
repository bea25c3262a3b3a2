-- ===== src/Link/Turns.antt =====
-- link.py: the turns of a link handshake, from Started to Run.
use cocotbext_spacewire.Base.{
  ℕ, ◌≡◌, ◌≢◌, inl, inr, refl, sym, ap, ap₂, ◌∙◌, subst, Bool, true, false, Outcome, ok, arith, ltb,
  if◌then◌else◌, ◌>>◌, return,
}
use cocotbext_spacewire.LinkFsm.{
  State, ready, started, connecting, run, reset, send_nulls_fcts, LinkFsm, sent_null, sent_fct,
  got_null, got_fct, output, update_flags, enter, link_enabled, wait_state_error, in_error_reset,
  in_error_wait, in_ready, in_started, in_connecting, in_run, handler, transitions, feed,
}
use cocotbext_spacewire.FlowControl.{on_fct_sent}
use cocotbext_spacewire.Characters.Types.{Character, fct, plain}
use cocotbext_spacewire.Characters.Encoder.{null_request}
use cocotbext_spacewire.Link.State.{Link}
use cocotbext_spacewire.Link.Fsm.{feed_fsm}
use cocotbext_spacewire.Link.Transmit.{
  next_char, next_handshake_char, on_credit, ignore, tx_end, mark_driven,
}
use cocotbext_spacewire.Link.Receive.{receive_fct}
use cocotbext_spacewire.Link.Exchange.{exchange, null-dispatch, fct-dispatch}
use cocotbext_spacewire.Link.Handshake.{
  View, Stands, Becomes, Meets, feed-stays, feed-moves, receive_fct_lem, turn-Meets,
}

-- The machine of a link that is not disabled, by its state and its flags.
abbrev pub machine : ℕ → Bool → Bool → State → Bool → Bool → Bool → Bool → LinkFsm
machine target wants_start wants_auto s got sent fct_sent fct_got = record {
  target_bit_rate_bps = target;
  state = s;
  got_null_latched = got;
  is_link_start = wants_start;
  is_link_disable = false;
  is_auto_start = wants_auto;
  sent_null_in_started = sent;
  sent_fct_in_connecting = fct_sent;
  got_fct_in_connecting = fct_got;
}

Becomes-trans : {v w : View} {l l₁ l₂ : Link} → Becomes v l l₁ → Becomes w l₁ l₂ → Becomes w l l₂
Becomes-trans b c = record {
  stands = c.stands;
  encoder = c.encoder ∙ b.encoder;
  decoder = c.decoder ∙ b.decoder;
}

null_turn :
    (v v' w w' : View) (l p : Link)
    → Meets v w l p
    → (output v.fsm).tx_mode ≢ reset
    → next_char (output v.fsm).tx_mode l ≡ (ok (null_request, false), l)
    → ((l : Link) → Stands v l → Becomes v' l (feed_fsm sent_null l))
    → ((p : Link) → Stands w p → Becomes w' p (feed_fsm got_null p))
    → Meets v' w' (exchange l p).0 (exchange l p).1
unfolding tx_end mark_driven
null_turn v v' w w' l p meets active chooses here there =
    turn-Meets l p l null_request v v' w w' sent_null (feed_fsm got_null) meets active chooses refl
      (λ l. refl) null-dispatch
      (λ e task. here (record l { encoder = e; tx_task = task }) meets.here) there

-- The credit that the FCT of the handshake grants, under a limit of `n`.
abbrev pub first_grant : ℕ → ℕ
first_grant n = if ltb n 8 then 0 else 8

-- The views in which NULLs are exchanged, then FCTs, then all, under a credit limit of `n`.
abbrev pub nulls : ℕ → LinkFsm → View
nulls n f = record {
  fsm = f;
  fct_sent = false;
  tx_credit = 0;
  rx_credit = 0;
  max_rx_credit = n;
  run_reached = false;
}

-- One end has sent its FCT, and the other end has it.
abbrev pub granting : ℕ → LinkFsm → View
granting n f = record {
  fsm = f;
  fct_sent = true;
  tx_credit = 0;
  rx_credit = first_grant n;
  max_rx_credit = n;
  run_reached = false;
}

abbrev pub granted : ℕ → LinkFsm → View
granted n f = record {
  fsm = f;
  fct_sent = false;
  tx_credit = 8;
  rx_credit = 0;
  max_rx_credit = n;
  run_reached = false;
}

abbrev pub runs : ℕ → LinkFsm → View
runs n f = record {
  fsm = f;
  fct_sent = true;
  tx_credit = 8;
  rx_credit = first_grant n;
  max_rx_credit = n;
  run_reached = true;
}

fct_turn :
    (v v' w w' : View) (l p : Link)
    → Meets v w l p
    → v.fct_sent ≡ false
    → v.rx_credit ≡ 0
    → (output v.fsm).tx_mode ≡ send_nulls_fcts
    → ((l : Link)
        → Stands (record v { fct_sent = true; rx_credit = first_grant v.max_rx_credit }) l
        → Becomes v' l (feed_fsm sent_fct l))
    → ((p : Link) → Stands w p → Becomes w' p (receive_fct (feed_fsm got_fct p)))
    → Meets v' w' (exchange l p).0 (exchange l p).1
unfolding tx_end mark_driven next_char next_handshake_char on_credit on_fct_sent
fct_turn v v' w w' l p meets unsent ungranted mode here there =
    let l₁ = record l { fct_sent_this_connecting = true } in
    let m = (on_credit on_fct_sent l₁).1 in
    let (fsm, fct_sent, tx_credit, rx_credit, limit, reached, idle) = meets.here in
    let none_granted = rx_credit ∙ ungranted in
    let kept : (m.decoder ≡ l.decoder)
        × (m ≡ record l₁ { credit = m.credit })
        × (m.credit.tx_credit ≡ l.credit.tx_credit)
        × (m.credit.rx_credit ≡ first_grant v.max_rx_credit)
        × (m.credit.max_rx_credit ≡ l.credit.max_rx_credit) =
      ground arith in
    let sender : Stands (record v { fct_sent = true; rx_credit = first_grant v.max_rx_credit }) m =
      subst (Stands _) (sym kept.1)
        (fsm, refl, kept.2 ∙ tx_credit, kept.3, kept.4 ∙ limit, reached, idle) in
    let chosen : Bool → Bool → Outcome (Character × Bool) × Link = λ only_nulls fct_sent.
      if only_nulls
      then (ok (null_request, false), l)
      else if fct_sent
      then (ok (null_request, false), l)
      else (ok (plain fct, false), m) in
    turn-Meets l p m (plain fct) v v' w w' sent_fct (λ p. receive_fct (feed_fsm got_fct p)) meets
      (λ h. let same = sym mode ∙ h in cc)
      (ap (λ mode. next_char mode l) mode ∙ ap₂ chosen idle.sends_all (fct_sent ∙ unsent)) kept.0
      (λ l. refl) fct-dispatch (λ e task. here (record m { encoder = e; tx_task = task }) sender)
      there

-- Both ends of the line, with the flags of their users.
module _ (t t' : ℕ) (a b a' b' : Bool) (n n' : ℕ) where
  abbrev here : State → Bool → Bool → Bool → Bool → LinkFsm
  here = machine t a b

  abbrev there : State → Bool → Bool → Bool → Bool → LinkFsm
  there = machine t' a' b'

  -- The NULLs of one end, which has no answer.
  pub null_sent :
      (x y : Bool) (l p : Link)
      → Meets
          (nulls n (here started false x false false))
          (nulls n' (there started y false false false))
          l
          p
      → Meets
          (nulls n (here started false true false false))
          (nulls n' (there started true false false false))
          (exchange l p).0
          (exchange l p).1
  unfolding output update_flags enter link_enabled wait_state_error in_error_reset in_error_wait
      in_ready in_started in_connecting in_run handler transitions feed next_char
  null_sent x y l p meets =
      null_turn _ _ _ _ l p meets (λ e. cc) refl
        (λ l s. feed-stays sent_null _ (here started false true false false) l refl refl s)
        (λ p s. feed-stays got_null _ (there started true false false false) p refl refl s)

  -- The answer to a NULL takes both ends to Connecting.
  pub null_answer :
      (l p : Link)
      → Meets
          (nulls n (here started true false false false))
          (nulls n' (there started false true false false))
          l
          p
      → Meets
          (nulls n (here connecting true true false false))
          (nulls n' (there connecting true true false false))
          (exchange l p).0
          (exchange l p).1
  unfolding output update_flags enter link_enabled wait_state_error in_error_reset in_error_wait
      in_ready in_started in_connecting in_run handler transitions feed next_char
  null_answer l p meets =
      null_turn _ _ _ _ l p meets (λ e. cc) refl
        (λ l s.
          feed-moves sent_null _ (here connecting true true false false) l refl refl
            (inr (inl refl)) s)
        (λ p s.
          feed-moves got_null _ (there connecting true true false false) p refl refl
            (inr (inl refl)) s)

  -- The FCT of one end, which has no answer.
  pub fct_first :
      (l p : Link)
      → Meets
          (nulls n (here connecting true true false false))
          (nulls n' (there connecting true true false false))
          l
          p
      → Meets
          (granting n (here connecting true true true false))
          (granted n' (there connecting true true false true))
          (exchange l p).0
          (exchange l p).1
  unfolding output update_flags enter link_enabled wait_state_error in_error_reset in_error_wait
      in_ready in_started in_connecting in_run handler transitions feed
  fct_first l p meets =
      fct_turn _ _ _ _ l p meets refl refl refl
        (λ l s. feed-stays sent_fct _ (here connecting true true true false) l refl refl s)
        (λ p s.
          let fed = feed-stays got_fct _ (there connecting true true false true) p refl refl s in
          Becomes-trans fed (receive_fct_lem _ _ refl fed.stands))

  -- NULLs, while there is no answer to the FCT.
  pub null_between :
      (l p : Link)
      → Meets
          (granting n (here connecting true true true false))
          (granted n' (there connecting true true false true))
          l
          p
      → Meets
          (granting n (here connecting true true true false))
          (granted n' (there connecting true true false true))
          (exchange l p).0
          (exchange l p).1
  unfolding output update_flags enter link_enabled wait_state_error in_error_reset in_error_wait
      in_ready in_started in_connecting in_run handler transitions feed next_char
      next_handshake_char
  null_between l p meets =
      let chosen : Bool → Bool → Outcome (Character × Bool) × Link = λ only_nulls fct_sent.
        if only_nulls
        then (ok (null_request, false), l)
        else if fct_sent
        then (ok (null_request, false), l)
        else (ignore (on_credit on_fct_sent) >> return (plain fct, false))
            (record l { fct_sent_this_connecting = true }) in
      null_turn _ _ _ _ l p meets (λ e. cc) (ap₂ chosen meets.here.6.sends_all meets.here.1)
        (λ l s. feed-stays sent_null _ (here connecting true true true false) l refl refl s)
        (λ p s. feed-stays got_null _ (there connecting true true false true) p refl refl s)

  -- The answer to the FCT takes both ends to Run.
  pub fct_answer :
      (l p : Link)
      → Meets
          (granted n (here connecting true true false true))
          (granting n' (there connecting true true true false))
          l
          p
      → Meets
          (runs n (here run true true true true))
          (runs n' (there run true true true true))
          (exchange l p).0
          (exchange l p).1
  unfolding output update_flags enter link_enabled wait_state_error in_error_reset in_error_wait
      in_ready in_started in_connecting in_run handler transitions feed
  fct_answer l p meets =
      fct_turn _ _ _ _ l p meets refl refl refl
        (λ l s. feed-moves sent_fct _ (here run true true true true) l refl refl (inr (inr refl)) s)
        (λ p s.
          let fed =
            feed-moves got_fct _ (there run true true true true) p refl refl (inr (inr refl)) s in
          Becomes-trans fed (receive_fct_lem _ _ refl fed.stands))

-- The first NULL to a peer that waits for it in Ready, in AutoStart.
pub null_wakes :
    (t t' : ℕ) (a b : Bool) (n n' : ℕ) (l p : Link)
    → Meets
        (nulls n (machine t a b started false false false false))
        (nulls n' (machine t' false true ready false false false false))
        l
        p
    → Meets
        (nulls n (machine t a b started false true false false))
        (nulls n' (machine t' false true started true false false false))
        (exchange l p).0
        (exchange l p).1
unfolding output update_flags enter link_enabled wait_state_error in_error_reset in_error_wait
    in_ready in_started in_connecting in_run handler transitions feed next_char
null_wakes t t' a b n n' l p meets =
    null_turn _ _ _ _ l p meets (λ e. cc) refl
      (λ l s. feed-stays sent_null _ (machine t a b started false true false false) l refl refl s)
      (λ p s.
        feed-moves got_null _ (machine t' false true started true false false false) p refl refl
          (inl refl) s)
