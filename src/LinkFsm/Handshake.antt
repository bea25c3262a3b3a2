-- ===== src/LinkFsm/Handshake.antt =====
-- link_fsm.py: the way from ErrorReset to Run.
use cocotbext_spacewire.Base.{
  ◌≡◌, ◌⊎◌, inl, inr, sym, refl, Bool, true, false, some, List, [], ◌∷◌, ◌++◌, All, arith,
}
use mathlib.Core.List.{Memᴰ}
use cocotbext_spacewire.LinkFsm.{
  State, error_reset, error_wait, started, connecting, run, Event, got_null, got_fct, sent_null,
  sent_fct, tick_6_4us, tick_12_8us, LinkFsm, update_flags, enter, handler, feed,
}
use cocotbext_spacewire.LinkFsm.Feed.{after, feed-eq-after, IsSettled, feed-IsSettled}
use cocotbext_spacewire.LinkFsm.Traces.{feed_all}

feed_all-append :
    (xs ys : List Event) (f : LinkFsm) → feed_all (xs ++ ys) f ≡ feed_all ys (feed_all xs f)
unfolding feed_all
feed_all-append [] ys f = refl
feed_all-append (x ∷ xs) ys f = feed_all-append xs ys (feed x f)

-- A flag that is up, or that an event to come will raise.
abbrev Due : (LinkFsm → Bool) → Event → LinkFsm → List Event → Type 0
Due flag cause f es = (flag f ≡ true) ⊎ Memᴰ cause es

-- One event leaves a flag up, and raises it if it is its cause.
abbrev Raises : (LinkFsm → Bool) → Event → Event → LinkFsm → Type 0
Raises flag cause e f =
    (flag f ≡ true → flag (feed e f) ≡ true) × (e ≡ cause → flag (feed e f) ≡ true)

Due-tail :
    (flag : LinkFsm → Bool) (cause e : Event) (f : LinkFsm) (es : List Event)
    → Raises flag cause e f
    → Due flag cause f (e ∷ es)
    → Due flag cause (feed e f) es
Due-tail flag cause e f es r (inl up) = inl (r.0 up)
Due-tail flag cause e f es r (inr (Memᴰ.head p)) = inl (r.1 (sym p))
Due-tail flag cause e f es r (inr (Memᴰ.tail m)) = inr m

-- A stage of the handshake, left for the next one when both of its flags are up.
record Stage (Here There : LinkFsm → Type 0) (a b : LinkFsm → Bool) (cause_a cause_b : Event)
    (Allowed : Event → Type 0) : Type 0 where
  step :
      (e : Event) (f : LinkFsm)
      → Allowed e
      → Here f
      → There (feed e f) ⊎ Here (feed e f) × Raises a cause_a e f × Raises b cause_b e f
  keep : (e : Event) (f : LinkFsm) → Allowed e → There f → There (feed e f)
  full : (f : LinkFsm) → Here f → a f ≡ true → b f ≡ true → ⊥

module _ {Here There : LinkFsm → Type 0} {a b : LinkFsm → Bool} {cause_a cause_b : Event}
    {Allowed : Event → Type 0} (stage : Stage Here There a b cause_a cause_b Allowed) where
  stage_keeps : (es : List Event) (f : LinkFsm) → All Allowed es → There f → There (feed_all es f)
  unfolding feed_all
  stage_keeps [] f ok t = t
  stage_keeps (e ∷ es) f ok t = stage_keeps es (feed e f) ok.1 (stage.keep e f ok.0 t)

  stage_completes :
      (es : List Event) (f : LinkFsm)
      → All Allowed es
      → Here f
      → Due a cause_a f es
      → Due b cause_b f es
      → There (feed_all es f)
  unfolding feed_all
  stage_completes [] f ok h (inl up) (inl up') = absurd (stage.full f h up up')
  stage_completes [] f ok h (inl up) (inr m) = elim m [ ]
  stage_completes [] f ok h (inr m) db = elim m [ ]
  stage_completes (e ∷ es) f ok h da db = elim (stage.step e f ok.0 h) [
    | inl there ↦ stage_keeps es (feed e f) ok.1 there
    | inr (here, ra, rb) ↦
        stage_completes es (feed e f) ok.1 here (Due-tail a cause_a e f es ra da)
          (Due-tail b cause_b e f es rb db)
  ]

abbrev pub In : State → LinkFsm → Type 0
In s f = (f.state ≡ s) × IsSettled f

-- The events of the NULL exchange, and of the whole handshake.
abbrev pub IsNullEvent : Event → Type 0
IsNullEvent e = (e ≡ sent_null) ⊎ (e ≡ got_null)

abbrev pub IsHandshakeEvent : Event → Type 0
IsHandshakeEvent e = (e ≡ sent_null) ⊎ (e ≡ got_null) ⊎ (e ≡ sent_fct) ⊎ (e ≡ got_fct)

abbrev pub next : Event → LinkFsm → LinkFsm
next e f = let g = update_flags e f in after (handler g.state g (some e)) g

started-next :
    (e : Event) (f : LinkFsm)
    → IsNullEvent e
    → f.state ≡ started
    → ((next e f).state ≡ connecting)
      ⊎ ((next e f).state ≡ started)
        × ((f.sent_null_in_started ≡ true → (next e f).sent_null_in_started ≡ true)
            × (e ≡ sent_null → (next e f).sent_null_in_started ≡ true))
        × ((f.got_null_latched ≡ true → (next e f).got_null_latched ≡ true)
            × (e ≡ got_null → (next e f).got_null_latched ≡ true))
unfolding update_flags handler enter
started-next e f k s = ground arith

connecting-next_null :
    (e : Event) (f : LinkFsm) → IsNullEvent e → In connecting f → (next e f).state ≡ connecting
unfolding update_flags handler enter
connecting-next_null e f k s = ground arith

connecting-next :
    (e : Event) (f : LinkFsm)
    → IsHandshakeEvent e
    → f.state ≡ connecting
    → ((next e f).state ≡ run)
      ⊎ ((next e f).state ≡ connecting)
        × ((f.sent_fct_in_connecting ≡ true → (next e f).sent_fct_in_connecting ≡ true)
            × (e ≡ sent_fct → (next e f).sent_fct_in_connecting ≡ true))
        × ((f.got_fct_in_connecting ≡ true → (next e f).got_fct_in_connecting ≡ true)
            × (e ≡ got_fct → (next e f).got_fct_in_connecting ≡ true))
unfolding update_flags handler enter
connecting-next e f k s = ground arith

run-next : (e : Event) (f : LinkFsm) → IsHandshakeEvent e → f.state ≡ run → (next e f).state ≡ run
unfolding update_flags handler enter
run-next e f k s = ground arith

null_stage :
    Stage
      (In started)
      (In connecting)
      (λ f. f.sent_null_in_started)
      (λ f. f.got_null_latched)
      sent_null
      got_null
      IsNullEvent
unfolding handler
null_stage = record {
  step = λ e f k h.
      let rest = (feed-IsSettled e f 0).0 in
      elim (started-next e f k h.0) [
        | inl there ↦ inl (rw (feed-eq-after e f) there, rest)
        | inr (here, ra, rb) ↦ inr (
          (rw (feed-eq-after e f) here, rest),
          rw (feed-eq-after e f) ra,
          rw (feed-eq-after e f) rb,
        )
      ];
  keep =
      λ e f k h. (rw (feed-eq-after e f) (connecting-next_null e f k h), (feed-IsSettled e f 0).0);
  full = λ f h up up'. ground arith;
}

fct_stage :
    Stage
      (In connecting)
      (λ f. f.state ≡ run)
      (λ f. f.sent_fct_in_connecting)
      (λ f. f.got_fct_in_connecting)
      sent_fct
      got_fct
      IsHandshakeEvent
unfolding handler
fct_stage = record {
  step = λ e f k h. elim (connecting-next e f k h.0) [
    | inl there ↦ inl (rw (feed-eq-after e f) there)
    | inr (here, ra, rb) ↦ inr (
      (rw (feed-eq-after e f) here, (feed-IsSettled e f 0).0),
      rw (feed-eq-after e f) ra,
      rw (feed-eq-after e f) rb,
    )
  ];
  keep = λ e f k h. rw (feed-eq-after e f) (run-next e f k h);
  full = λ f h up up'. ground arith;
}

-- The two exchanges, from Started on.
pub exchanges_complete :
    (ns fs : List Event) (f : LinkFsm)
    → In started f
    → All IsNullEvent ns
    → Memᴰ sent_null ns
    → Memᴰ got_null ns
    → All IsHandshakeEvent fs
    → Memᴰ sent_fct fs
    → Memᴰ got_fct fs
    → (feed_all (ns ++ fs) f).state ≡ run
exchanges_complete ns fs f h an sn gn af sf gf = rw (feed_all-append ns fs f) (
    stage_completes fct_stage fs (feed_all ns f) af
      (stage_completes null_stage ns f an h (inr sn) (inr gn)) (inr sf) (inr gf))

opening-next :
    (f : LinkFsm)
    → f.state ≡ error_reset
    → f.is_link_disable ≡ false
    → f.is_link_start ≡ true
    → let g = next tick_6_4us f in
      (g.state ≡ error_wait) × (g.is_link_disable ≡ false) × (g.is_link_start ≡ true)
unfolding update_flags handler enter
opening-next f s d l = ground arith

waiting-next :
    (f : LinkFsm)
    → f.state ≡ error_wait
    → f.is_link_disable ≡ false
    → f.is_link_start ≡ true
    → (next tick_12_8us f).state ≡ started
unfolding update_flags handler enter
waiting-next f s d l = ground arith

opening :
    (f : LinkFsm)
    → f.state ≡ error_reset
    → f.is_link_disable ≡ false
    → f.is_link_start ≡ true
    → In started (feed tick_12_8us (feed tick_6_4us f))
opening f s d l =
    let g = feed tick_6_4us f in
    let (s', d', l') = opening-next f s d l in
    (
      rw (feed-eq-after tick_12_8us g) (
          waiting-next g (rw (feed-eq-after tick_6_4us f) s') (rw (feed-eq-after tick_6_4us f) d')
            (rw (feed-eq-after tick_6_4us f) l')),
      (feed-IsSettled tick_12_8us g 0).0,
    )

-- From ErrorReset, with the link started and not disabled, the two ticks, then NULLs sent and
-- received in any order and number, then FCTs and NULLs sent and received in any order and number,
-- lead to Run, provided that each of the four exchanges happens at least once.
pub handshake_completes :
    (ns fs : List Event) (f : LinkFsm)
    → f.state ≡ error_reset
    → f.is_link_disable ≡ false
    → f.is_link_start ≡ true
    → All IsNullEvent ns
    → Memᴰ sent_null ns
    → Memᴰ got_null ns
    → All IsHandshakeEvent fs
    → Memᴰ sent_fct fs
    → Memᴰ got_fct fs
    → (feed_all (tick_6_4us ∷ tick_12_8us ∷ ns ++ fs) f).state ≡ run
unfolding feed_all
handshake_completes ns fs f s d l an sn gn af sf gf =
    exchanges_complete ns fs _ (opening f s d l) an sn gn af sf gf
