-- ===== src/LinkFsm/Traces.antt =====
-- link_fsm.py: sequences of events.
use cocotbext_spacewire.Base.{
  ℕ, ◌≡◌, ◌≢◌, ◌⊎◌, inl, inr, sym, ◌∙◌, refl, Bool, true, false, some, List, [], ◌∷◌, All, arith,
}
use mathlib.Core.List.{Memᴰ}
use cocotbext_spacewire.LinkFsm.{
  error_reset, run, Event, got_null, got_fct, got_n_char, got_time_code, sent_null, sent_fct,
  link_disable_clear, LinkFsm, init, update_flags, enter, handler, feed,
}
use cocotbext_spacewire.LinkFsm.Feed.{after, feed-eq-after, IsSettled}
use cocotbext_spacewire.LinkFsm.Invariant.{Inv, init-Inv, feed-Inv}

-- The machine after a sequence of events.
unfoldable pub feed_all : List Event → LinkFsm → LinkFsm
feed_all [] f = f
feed_all (e ∷ es) f = feed_all es (feed e f)

feed_all-Inv : (es : List Event) (f : LinkFsm) → Inv f → Inv (feed_all es f)
unfolding feed_all
feed_all-Inv [] f v = v
feed_all-Inv (e ∷ es) f v = feed_all-Inv es (feed e f) (feed-Inv e f v)

-- A flag that only one event sets was set by that event.
module _ (flag : LinkFsm → Bool) (cause : Event)
    (sets : (e : Event) (f : LinkFsm)
      → flag f ≡ false
      → (e ≡ cause) ⊎ (flag (feed e f) ≡ false)) where
  flag_needs :
      (es : List Event) (f : LinkFsm) → flag f ≡ false → flag (feed_all es f) ≡ true → Memᴰ cause es
  unfolding feed_all
  flag_needs [] f low high = cc
  flag_needs (e ∷ es) f low high = elim (sets e f low) [
    | inl here ↦ Memᴰ.head (sym here)
    | inr still ↦ Memᴰ.tail (flag_needs es (feed e f) still high)
  ]

after-flags :
    (e : Event) (f : LinkFsm)
    → let g =
        after (handler (update_flags e f).state (update_flags e f) (some e)) (update_flags e f) in
      (f.got_null_latched ≡ false → (e ≡ got_null) ⊎ (g.got_null_latched ≡ false))
      × (f.sent_null_in_started ≡ false → (e ≡ sent_null) ⊎ (g.sent_null_in_started ≡ false))
      × (f.sent_fct_in_connecting ≡ false → (e ≡ sent_fct) ⊎ (g.sent_fct_in_connecting ≡ false))
      × (f.got_fct_in_connecting ≡ false → (e ≡ got_fct) ⊎ (g.got_fct_in_connecting ≡ false))
unfolding update_flags handler enter
after-flags e f = ground arith

feed-flags :
    (e : Event) (f : LinkFsm)
    → (f.got_null_latched ≡ false → (e ≡ got_null) ⊎ ((feed e f).got_null_latched ≡ false))
      × (f.sent_null_in_started ≡ false
          → (e ≡ sent_null) ⊎ ((feed e f).sent_null_in_started ≡ false))
      × (f.sent_fct_in_connecting ≡ false
          → (e ≡ sent_fct) ⊎ ((feed e f).sent_fct_in_connecting ≡ false))
      × (f.got_fct_in_connecting ≡ false
          → (e ≡ got_fct) ⊎ ((feed e f).got_fct_in_connecting ≡ false))
feed-flags e f = rw (feed-eq-after e f) (after-flags e f)

-- A new machine reaches Run only by events among which a NULL was sent and one received, and an FCT
-- was sent and one received.
pub run_needs_handshake :
    (target : ℕ) (es : List Event)
    → (feed_all es (init target)).state ≡ run
    → Memᴰ sent_null es × Memᴰ got_null es × Memᴰ sent_fct es × Memᴰ got_fct es
unfolding init
run_needs_handshake target es h =
    let f = init target in
    let v = feed_all-Inv es f (init-Inv target) in
    (
      flag_needs (λ f. f.sent_null_in_started) sent_null (λ e f. (feed-flags e f).1) es f refl
          (v.null_sent (inr h)),
      flag_needs (λ f. f.got_null_latched) got_null (λ e f. (feed-flags e f).0) es f refl
          (v.qualified (inr h)),
      flag_needs (λ f. f.sent_fct_in_connecting) sent_fct (λ e f. (feed-flags e f).2) es f refl
          (v.fcts h).0,
      flag_needs (λ f. f.got_fct_in_connecting) got_fct (λ e f. (feed-flags e f).3) es f refl
          (v.fcts h).1,
    )

-- The character events, before the first NULL.
after-noise :
    (e : Event) (f : LinkFsm)
    → (e ≡ got_fct) ⊎ (e ≡ got_n_char) ⊎ (e ≡ got_time_code)
    → Inv f
    → IsSettled f
    → f.got_null_latched ≡ false
    → after (handler (update_flags e f).state (update_flags e f) (some e)) (update_flags e f) ≡ f
unfolding update_flags handler enter
after-noise e f k v s low = ground arith

-- In a settled machine that satisfies the invariant, before the first NULL, an FCT, an N-Char or a
-- time-code from the line changes nothing at all.
feed_noise :
    (e : Event) (f : LinkFsm)
    → (e ≡ got_fct) ⊎ (e ≡ got_n_char) ⊎ (e ≡ got_time_code)
    → Inv f
    → IsSettled f
    → f.got_null_latched ≡ false
    → feed e f ≡ f
feed_noise e f k v s low = feed-eq-after e f ∙ after-noise e f k v s low

after-disabled :
    (e : Event) (f : LinkFsm)
    → e ≢ link_disable_clear
    → f.state ≡ error_reset
    → f.is_link_disable ≡ true
    → let g =
        after (handler (update_flags e f).state (update_flags e f) (some e)) (update_flags e f) in
      (g.state ≡ error_reset) × (g.is_link_disable ≡ true)
unfolding update_flags handler enter
after-disabled e f h s d = ground arith

feed-disabled :
    (e : Event) (f : LinkFsm)
    → e ≢ link_disable_clear
    → f.state ≡ error_reset
    → f.is_link_disable ≡ true
    → ((feed e f).state ≡ error_reset) × ((feed e f).is_link_disable ≡ true)
feed-disabled e f h s d = rw (feed-eq-after e f) (after-disabled e f h s d)

-- A disabled machine in ErrorReset stays there through all events but LINK_DISABLE_CLEAR.
feed_all-disabled :
    (es : List Event) (f : LinkFsm)
    → All (λ e. e ≢ link_disable_clear) es
    → f.state ≡ error_reset
    → f.is_link_disable ≡ true
    → ((feed_all es f).state ≡ error_reset) × ((feed_all es f).is_link_disable ≡ true)
unfolding feed_all
feed_all-disabled [] f hs s d = (s, d)
feed_all-disabled (e ∷ es) f hs s d =
    let (s', d') = feed-disabled e f hs.0 s d in feed_all-disabled es (feed e f) hs.1 s' d'
