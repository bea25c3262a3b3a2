-- ===== src/Driver/Waiters.antt =====
-- driver.py: the callers of `send_bits_and_wait`, who wait for their last bit.
use cocotbext_spacewire.Base.Int.{ℤ}
use cocotbext_spacewire.Base.{
  ℕ, zero, suc, ◌+◌, ◌<◌, ◌≡◌, ◌⊎◌, refl, sym, ◌∙◌, inl, inr, true, List, [], ◌∷◌, ◌++◌, Bit,
  length, length-append, Outcome-cases, ok-injective, subst, bit_eq, bit_xor, ok, raise,
  if◌then◌else◌, arith,
}
use cocotbext_spacewire.Driver.{
  Driver, top, normalize_bits, drive_levels, enqueue_bit, enqueue_bits, waits_for,
  wait_until_driven, enqueue_and_wait, send_bits_and_wait, init, ready, pending, mark_bit_driven,
  tx_bit, run_from, run,
}
use cocotbext_spacewire.Driver.Refinement.{counts_agree}
use cocotbext_spacewire.Driver.Run.{Action, runs, bit_ends, run_step, bit_step, act, act_all}

-- An event is in the list of those that are set.
abbrev IsSetIn : ℕ → List ℕ → Type 0
IsSetIn event [] = ⊥
IsSetIn event (e ∷ events) = (event ≡ e) ⊎ IsSetIn event events

-- A waiter for a count, with its event, is in the list.
abbrev Awaits : ℕ → ℕ → List (ℕ × ℕ) → Type 0
Awaits target event [] = ⊥
Awaits target event ((t, e) ∷ waiters) = (target ≡ t) × (event ≡ e) ⊎ Awaits target event waiters

IsSetIn-left : (e : ℕ) (xs ys : List ℕ) → IsSetIn e xs → IsSetIn e (xs ++ ys)
IsSetIn-left e [] ys i = elim i [ ]
IsSetIn-left e (x ∷ xs) ys i = ground (arith, IsSetIn-left e xs ys)

IsSetIn-right : (e : ℕ) (xs ys : List ℕ) → IsSetIn e ys → IsSetIn e (xs ++ ys)
IsSetIn-right e [] ys i = i
IsSetIn-right e (x ∷ xs) ys i = inr (IsSetIn-right e xs ys i)

Awaits-snoc : (t e : ℕ) (ws : List (ℕ × ℕ)) → Awaits t e (ws ++ (t, e) ∷ [])
Awaits-snoc t e [] = inl (refl, refl)
Awaits-snoc t e ((x, y) ∷ ws) = inr (Awaits-snoc t e ws)

-- A waiter is served by the count that it waits for, or stays.
ready_or_pending :
    (driven target event : ℕ) (waiters : List (ℕ × ℕ))
    → Awaits target event waiters
    → (IsSetIn event (ready driven waiters))
      ⊎ (driven < target) × Awaits target event (pending driven waiters)
unfolding ready pending
ready_or_pending driven target event [] i = elim i [ ]
ready_or_pending driven target event ((t, e) ∷ waiters) i =
    ground (arith, ready_or_pending driven target event waiters)

-- The waiter is served, or waits for a count that is still to come.
abbrev pub Due : ℕ → ℕ → Driver → Type 0
Due target event m =
    IsSetIn event m.events_set ⊎ (m.driven_bits < target) × Awaits target event m.drive_waiters

mark-Due : (t e : ℕ) (m : Driver) → Due t e m → Due t e (mark_bit_driven m)
unfolding mark_bit_driven
mark-Due t e m (inl i) = inl (IsSetIn-left e m.events_set _ i)
mark-Due t e m (inr (l, w)) = elim (ready_or_pending (m.driven_bits + 1) t e m.drive_waiters w) [
  | inl i ↦ inl (IsSetIn-right e m.events_set _ i)
  | inr r ↦ inr r
]

-- A bit's worth of rounds: the loop takes a bit and its time ends.
unfoldable pub rounds : ℕ → List Action
rounds zero = []
rounds (suc n) = runs ∷ bit_ends ∷ rounds n

tx_bit-Due : (t e : ℕ) (b : Bit) (m : Driver) → Due t e m → Due t e (tx_bit b m)
unfolding tx_bit drive_levels
tx_bit-Due t e b m d =
    let m₁ = record m { s = if bit_eq b m.prev_d then bit_xor m.s true else m.s } in
    mark-Due t e (record (drive_levels b m₁.s m₁) { prev_d = b }) d

-- The driver after a round.
after_round : Bit → List Bit → Driver → Driver
after_round b bs m = record (tx_bit b (record m { queue = bs })) { task = top }

round-eq :
    (b : Bit) (bs : List Bit) (m : Driver)
    → m.task ≡ top
    → m.queue ≡ b ∷ bs
    → act bit_ends (act runs m) ≡ after_round b bs m
unfolding act run_step bit_step run run_from after_round
round-eq b bs m h q = rw (h, run_step) (rw (q, run_from))

-- What a number of rounds has done.
abbrev Drained : ℕ → ℕ → ℕ → Driver → Driver → Type 0
Drained count t e m m' = (m'.driven_bits ≡ m.driven_bits + count) × (m'.queue ≡ []) × Due t e m'

drained :
    (queue : List Bit) (t e : ℕ) (m : Driver)
    → m.task ≡ top
    → m.queue ≡ queue
    → Due t e m
    → Drained (length queue) t e m (act_all (rounds (length queue)) m)
unfolding act_all rounds after_round tx_bit drive_levels mark_bit_driven
drained [] t e m h q d = (omega arith, q, d)
drained (b ∷ bs) t e m h q d =
    let m' = after_round b bs m in
    let (n, r, d') = drained bs t e m' refl refl (tx_bit-Due t e b (record m { queue = bs }) d) in
    subst (λ x. Drained (length (b ∷ bs)) t e m (act_all (rounds (length bs)) x))
      (sym (round-eq b bs m h q)) (omega (arith, n), r, d')

enqueue_bits-counts :
    (bs : List Bit) (m : Driver)
    → let m' = enqueue_bits bs m in
      (m'.task ≡ m.task)
      × (m'.driven_bits ≡ m.driven_bits)
      × (m'.enqueued_bits ≡ m.enqueued_bits + length bs)
      × (length m'.queue ≡ length m.queue + length bs)
unfolding enqueue_bits enqueue_bit
enqueue_bits-counts [] m = (refl, refl, omega arith, omega arith)
enqueue_bits-counts (b ∷ bs) m =
    let r = enqueue_bits-counts bs (enqueue_bit b m) in
    (r.0, r.1, omega (arith, r.2), omega (arith, r.3, length-append m.queue (b ∷ [])))

-- A driver with a waiter for all the bits that it has queued.
abbrev IsWaitedFor : ℕ → Driver → Type 0
IsWaitedFor event m =
    (m.task ≡ top)
    × (m.enqueued_bits ≡ m.driven_bits + length m.queue)
    × Due m.enqueued_bits event m

waits-IsWaitedFor :
    (target event : ℕ) (m : Driver)
    → m.task ≡ top
    → m.enqueued_bits ≡ m.driven_bits + length m.queue
    → target ≡ m.enqueued_bits
    → (wait_until_driven target m).0 ≡ waits_for event
    → IsWaitedFor event (wait_until_driven target m).1
unfolding wait_until_driven
waits-IsWaitedFor target event m h n e w =
    ground (arith, Awaits-snoc target m.next_event m.drive_waiters)

enqueued-IsWaitedFor :
    (bs : List Bit) (event : ℕ) (m : Driver)
    → m.task ≡ top
    → m.enqueued_bits ≡ m.driven_bits + length m.queue
    → (enqueue_and_wait bs m).0 ≡ waits_for event
    → IsWaitedFor event (enqueue_and_wait bs m).1
enqueued-IsWaitedFor [] event m h n w = cc
enqueued-IsWaitedFor (b ∷ bs) event m h n w =
    let m' = enqueue_bits (b ∷ bs) m in
    let c = enqueue_bits-counts (b ∷ bs) m in
    waits-IsWaitedFor m'.enqueued_bits event m' (c.0 ∙ h) (omega (arith, c.1, c.2, c.3, n)) refl w

sent-IsWaitedFor :
    (vs : List ℤ) (event : ℕ) (m : Driver)
    → m.task ≡ top
    → m.enqueued_bits ≡ m.driven_bits + length m.queue
    → (send_bits_and_wait vs m).0 ≡ ok (waits_for event)
    → IsWaitedFor event (send_bits_and_wait vs m).1
unfolding send_bits_and_wait
sent-IsWaitedFor vs event m h n w = elim (Outcome-cases (normalize_bits vs)) [
  | inl (bs, e) ↦
      let w' : ok (enqueue_and_wait bs m).0 ≡ ok (waits_for event) =
        rw (e, send_bits_and_wait) at w in
      rw (e, send_bits_and_wait) (enqueued-IsWaitedFor bs event m h n (ok-injective w'))
  | inr (x, e) ↦ let w' : raise x ≡ ok (waits_for event) = rw (e, send_bits_and_wait) at w in cc
]

-- What becomes of a waiter.
pub record IsServed (event : ℕ) (m m' : Driver) : Type 0 where
  pub event_set : IsSetIn event m'.events_set
  pub queue_empty : m'.queue ≡ []
  pub all_driven : m'.driven_bits ≡ m.enqueued_bits

served :
    (event : ℕ) (m : Driver)
    → IsWaitedFor event m
    → IsServed event m (act_all (rounds (length m.queue)) m)
served event m (h, n, d) =
    let (count, empty, due) = drained m.queue m.enqueued_bits event m h refl d in
    record {
      event_set = elim due [ inl i ↦ i | inr (l, w) ↦ absurd (omega arith) ];
      queue_empty = empty;
      all_driven = omega arith;
    }

-- A caller of `send_bits_and_wait` that has to wait is served, whatever the driver has done since it
-- was built: once the loop, which stands at its top, has taken as many bits as are queued then, all of
-- them are driven and the caller's event is set.
pub waiter-IsServed :
    (rate initial_d initial_s : ℤ) (actions : List Action) (vs : List ℤ) {m : Driver} {event : ℕ}
    → init rate initial_d initial_s ≡ ok m
    → (act_all actions m).task ≡ top
    → (send_bits_and_wait vs (act_all actions m)).0 ≡ ok (waits_for event)
    → let m' = (send_bits_and_wait vs (act_all actions m)).1 in
      IsServed event m' (act_all (rounds (length m'.queue)) m')
waiter-IsServed rate initial_d initial_s actions vs {m} {event} built h w =
    served event (send_bits_and_wait vs (act_all actions m)).1 (
      sent-IsWaitedFor vs event (act_all actions m) h
        (counts_agree rate initial_d initial_s actions built) w)
