-- ===== src/Driver/Invariant.antt =====
-- driver.py: the invariant of a driver, and every action keeps it.
use cocotbext_spacewire.Base.Int.{ℤ}
use cocotbext_spacewire.Base.{
  ℕ, ◌≡◌, refl, sym, ap, ap₂, ◌∙◌, subst, inl, inr, List, [], ◌∷◌, ◌++◌, append-nil, append_assoc,
  Bit, length, length-append, Outcome-cases, leb, Bool-cases, arith,
}
use cocotbext_spacewire.Driver.{
  Driver, RunTask, off, top, parked, timing, normalize_bits, drive_levels, start, stop, enqueue_bit,
  enqueue_bits, send_bits, wait_until_driven, enqueue_and_wait, send_bits_and_wait, mark_bit_driven,
  tx_bit, run_from, run,
}
use cocotbext_spacewire.Driver.Run.{
  Action, starts, stops, runs, wakes, bit_ends, sends, sends_and_waits, sets_rate, run_step,
  wake_step, bit_step, act, act_all, accepted, accepted_all, bits_or_none,
}
use cocotbext_spacewire.Driver.Lines.{
  strobe_of, level_pairs, last_pair, changes, last_pair-snoc, changes-bit, changes-again,
  level_pairs_next, changes_next,
}

-- `sent` is what callers have queued so far, and `driven` the part of it that is on the lines; the
-- lines had the levels `d` and `s` before.
pub record Inv (d s : Bit) (sent driven : List Bit) (m : Driver) : Type 0 where
  pub fifo : driven ++ m.queue ≡ sent
  pub count : m.driven_bits ≡ length driven
  pub total : m.enqueued_bits ≡ length sent
  pub now : last_pair d s (level_pairs d s driven) ≡ (m.prev_d, m.s)
  pub lines : changes d s m.levels ≡ level_pairs d s driven
  pub last : last_pair d s m.levels ≡ (m.prev_d, m.s)

-- The same with some part of `sent`.
abbrev HasInv : Bit → Bit → List Bit → Driver → Type 0
HasInv d s sent m = (driven : List Bit) × Inv d s sent driven m

module _ (d s : Bit) (sent : List Bit) where
  -- The levels are written again: no edge.
  started-Inv :
      (driven : List Bit) (m : Driver)
      → Inv d s sent driven m
      → Inv d s sent driven (record (drive_levels m.prev_d m.s m) { task = top })
  unfolding drive_levels
  started-Inv driven m v = record {
    fifo = v.fifo;
    count = v.count;
    total = v.total;
    now = v.now;
    lines =
        changes_next d s m.levels (m.prev_d, m.s) v.last
        ∙ ap (◌++◌ (changes d s m.levels)) (changes-again m.prev_d m.s)
        ∙ append-nil _
        ∙ v.lines;
    last = last_pair-snoc d s m.levels _;
  }

  start-Inv :
      (driven : List Bit) (m : Driver) → Inv d s sent driven m → Inv d s sent driven (start m).1
  unfolding start
  start-Inv driven m v = ground (arith, started-Inv driven m v)

  tx_bit-Inv :
      (driven : List Bit) (b : Bit) (bs : List Bit) (m : Driver)
      → m.queue ≡ b ∷ bs
      → Inv d s sent driven m
      → Inv d s sent (driven ++ b ∷ []) (tx_bit b (record m { queue = bs }))
  unfolding tx_bit drive_levels mark_bit_driven
  tx_bit-Inv driven b bs m q v =
      let pairs = level_pairs_next d s driven b v.now in
      let p : Bit × Bit = (b, strobe_of m.prev_d m.s b) in
      record {
        fifo = append_assoc driven (b ∷ []) bs ∙ ap (◌++◌ driven) (sym q) ∙ v.fifo;
        count = omega (arith, v.count, length-append driven (b ∷ []));
        total = v.total;
        now = ap (last_pair d s) pairs ∙ last_pair-snoc d s (level_pairs d s driven) p;
        lines =
            changes_next d s m.levels p v.last
            ∙ ap₂ ◌++◌ v.lines (changes-bit m.prev_d m.s b)
            ∙ sym pairs;
        last = last_pair-snoc d s m.levels p;
      }

  run_from-Inv :
      (driven queue : List Bit) (m : Driver)
      → m.queue ≡ queue
      → Inv d s sent driven m
      → HasInv d s sent (run_from queue m)
  unfolding run_from
  run_from-Inv driven [] m q v = (
    driven,
    record {
      fifo = v.fifo;
      count = v.count;
      total = v.total;
      now = v.now;
      lines = v.lines;
      last = v.last;
    },
  )
  run_from-Inv driven (b ∷ bs) m q v =
      let w = tx_bit-Inv driven b bs m q v in
      (
        driven ++ b ∷ [],
        record {
          fifo = w.fifo;
          count = w.count;
          total = w.total;
          now = w.now;
          lines = w.lines;
          last = w.last;
        },
      )

-- One more bit in the queue.
enqueue_bit-Inv :
    (d s : Bit) (sent driven : List Bit) (b : Bit) (m : Driver)
    → Inv d s sent driven m
    → Inv d s (sent ++ b ∷ []) driven (enqueue_bit b m)
unfolding enqueue_bit
enqueue_bit-Inv d s sent driven b m v = record {
  fifo = sym (append_assoc driven m.queue (b ∷ [])) ∙ ap (λ bs. bs ++ b ∷ []) v.fifo;
  count = v.count;
  total = omega (arith, v.total, length-append sent (b ∷ []));
  now = v.now;
  lines = v.lines;
  last = v.last;
}

enqueue_bits-Inv :
    (d s : Bit) (sent driven bs : List Bit) (m : Driver)
    → Inv d s sent driven m
    → Inv d s (sent ++ bs) driven (enqueue_bits bs m)
unfolding enqueue_bits
enqueue_bits-Inv d s sent driven [] m v = rw append-nil v
enqueue_bits-Inv d s sent driven (b ∷ bs) m v =
    subst (λ all. Inv d s all driven (enqueue_bits bs (enqueue_bit b m)))
      (append_assoc sent (b ∷ []) bs)
      (enqueue_bits-Inv d s (sent ++ b ∷ []) driven bs (enqueue_bit b m)
        (enqueue_bit-Inv d s sent driven b m v))

waiting-Inv :
    (d s : Bit) (sent driven : List Bit) (target : ℕ) (m : Driver)
    → Inv d s sent driven m
    → Inv d s sent driven (wait_until_driven target m).1
unfolding wait_until_driven
waiting-Inv d s sent driven target m v = elim (Bool-cases (leb target m.driven_bits)) [
  | inl h ↦ rw (h, wait_until_driven) v
  | inr h ↦
      rw (h, wait_until_driven)
        (record {
          fifo = v.fifo;
          count = v.count;
          total = v.total;
          now = v.now;
          lines = v.lines;
          last = v.last;
        })
]

enqueue_and_wait-Inv :
    (d s : Bit) (sent driven bs : List Bit) (m : Driver)
    → Inv d s sent driven m
    → Inv d s (sent ++ bs) driven (enqueue_and_wait bs m).1
enqueue_and_wait-Inv d s sent driven [] m v = rw append-nil v
enqueue_and_wait-Inv d s sent driven (b ∷ bs) m v =
    waiting-Inv d s (sent ++ b ∷ bs) driven _ (enqueue_bits (b ∷ bs) m)
      (enqueue_bits-Inv d s sent driven (b ∷ bs) m v)

-- `send_bits` and `send_bits_and_wait`, by what the normalization gives.
send_bits-Inv :
    (d s : Bit) (sent driven : List Bit) (vs : List ℤ) (m : Driver)
    → Inv d s sent driven m
    → Inv d s (sent ++ bits_or_none (normalize_bits vs)) driven (send_bits vs m).1
unfolding send_bits
send_bits-Inv d s sent driven vs m v = elim (Outcome-cases (normalize_bits vs)) [
  | inl (bs, e) ↦ rw (e, send_bits) (enqueue_bits-Inv d s sent driven bs m v)
  | inr (x, e) ↦ rw (e, send_bits) (rw append-nil v)
]

send_bits_and_wait-Inv :
    (d s : Bit) (sent driven : List Bit) (vs : List ℤ) (m : Driver)
    → Inv d s sent driven m
    → Inv d s (sent ++ bits_or_none (normalize_bits vs)) driven (send_bits_and_wait vs m).1
unfolding send_bits_and_wait
send_bits_and_wait-Inv d s sent driven vs m v = elim (Outcome-cases (normalize_bits vs)) [
  | inl (bs, e) ↦ rw (e, send_bits_and_wait) (enqueue_and_wait-Inv d s sent driven bs m v)
  | inr (x, e) ↦ rw (e, send_bits_and_wait) (rw append-nil v)
]

-- The task does not matter to the invariant.
task-Inv :
    (d s : Bit) (sent driven : List Bit) (task : RunTask) (m : Driver)
    → Inv d s sent driven m
    → Inv d s sent driven (record m { task = task })
task-Inv d s sent driven task m v = record {
  fifo = v.fifo;
  count = v.count;
  total = v.total;
  now = v.now;
  lines = v.lines;
  last = v.last;
}

rate-Inv :
    (d s : Bit) (sent driven : List Bit) (rate : ℤ) (m : Driver)
    → Inv d s sent driven m
    → Inv d s sent driven (record m { bit_rate_bps = rate })
rate-Inv d s sent driven rate m v = record {
  fifo = v.fifo;
  count = v.count;
  total = v.total;
  now = v.now;
  lines = v.lines;
  last = v.last;
}

run_step-Inv :
    (d s : Bit) (sent : List Bit) (task : RunTask) (m : Driver)
    → HasInv d s sent m
    → HasInv d s sent (run_step task m)
unfolding run_step run
run_step-Inv d s sent top m (driven, v) = run_from-Inv d s sent driven m.queue m refl v
run_step-Inv d s sent _ m v = v

wake_step-Inv :
    (d s : Bit) (sent driven : List Bit) (task : RunTask) (m : Driver)
    → Inv d s sent driven m
    → Inv d s sent driven (wake_step task m)
unfolding wake_step
wake_step-Inv d s sent driven parked m v = ground (arith, task-Inv d s sent driven top m v)
wake_step-Inv d s sent driven _ m v = v

bit_step-Inv :
    (d s : Bit) (sent driven : List Bit) (task : RunTask) (m : Driver)
    → Inv d s sent driven m
    → Inv d s sent driven (bit_step task m)
unfolding bit_step
bit_step-Inv d s sent driven timing m v = task-Inv d s sent driven top m v
bit_step-Inv d s sent driven _ m v = v

act-Inv :
    (d s : Bit) (sent : List Bit) (a : Action) (m : Driver)
    → HasInv d s sent m
    → HasInv d s (sent ++ accepted a) (act a m)
unfolding act stop accepted
act-Inv d s sent starts m (driven, v) = (driven, rw append-nil (start-Inv d s sent driven m v))
act-Inv d s sent stops m (driven, v) = (driven, rw append-nil (task-Inv d s sent driven off m v))
act-Inv d s sent runs m v = rw append-nil (run_step-Inv d s sent m.task m v)
act-Inv d s sent wakes m (driven, v) =
    (driven, rw append-nil (wake_step-Inv d s sent driven m.task m v))
act-Inv d s sent bit_ends m (driven, v) =
    (driven, rw append-nil (bit_step-Inv d s sent driven m.task m v))
act-Inv d s sent (sets_rate rate) m (driven, v) =
    (driven, rw append-nil (rate-Inv d s sent driven rate m v))
act-Inv d s sent (sends vs) m (driven, v) = (driven, send_bits-Inv d s sent driven vs m v)
act-Inv d s sent (sends_and_waits vs) m (driven, v) =
    (driven, send_bits_and_wait-Inv d s sent driven vs m v)

pub act_all-Inv :
    (d s : Bit) (sent : List Bit) (actions : List Action) (m : Driver)
    → HasInv d s sent m
    → HasInv d s (sent ++ accepted_all actions) (act_all actions m)
unfolding act_all accepted_all
act_all-Inv d s sent [] m v = rw append-nil v
act_all-Inv d s sent (a ∷ more) m v =
    subst (λ all. HasInv d s all (act_all more (act a m)))
      (append_assoc sent (accepted a) (accepted_all more))
      (act_all-Inv d s (sent ++ accepted a) more (act a m) (act-Inv d s sent a m v))
