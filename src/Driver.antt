-- ===== src/Driver.antt =====
-- cocotbext/spacewire/driver.py: `SpaceWireDriver`. Its coroutine `_run` is cut at its waits, and what
-- it writes to `do` and `so` is kept as a list of pairs, the latest last.
pub mod Run
pub mod Lines
pub mod Invariant
pub mod Refinement
pub mod Waiters
use cocotbext_spacewire.Base.Int.{ℤ, pos, negsuc, leb_ℤ}
use cocotbext_spacewire.Base.{
  ℕ, ◌+◌, Bool, true, false, Option, none, some, List, [], ◌∷◌, ◌++◌, Bit, bit_eq, bit_xor, leb,
  ◌==◌, if◌then◌else◌, Outcome, ok, raise, value_error, runtime_error, map_ok, Method, ◌>>=◌, ◌>>◌,
  return, throw, lift, modify,
}

-- Where `_run` stands: at its top, waiting for `_not_empty`, or waiting for the end of a bit's time.
pub data RunTask : Type 0 where
  off top parked timing : RunTask

-- An `Event` of a waiter is a number, fresh for each waiter. The bit rate, a float in the code, is in
-- bits per second.
pub record Driver : Type 0 where
  pub bit_rate_bps : ℤ
  pub prev_d : Bit
  pub s : Bit
  pub queue : List Bit
  pub task : RunTask
  pub not_empty : Bool
  pub enqueued_bits : ℕ
  pub driven_bits : ℕ
  pub drive_waiters : List (ℕ × ℕ)
  pub next_event : ℕ
  pub events_set : List ℕ
  pub levels : List (Bit × Bit)

-- `_normalize_bit`
unfoldable pub normalize_bit : ℤ → Outcome Bit
normalize_bit (pos n) = if n == 0 then ok false else if n == 1 then ok true else raise value_error
normalize_bit (negsuc n) = raise value_error

-- `_normalize_bits`
unfoldable pub normalize_bits : List ℤ → Outcome (List Bit)
normalize_bits [] = ok []
normalize_bits (v ∷ vs) =
    let rest = normalize_bits vs in
    elim (normalize_bit v) [ ok b ↦ map_ok (◌∷◌ b) rest | raise e ↦ raise e ]

abbrev pub idle : ℤ → Bit → Bit → Driver
idle bit_rate prev_d s = record {
  bit_rate_bps = bit_rate;
  prev_d = prev_d;
  s = s;
  queue = [];
  task = off;
  not_empty = false;
  enqueued_bits = 0;
  driven_bits = 0;
  drive_waiters = [];
  next_event = 0;
  events_set = [];
  levels = [];
}

unfoldable pub init : ℤ → ℤ → ℤ → Outcome Driver
init bit_rate initial_d initial_s =
    if leb_ℤ bit_rate (pos 0) then raise value_error else elim (normalize_bit initial_d) [
      | raise e ↦ raise e
      | ok d ↦ map_ok (idle bit_rate d) (normalize_bit initial_s)
    ]

-- `_drive_levels`
unfoldable pub drive_levels : Bit → Bit → Driver → Driver
drive_levels d_level s_level m = record m { levels = m.levels ++ (d_level, s_level) ∷ [] }

abbrev is_off : RunTask → Bool
is_off off = true
is_off _ = false

unfoldable pub start : Method Driver (Unit {0})
start m =
    if is_off m.task
    then (ok tt, record (drive_levels m.prev_d m.s m) { task = top })
    else (raise runtime_error, m)

-- The bits that are queued, and the one whose time runs, stay as they are.
unfoldable pub stop : Driver → Driver
stop m = record m { task = off }

-- `_enqueue_bit`
unfoldable pub enqueue_bit : Bit → Driver → Driver
enqueue_bit b m = record m {
  queue = m.queue ++ b ∷ [];
  enqueued_bits = m.enqueued_bits + 1;
  not_empty = true;
}

unfoldable pub enqueue_bits : List Bit → Driver → Driver
enqueue_bits [] m = m
enqueue_bits (b ∷ bs) m = enqueue_bits bs (enqueue_bit b m)

unfoldable pub send_bits : List ℤ → Method Driver (Unit {0})
send_bits bits m = elim (normalize_bits bits) [
  | ok bs ↦ (ok tt, enqueue_bits bs m)
  | raise e ↦ (raise e, m)
]

-- A caller goes on, or waits for an event.
pub data Waiting : Type 0 where
  done : Waiting
  waits_for : ℕ → Waiting

-- `_wait_until_driven` up to its wait.
unfoldable pub wait_until_driven : ℕ → Driver → Waiting × Driver
wait_until_driven target_count m = if leb target_count m.driven_bits then (done, m) else (
  waits_for m.next_event,
  record m {
    drive_waiters = m.drive_waiters ++ (target_count, m.next_event) ∷ [];
    next_event = m.next_event + 1;
  },
)

-- `send_bits_and_wait` behind the normalization.
abbrev pub enqueue_and_wait : List Bit → Driver → Waiting × Driver
enqueue_and_wait [] m = (done, m)
enqueue_and_wait (b ∷ bs) m =
    let m' = enqueue_bits (b ∷ bs) m in wait_until_driven m'.enqueued_bits m'

unfoldable pub send_bits_and_wait : List ℤ → Method Driver Waiting
send_bits_and_wait bits m = elim (normalize_bits bits) [
  | ok bs ↦ let (w, m') = enqueue_and_wait bs m in (ok w, m')
  | raise e ↦ (raise e, m)
]

-- The two lists of `_mark_bit_driven`: the events that are ready, and the waiters that stay.
unfoldable pub ready : ℕ → List (ℕ × ℕ) → List ℕ
ready driven [] = []
ready driven ((target_count, event) ∷ waiters) =
    let rest = ready driven waiters in if leb target_count driven then event ∷ rest else rest

unfoldable pub pending : ℕ → List (ℕ × ℕ) → List (ℕ × ℕ)
pending driven [] = []
pending driven ((target_count, event) ∷ waiters) =
    let rest = pending driven waiters in
    if leb target_count driven then rest else (target_count, event) ∷ rest

-- `_mark_bit_driven`
unfoldable pub mark_bit_driven : Driver → Driver
mark_bit_driven m = record m {
  driven_bits = m.driven_bits + 1;
  drive_waiters = pending (m.driven_bits + 1) m.drive_waiters;
  events_set = m.events_set ++ ready (m.driven_bits + 1) m.drive_waiters;
}

-- `_tx_bit` up to its wait.
unfoldable pub tx_bit : Bit → Driver → Driver
unfolding drive_levels mark_bit_driven
tx_bit b m =
    let m₁ = record m { s = if bit_eq b m.prev_d then bit_xor m.s true else m.s } in
    mark_bit_driven (record (drive_levels b m₁.s m₁) { prev_d = b })

-- `_run` from its top to its next wait: `_not_empty` is cleared, or a bit is taken and driven.
unfoldable pub run_from : List Bit → Driver → Driver
unfolding tx_bit
run_from [] m = record m { not_empty = false; task = parked }
run_from (b ∷ bs) m = record (tx_bit b (record m { queue = bs })) { task = timing }

unfoldable pub run : Driver → Driver
unfolding run_from
run m = run_from m.queue m
