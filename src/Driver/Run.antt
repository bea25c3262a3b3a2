-- ===== src/Driver/Run.antt =====
-- driver.py: the runs of its coroutines and its callers, in any order.
use cocotbext_spacewire.Base.Int.{ℤ}
use cocotbext_spacewire.Base.{
  ◌≡◌, refl, sym, ap, ◌∙◌, append_assoc, List, [], ◌∷◌, ◌++◌, Bit, if◌then◌else◌, Outcome, ok,
  raise,
}
use cocotbext_spacewire.Base.{true, false}
use cocotbext_spacewire.Characters.Streams.{wire}
use cocotbext_spacewire.Driver.{
  normalize_bit, Driver, RunTask, top, parked, timing, normalize_bits, start, stop, send_bits,
  send_bits_and_wait, run,
}

-- A caller starts or stops the driver or sends; `_run` goes on from its top, `_not_empty` lets it go
-- on, or the time of a bit ends; or the link sets the bit rate.
pub data Action : Type 0 where
  starts stops runs wakes bit_ends : Action
  sends sends_and_waits : List ℤ → Action
  sets_rate : ℤ → Action

-- Each run of `_run` happens only where it stands.
unfoldable pub run_step : RunTask → Driver → Driver
run_step top m = run m
run_step _ m = m

unfoldable pub wake_step : RunTask → Driver → Driver
wake_step parked m = if m.not_empty then record m { task = top } else m
wake_step _ m = m

unfoldable pub bit_step : RunTask → Driver → Driver
bit_step timing m = record m { task = top }
bit_step _ m = m

unfoldable pub act : Action → Driver → Driver
unfolding run_step wake_step bit_step
act starts m = (start m).1
act stops m = stop m
act runs m = run_step m.task m
act wakes m = wake_step m.task m
act bit_ends m = bit_step m.task m
act (sets_rate rate) m = record m { bit_rate_bps = rate }
act (sends bits) m = (send_bits bits m).1
act (sends_and_waits bits) m = (send_bits_and_wait bits m).1

unfoldable pub act_all : List Action → Driver → Driver
act_all [] m = m
act_all (a ∷ more) m = act_all more (act a m)

-- The bits that the driver has accepted: a call with a value that is no bit sends nothing.
abbrev pub bits_or_none : Outcome (List Bit) → List Bit
bits_or_none (ok bs) = bs
bits_or_none (raise e) = []

unfoldable pub accepted : Action → List Bit
accepted (sends bits) = bits_or_none (normalize_bits bits)
accepted (sends_and_waits bits) = bits_or_none (normalize_bits bits)
accepted _ = []

unfoldable pub accepted_all : List Action → List Bit
accepted_all [] = []
accepted_all (a ∷ more) = accepted a ++ accepted_all more

pub act_all-append :
    (actions more : List Action) (d : Driver)
    → act_all (actions ++ more) d ≡ act_all more (act_all actions d)
unfolding act_all
act_all-append [] more d = refl
act_all-append (a ∷ actions) more d = act_all-append actions more (act a d)

pub accepted_all-append :
    (actions more : List Action)
    → accepted_all (actions ++ more) ≡ accepted_all actions ++ accepted_all more
unfolding accepted_all
accepted_all-append [] more = refl
accepted_all-append (a ∷ actions) more =
    ap (◌++◌ (accepted a)) (accepted_all-append actions more)
    ∙ sym (append_assoc (accepted a) (accepted_all actions) (accepted_all more))

-- Bits are accepted as they are.
pub normalize_bits-wire : (bs : List Bit) → normalize_bits (wire bs) ≡ ok bs
unfolding normalize_bits normalize_bit
normalize_bits-wire [] = refl
normalize_bits-wire (true ∷ bs) = rw (normalize_bits-wire bs) refl
normalize_bits-wire (false ∷ bs) = rw (normalize_bits-wire bs) refl
