-- ===== src/Driver/Refinement.antt =====
-- driver.py: the driver is a queue of bits in front of ds_codec.py's encoder.
use cocotbext_spacewire.Base.Int.{ℤ}
use cocotbext_spacewire.Base.{
  ◌+◌, ◌≡◌, sym, ap, ap₂, ◌∙◌, List, [], Bit, length, length-append, take, drop, take-append,
  drop-append, ok, arith,
}
use cocotbext_spacewire.DsCodec.{encode_levels}
use cocotbext_spacewire.Driver.{Driver, init}
use cocotbext_spacewire.Driver.Run.{Action, act_all, accepted_all}
use cocotbext_spacewire.Driver.Lines.{changes, unzip, unzip-level_pairs}
use cocotbext_spacewire.Driver.Invariant.{Inv, act_all-Inv}

-- The driver `m` as a queue: of the bits `sent`, as many as it has counted are on the lines, which
-- have changed exactly as ds_codec.py's `ds_encode` says for them, and the others wait in order.
pub record Implements (d s : Bit) (sent : List Bit) (m : Driver) : Type 0 where
  pub lines : unzip (changes d s m.levels) ≡ encode_levels d s (take m.driven_bits sent)
  pub waiting : m.queue ≡ drop m.driven_bits sent
  pub total : m.enqueued_bits ≡ length sent

Implements-Inv :
    (d s : Bit) (sent driven : List Bit) (m : Driver)
    → Inv d s sent driven m
    → Implements d s sent m
Implements-Inv d s sent driven m v =
    let n : m.driven_bits ≡ length driven = v.count in
    record {
      lines =
          ap unzip v.lines
          ∙ unzip-level_pairs d s driven
          ∙ ap (encode_levels d s) (sym (ap₂ take n (sym v.fifo) ∙ take-append driven m.queue));
      waiting = sym (ap₂ drop n (sym v.fifo) ∙ drop-append driven m.queue);
      total = v.total;
    }

init-Inv :
    (rate initial_d initial_s : ℤ) {m : Driver}
    → init rate initial_d initial_s ≡ ok m
    → Inv m.prev_d m.s [] [] m
unfolding init
init-Inv rate initial_d initial_s h = ground arith

-- The counts of a driver that was built agree with its queue.
pub counts_agree :
    (rate initial_d initial_s : ℤ) (actions : List Action) {m : Driver}
    → init rate initial_d initial_s ≡ ok m
    → let m' = act_all actions m in m'.enqueued_bits ≡ m'.driven_bits + length m'.queue
counts_agree rate initial_d initial_s actions {m} h =
    let (driven, v) =
      act_all-Inv m.prev_d m.s [] actions m ([], init-Inv rate initial_d initial_s h) in
    let m' = act_all actions m in
    omega (arith, v.count, v.total, length-append driven m'.queue, ap length v.fifo)

-- Whatever callers and the simulator do with a driver that was built, started and stopped any number
-- of times, it implements the queue of the bits that it has accepted, from its initial levels.
pub driver_refines :
    (rate initial_d initial_s : ℤ) (actions : List Action) {m : Driver}
    → init rate initial_d initial_s ≡ ok m
    → Implements m.prev_d m.s (accepted_all actions) (act_all actions m)
driver_refines rate initial_d initial_s actions {m} h =
    let (driven, v) =
      act_all-Inv m.prev_d m.s [] actions m ([], init-Inv rate initial_d initial_s h) in
    Implements-Inv m.prev_d m.s (accepted_all actions) driven (act_all actions m) v
