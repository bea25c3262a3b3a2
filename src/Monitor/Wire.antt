-- ===== src/Monitor/Wire.antt =====
-- monitor.py behind driver.py: what a monitor receives from the lines of a driver.
use cocotbext_spacewire.Base.Int.{ℤ, pos}
use cocotbext_spacewire.Base.{
  ℕ, zero, suc, ◌≤◌, ◌≡◌, refl, ap, ◌∙◌, false, Option, some, List, [], ◌∷◌, ◌++◌, map, append-nil,
  append_assoc, length, take, drop, Bit, bit_nat, ok, arith, subst,
}
use cocotbext_spacewire.Characters.Streams.{wire}
use cocotbext_spacewire.DsCodec.Lines.{encode_levels-data}
use cocotbext_spacewire.Driver.{Driver, init}
use cocotbext_spacewire.Driver.Run.{Action, act_all, accepted_all}
use cocotbext_spacewire.Driver.Lines.{changes}
use cocotbext_spacewire.Driver.Refinement.{driver_refines}
use cocotbext_spacewire.Monitor.{
  Monitor, running, returns, recv_from, recv_bit, recv_loop, recv_bits,
}
use cocotbext_spacewire.Monitor.Run.{Signal, values, readable, Has, signals, signals-Has}

-- The bits that a driver has put on its lines.
abbrev pub driven_of : List Action → Driver → List Bit
driven_of actions m = take (act_all actions m).driven_bits (accepted_all actions)

-- The levels of D at the edges that it has made.
abbrev pub d_edges : List Action → Driver → List Bit
d_edges actions m = map (λ (p : Bit × Bit). p.0) (changes m.prev_d m.s (act_all actions m).levels)

d_edges-driven :
    (rate initial_d initial_s : ℤ) (actions : List Action) {m : Driver}
    → init rate initial_d initial_s ≡ ok m
    → d_edges actions m ≡ driven_of actions m
d_edges-driven rate initial_d initial_s actions {m} h =
    let v = driver_refines rate initial_d initial_s actions h in
    ap (λ p. p.0) v.lines ∙ encode_levels-data m.prev_d m.s (driven_of actions m)

readable-levels :
    {V : Type 0} (int_of : V → Option ℤ) (level : Bit → V) (bs : List Bit)
    → ((b : Bit) → int_of (level b) ≡ some (pos (bit_nat b)))
    → readable int_of (map level bs) ≡ wire bs
unfolding readable
readable-levels int_of level [] reads = refl
readable-levels int_of level (b ∷ bs) reads =
    rw (reads b, readable) (ap (◌∷◌ (pos (bit_nat b))) (readable-levels int_of level bs reads))

-- The simulator hands the levels of the driver's D line on as values of `di` that `int` reads
-- (`reads`). Then a running monitor that does not raise on a disconnect, told of each edge that the
-- driver has made and of timeouts anywhere between, receives exactly the bits that the driver has
-- driven, in order, and has called its callbacks for them.
pub wire_delivers :
    {E V : Type 0} (int_of : V → Option ℤ) (level : Bit → V) (rate initial_d initial_s : ℤ)
    (actions : List Action) (xs : List (Signal V)) (m : Monitor E) (env : E) {driver : Driver}
    → ((b : Bit) → int_of (level b) ≡ some (pos (bit_nat b)))
    → init rate initial_d initial_s ≡ ok driver
    → values xs ≡ map level (d_edges actions driver)
    → m.task ≡ running
    → m.raise_on_disconnect ≡ false
    → Has m env (wire (driven_of actions driver)) (signals int_of xs (m, env))
wire_delivers int_of level rate initial_d initial_s actions xs m env {driver} reads built edges t
      r =
    let bits : readable int_of (values xs) ≡ wire (driven_of actions driver) =
      ap (readable int_of) edges
      ∙ readable-levels int_of level _ reads
      ∙ ap wire (d_edges-driven rate initial_d initial_s actions built) in
    subst (λ bs. Has m env bs (signals int_of xs (m, env))) bits (signals-Has int_of xs m env t r)

-- The loop of `recv_bits`, in a queue that begins with the bits it needs.
recv_loop_lem :
    {E : Type 0} (n : ℕ) (taken queue : List ℤ) (m : Monitor E)
    → n ≤ length queue
    → m.queue ≡ queue
    → recv_loop n taken m ≡ (returns (taken ++ take n queue), record m { queue = drop n queue })
unfolding recv_loop recv_bit recv_from
recv_loop_lem zero taken queue m l q = rw (append-nil, ← q) refl
recv_loop_lem (suc n) taken [] m l q = absurd (omega arith)
recv_loop_lem (suc n) taken (b ∷ bs) m l q =
    rw (q, recv_from)
      (recv_loop_lem n (taken ++ b ∷ []) bs (record m { queue = bs }) (omega arith) refl
        ∙ rw append_assoc refl)

-- `recv_bits` gives the oldest bits of the queue, in order, and leaves the others, if there are enough.
recv_bits-take :
    {E : Type 0} (n : ℕ) (m : Monitor E)
    → n ≤ length m.queue
    → recv_bits (pos n) m ≡ (ok (returns (take n m.queue)), record m { queue = drop n m.queue })
unfolding recv_bits
recv_bits-take n m l = rw (recv_loop_lem n [] m.queue m l refl) refl
