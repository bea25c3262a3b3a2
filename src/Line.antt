-- ===== src/Line.antt =====
-- characters.py over driver.py and monitor.py: characters on the wires D and S. The `put_bit` and `get_bit`
-- that join a `CharDriver` to a `SpaceWireDriver` and a `CharMonitor` to a `SpaceWireMonitor` are the
-- user's.
use cocotbext_spacewire.Base.Int.{ℤ, pos}
use cocotbext_spacewire.Base.{
  ℕ, suc, ◌≡◌, refl, sym, ap, ap₂, ◌∙◌, true, false, Option, some, List, [], ◌∷◌, ◌++◌, map,
  append-nil, length, take-all, All, Bit, bit_nat, ok, Method,
}
use cocotbext_spacewire.Characters.Types.{Character}
use cocotbext_spacewire.Characters.Streams.{wire, push-wire}
use cocotbext_spacewire.Characters.Delivery.{payload, Synced}
use cocotbext_spacewire.Characters.Requests.{IsRequest}
use cocotbext_spacewire.Characters.RoundTrip.{IsClean, push-encode_each}
use cocotbext_spacewire.Characters.CharDriver.{CharDriver}
use cocotbext_spacewire.Characters.CharMonitor.{CharMonitor, run}
use cocotbext_spacewire.Characters.Publishing.{Gives, seen, run_lem}
use cocotbext_spacewire.Characters.Loopback.{Takes, send_each, send_each_lem, offer_all-clean}
use cocotbext_spacewire.Driver.{
  Driver, normalize_bit, normalize_bits, init, enqueue_bit, enqueue_bits, send_bits,
}
use cocotbext_spacewire.Driver.Run.{
  normalize_bits-wire, act_all-append, accepted_all-append, Action, sends, act, act_all, accepted,
  accepted_all,
}
use cocotbext_spacewire.Driver.Lines.{changes}
use cocotbext_spacewire.Driver.Refinement.{driver_refines}
use cocotbext_spacewire.Monitor.{Monitor, running, returns, recv_from, recv_bit}
use cocotbext_spacewire.Monitor.Run.{Signal, values, signals}
use cocotbext_spacewire.Monitor.Wire.{driven_of, wire_delivers}

enqueue_bits-snoc :
    (bs : List Bit) (b : Bit) (d : Driver)
    → enqueue_bits (bs ++ b ∷ []) d ≡ enqueue_bit b (enqueue_bits bs d)
unfolding enqueue_bits
enqueue_bits-snoc [] b d = refl
enqueue_bits-snoc (c ∷ bs) b d = enqueue_bits-snoc bs b (enqueue_bit c d)

enqueue_none : (d : Driver) → d ≡ enqueue_bits [] d
unfolding enqueue_bits
enqueue_none d = refl

-- `put_bit` hands its bit to `send_bits`.
abbrev PutsOn : (Bit → Method Driver (Unit {0})) → Type 0
PutsOn put_bit = (b : Bit) (d : Driver) → put_bit b d ≡ send_bits (pos (bit_nat b) ∷ []) d

-- `get_bit` returns what `recv_bit` returns.
abbrev GetsFrom : {E : Type 0} → Method (Monitor E) ℤ → Type 0
GetsFrom {E} get_bit =
    (v : ℤ) (m m' : Monitor E) → recv_bit m ≡ (returns v, m') → get_bit m ≡ (ok v, m')

PutsOn-Takes :
    (put_bit : Bit → Method Driver (Unit {0})) (d : Driver)
    → PutsOn put_bit
    → Takes put_bit (λ bs. enqueue_bits bs d)
unfolding send_bits normalize_bits normalize_bit enqueue_bits
PutsOn-Takes put_bit d puts true bs =
    puts true _ ∙ ap (λ x. (ok tt, x)) (sym (enqueue_bits-snoc bs true d))
PutsOn-Takes put_bit d puts false bs =
    puts false _ ∙ ap (λ x. (ok tt, x)) (sym (enqueue_bits-snoc bs false d))

GetsFrom-Gives :
    {E : Type 0} (get_bit : Method (Monitor E) ℤ) (m : Monitor E)
    → GetsFrom get_bit
    → Gives get_bit (λ bs. record m { queue = wire bs })
unfolding recv_bit recv_from
GetsFrom-Gives get_bit m gets b bs =
    gets (pos (bit_nat b)) (record m { queue = wire (b ∷ bs) }) (record m { queue = wire bs }) refl

length-wire : (bs : List Bit) → length (wire bs) ≡ length bs
length-wire [] = refl
length-wire (b ∷ bs) = ap suc (length-wire bs)

sends-wire : (bs : List Bit) (d : Driver) → act (sends (wire bs)) d ≡ enqueue_bits bs d
unfolding act send_bits
sends-wire bs d = rw (normalize_bits-wire bs, act, send_bits) refl

accepted-wire : (bs : List Bit) → accepted (sends (wire bs)) ≡ bs
unfolding accepted
accepted-wire bs = rw (normalize_bits-wire bs) refl

-- A driver that has been handed nothing but the bits `bs`, and has put all of them on its lines.
record HasSentAll (before after : List Action) (m₀ : Driver) (bs : List Bit) : Type 0 where
  actions : List Action
  reached : act_all actions m₀ ≡ act_all after (enqueue_bits bs (act_all before m₀))
  all_driven : driven_of actions m₀ ≡ bs

sent_all :
    (rate initial_d initial_s : ℤ) (before after : List Action) (bs : List Bit) {m₀ : Driver}
    → init rate initial_d initial_s ≡ ok m₀
    → accepted_all before ≡ []
    → accepted_all after ≡ []
    → (act_all after (enqueue_bits bs (act_all before m₀))).queue ≡ []
    → HasSentAll before after m₀ bs
unfolding accepted_all act_all
sent_all rate initial_d initial_s before after bs {m₀} built none_before none_after empty =
    let actions = before ++ sends (wire bs) ∷ after in
    let reached : act_all actions m₀ ≡ act_all after (enqueue_bits bs (act_all before m₀)) =
      act_all-append before (sends (wire bs) ∷ after) m₀
      ∙ ap (act_all after) (sends-wire bs (act_all before m₀)) in
    let all : accepted_all actions ≡ bs =
      accepted_all-append before (sends (wire bs) ∷ after)
      ∙ ap₂ ◌++◌ none_before (ap₂ ◌++◌ (accepted-wire bs) none_after ∙ append-nil bs) in
    let v = driver_refines rate initial_d initial_s actions built in
    let n = (act_all actions m₀).driven_bits in
    record {
      actions = actions;
      reached = reached;
      all_driven =
          take-all n (accepted_all actions) (sym v.waiting ∙ ap (λ d. d.queue) reached ∙ empty)
          ∙ all;
    }

-- The characters `cs`, sent by `s` through the driver that is its sink, which then does `after`, and
-- received by the monitor that is told `xs`; `c` reads it in so many rounds as bits have come. Nothing
-- raises, and one character for each is queued, with the same type, value, type field and code value,
-- no error and no parity failure.
pub record Carried {E : Type 0} (cs : List Character) (s : CharDriver Driver)
    (c : CharMonitor (Monitor E)) (monitor : Monitor E) (t : Option ℕ) : Type 0 where
  pub decoded : List Character
  pub sent : (send_each cs s).0 ≡ ok tt
  pub read :
      seen (run t (length monitor.queue) (record c { source = monitor }))
      ≡ (ok tt, c.queue ++ decoded)
  pub same : map payload decoded ≡ map payload cs
  pub clean : All IsClean decoded

module _ {E V : Type 0} (int_of : V → Option ℤ) (level : Bit → V)
    (reads : (b : Bit) → int_of (level b) ≡ some (pos (bit_nat b))) where
  -- A driver was built, and started or not, without a bit; characters are sent on it, and then it runs
  -- until all their bits are driven. A monitor that was running from the beginning, with an empty queue
  -- and without raising on a disconnect, is told of each edge that the driver has made, and of timeouts
  -- anywhere between. With encoder and decoder in step, any sequence of requests, each an FCT, an
  -- EOP, an EEP, a NULL, a data byte, a time-code or a broadcast with the default type field, is carried,
  -- in the sense of `Carried`.
  pub send_each-Carried :
      (rate initial_d initial_s : ℤ) (before after : List Action) (cs : List Character)
      (s : CharDriver Driver) (c : CharMonitor (Monitor E)) (xs : List (Signal V)) (m : Monitor E)
      (env : E) (t : Option ℕ) {m₀ : Driver}
      → PutsOn s.put_bit
      → GetsFrom c.get_bit
      → All IsRequest cs
      → Synced s.encoder c.decoder
      → init rate initial_d initial_s ≡ ok m₀
      → accepted_all before ≡ []
      → s.sink ≡ act_all before m₀
      → accepted_all after ≡ []
      → (act_all after (send_each cs s).1.sink).queue ≡ []
      → m.task ≡ running
      → m.raise_on_disconnect ≡ false
      → m.queue ≡ []
      → values xs
        ≡ map level (
            map
              (λ (p : Bit × Bit). p.0)
              (changes m₀.prev_d m₀.s (act_all after (send_each cs s).1.sink).levels))
      → Carried cs s c (signals int_of xs (m, env)).0 t
  send_each-Carried rate initial_d initial_s before after cs s c xs m env t {m₀} puts gets rs synced
        built none_before at none_after empty on quiet new edges =
      let d = act_all before m₀ in
      let st = push-encode_each cs s.encoder c.decoder t rs synced in
      let out =
        send_each_lem (λ bs. enqueue_bits bs d) cs [] s (PutsOn-Takes s.put_bit d puts)
          (at ∙ enqueue_none d) st.encoded in
      let end : act_all after (send_each cs s).1.sink ≡ act_all after (enqueue_bits st.sent d) =
        ap (act_all after) out.sink in
      let all =
        sent_all rate initial_d initial_s before after st.sent built none_before none_after
          (ap (λ d. d.queue) (sym end) ∙ empty) in
      let has =
        wire_delivers int_of level rate initial_d initial_s all.actions xs m env reads built
          (edges
            ∙ ap
                (λ (d : Driver).
                  map level (map (λ (p : Bit × Bit). p.0) (changes m₀.prev_d m₀.s d.levels)))
                (end ∙ sym all.reached))
          on quiet in
      let mon = (signals int_of xs (m, env)).0 in
      let queue : mon.queue ≡ wire st.sent = has.queue ∙ ap₂ ◌++◌ new (ap wire all.all_driven) in
      record {
        decoded = st.decoded;
        sent = out.returned;
        read =
            ap (λ n. seen (run t n (record c { source = mon })))
              (ap length queue ∙ length-wire st.sent)
            ∙ run_lem (λ bs. record mon { queue = wire bs }) t st.sent (record c { source = mon })
                (GetsFrom-Gives c.get_bit mon gets) (ap (λ q. record mon { queue = q }) queue)
                (sym (push-wire st.sent t c.decoder) ∙ st.received)
            ∙ offer_all-clean c.strict st.decoded c.queue st.clean;
        same = st.same;
        clean = st.clean;
      }
