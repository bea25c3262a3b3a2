-- ===== src/Characters/Strict.antt =====
-- characters.py: a strict `CharMonitor` behind a `CharDriver` that spoils a parity bit.
use cocotbext_spacewire.Base.Int.{ℤ, pos}
use cocotbext_spacewire.Base.{
  ℕ, ◌≡◌, refl, sym, ap, ◌∙◌, Bool, true, Option, none, some, List, [], ◌∷◌, ◌++◌, map, length, All,
  Bit, Outcome, ok, raise, Method, ◌>>=◌, ◌>>◌, resume, run->>=, return, Exception, Text, codes,
  modify, subst,
}
use cocotbext_spacewire.Base as Base
use cocotbext_spacewire.Characters.Types.{Character}
use cocotbext_spacewire.Characters.Errors.{
  error_types, contains, parity_error, strip_parts, split_plus, push_first, strip, drop_spaces,
}
use cocotbext_spacewire.Characters.Encoder.{Encoder}
use cocotbext_spacewire.Characters.Encoder as Encoders
use cocotbext_spacewire.Characters.Streams.{push-wire}
use cocotbext_spacewire.Characters.Delivery.{payload, Synced}
use cocotbext_spacewire.Characters.RoundTrip.{IsClean}
use cocotbext_spacewire.Characters.Spoiling.{IsPrimitive}
use cocotbext_spacewire.Characters.Injection.{forced_parity-Detected}
use cocotbext_spacewire.Characters.CharDriver.{
  CharDriver, on_encoder, count_error, force_bad_parity,
}
use cocotbext_spacewire.Characters.CharMonitor.{CharMonitor, strict_exception, run}
use cocotbext_spacewire.Characters.Publishing.{
  Gives, offer, offer_all, offer_all-append, seen, run_lem,
}
use cocotbext_spacewire.Characters.Loopback.{Takes, send_each, send_each_lem, offer_all-clean}

strict_parity : strict_exception parity_error ≡ Base.parity_error
unfolding strict_exception contains error_types strip_parts split_plus push_first strip drop_spaces
strict_parity = refl

-- A strict queue takes the clean characters and raises at the spoiled one.
offer_all-spoiled :
    (cs : List Character) (c : Character) (queue : List Character)
    → All IsClean cs
    → c.error ≡ some parity_error
    → offer_all true (cs ++ c ∷ []) queue ≡ (raise Base.parity_error, queue ++ cs)
unfolding offer_all
offer_all-spoiled cs c queue clean spoiled =
    offer_all-append true cs (c ∷ []) queue
    ∙ ap
        (λ (o : Outcome (Unit {0}) × List Character). resume o.0 o.1 (λ _. offer_all true (c ∷ [])))
        (offer_all-clean true cs queue clean)
    ∙ ap (λ e. let o = offer true e c (queue ++ cs) in resume o.0 o.1 (λ _. return tt)) spoiled
    ∙ ap (λ (x : Exception). (raise x, queue ++ cs)) strict_parity

-- What `force_bad_parity` of a driver does to its encoder; the sink stays.
record HasForced {K : Type 0} (offset : ℤ) (s s₁ : CharDriver K) : Type 0 where
  encoder : Encoders.force_bad_parity offset s.encoder ≡ (ok tt, s₁.encoder)
  sink : s₁.sink ≡ s.sink
  same_put : s₁.put_bit ≡ s.put_bit

forced_lem :
    {K : Type 0} (offset : ℤ) (s : CharDriver K) {s₁ : CharDriver K}
    → force_bad_parity offset s ≡ (ok tt, s₁)
    → HasForced offset s s₁
unfolding force_bad_parity on_encoder count_error
forced_lem offset s {s₁} h = go (Encoders.force_bad_parity offset s.encoder) refl h
  where
    go :
        (r : Outcome (Unit {0}) × Encoder)
        → Encoders.force_bad_parity offset s.encoder ≡ r
        → resume r.0 (record s { encoder = r.1 }) (λ _. count_error (codes "injected_bad_parity"))
          ≡ (ok tt, s₁)
        → HasForced offset s s₁
    go (ok a, e) is h =
        let at : (count_error (codes "injected_bad_parity") (record s { encoder = e })).1 ≡ s₁ =
          ap (λ r. r.1) h in
        subst (HasForced offset s) at (record { encoder = is; sink = refl; same_put = refl })
    go (raise x, e) is h = absurd cc

-- The characters `cs` and then `c`, sent by `s` over an empty line and read from it by `m` in so many
-- rounds as there are bits: `send` raises nothing, and `run` raises the `ParityError`, with one
-- character for each of `cs` in the queue, in order, without an error, and none for `c`.
pub record Caught {K : Type 0} (line : List Bit → K) (cs : List Character) (c : Character)
    (s : CharDriver K) (m : CharMonitor K) (t : Option ℕ) : Type 0 where
  pub bits : List Bit
  pub decoded : List Character
  pub sent : (send_each (cs ++ c ∷ []) s).0 ≡ ok tt
  pub on_line : (send_each (cs ++ c ∷ []) s).1.sink ≡ line bits
  pub read :
      seen (run t (length bits) (record m { source = (send_each (cs ++ c ∷ []) s).1.sink }))
      ≡ (raise Base.parity_error, m.queue ++ decoded)
  pub same : map payload decoded ≡ map payload cs
  pub clean : All IsClean decoded

-- A driver whose `force_bad_parity` has been called for the character behind `cs` and a strict monitor
-- over one line, whose encoder and decoder were in step: the monitor catches that character, in the
-- sense of `Caught`, where each character is a data byte, an FCT, an EOP or an EEP.
pub force_bad_parity-Caught :
    {K : Type 0} (line : List Bit → K) (cs : List Character) (c : Character) (s : CharDriver K)
    (m : CharMonitor K) (t : Option ℕ) {s₁ : CharDriver K}
    → Takes s.put_bit line
    → Gives m.get_bit line
    → s.sink ≡ line []
    → m.strict ≡ true
    → All IsPrimitive cs
    → IsPrimitive c
    → Synced s.encoder m.decoder
    → force_bad_parity (pos (length cs)) s ≡ (ok tt, s₁)
    → Caught line cs c s₁ m t
force_bad_parity-Caught line cs c s m t {s₁} takes gives at strict ps p synced forced =
    let f = forced_lem (pos (length cs)) s forced in
    let st = forced_parity-Detected cs c s.encoder m.decoder t ps p synced f.encoder in
    let out =
      send_each_lem line (cs ++ c ∷ []) [] s₁ (subst (λ put. Takes put line) (sym f.same_put) takes)
        (f.sink ∙ at) st.encoded in
    record {
      bits = st.sent;
      decoded = st.decoded;
      sent = out.returned;
      on_line = out.sink;
      read =
          run_lem line t st.sent (record m { source = (send_each (cs ++ c ∷ []) s₁).1.sink }) gives
            out.sink (sym (push-wire st.sent t m.decoder) ∙ st.received)
          ∙ ap (λ b. offer_all b (st.decoded ++ st.spoiled ∷ []) m.queue) strict
          ∙ offer_all-spoiled st.decoded st.spoiled m.queue st.clean st.detected.1;
      same = st.same;
      clean = st.clean;
    }
