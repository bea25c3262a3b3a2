-- ===== src/Characters/Loopback.antt =====
-- characters.py: a `CharDriver` and a `CharMonitor` at the two ends of a line of bits.
use cocotbext_spacewire.Base.{
  ℕ, ◌≡◌, refl, sym, ap, ◌∙◌, subst, Bool, Option, List, [], ◌∷◌, ◌++◌, map, append-nil,
  append_assoc, length, All, Bit, Outcome, ok, Method, ◌>>◌, return, resume, run->>=, return->>=,
}
use cocotbext_spacewire.Characters.Types.{Character}
use cocotbext_spacewire.Characters.Encoder.{
  Encoder, character, coerce_character, encode_character, encode,
}
use cocotbext_spacewire.Characters.Streams.{push-wire}
use cocotbext_spacewire.Characters.Delivery.{payload, Synced}
use cocotbext_spacewire.Characters.Requests.{IsRequest}
use cocotbext_spacewire.Characters.RoundTrip.{encode_each, IsClean, push-encode_each}
use cocotbext_spacewire.Characters.CharDriver.{
  CharDriver, on_encoder, on_sink, count_type, put_bits, send_bits, send,
}
use cocotbext_spacewire.Characters.Publishing.{Gives, offer, offer_all, seen, run_lem}
use cocotbext_spacewire.Characters.CharMonitor.{CharMonitor, run}

-- Successive calls of `send`.
unfoldable pub send_each : {K : Type 0} → List Character → Method (CharDriver K) (Unit {0})
unfolding send
send_each [] = return tt
send_each (c ∷ cs) = send (character c) >> send_each cs

-- A sink that takes every bit, in order: `line bs` is one that has taken `bs`.
abbrev pub Takes : {K : Type 0} → (Bit → Method K (Unit {0})) → (List Bit → K) → Type 0
Takes put_bit line = (b : Bit) (bs : List Bit) → put_bit b (line bs) ≡ (ok tt, line (bs ++ b ∷ []))

put_bits_lem :
    {K : Type 0} (put_bit : Bit → Method K (Unit {0})) (line : List Bit → K) (bs xs : List Bit)
    → Takes put_bit line
    → put_bits put_bit bs (line xs) ≡ (ok tt, line (xs ++ bs))
unfolding put_bits
put_bits_lem put_bit line [] xs takes = ap (λ l. (ok tt, line l)) (sym (append-nil xs))
put_bits_lem put_bit line (b ∷ bs) xs takes = rw (takes b xs) (
    put_bits_lem put_bit line bs (xs ++ b ∷ []) takes
    ∙ ap (λ l. (ok tt, line l)) (append_assoc xs (b ∷ []) bs))

-- What is left of a driver that has sent the bits `bs` more.
pub record HasSent {K : Type 0} (line : List Bit → K) (xs bs : List Bit) (e' : Encoder)
    (s : CharDriver K) (r : Outcome (Unit {0}) × CharDriver K) : Type 0 where
  pub returned : r.0 ≡ ok tt
  pub sink : r.1.sink ≡ line (xs ++ bs)
  pub encoder : r.1.encoder ≡ e'
  pub same_put : r.1.put_bit ≡ s.put_bit

module _ {K : Type 0} (line : List Bit → K) where
  send_lem :
      (c : Character) (xs : List Bit) (s : CharDriver K) {bs : List Bit} {e' : Encoder}
      → Takes s.put_bit line
      → s.sink ≡ line xs
      → encode_character c s.encoder ≡ (ok bs, e')
      → HasSent line xs bs e' s (send (character c) s)
  unfolding send coerce_character on_encoder encode send_bits on_sink count_type
  send_lem c xs s {bs} takes at enc = rw enc (
      rw at (
        rw (put_bits_lem s.put_bit line bs xs takes)
          (record { returned = refl; sink = refl; encoder = refl; same_put = refl })))

  pub send_each_lem :
      (cs : List Character) (xs : List Bit) (s : CharDriver K) {bs : List Bit} {e' : Encoder}
      → Takes s.put_bit line
      → s.sink ≡ line xs
      → encode_each cs s.encoder ≡ (ok bs, e')
      → HasSent line xs bs e' s (send_each cs s)
  unfolding send_each encode_each
  send_each_lem [] xs s {bs} takes at enc =
      let none_sent : [] ≡ bs = cc in
      record {
        returned = refl;
        sink = at ∙ ap line (sym (append-nil xs) ∙ ap (◌++◌ xs) none_sent);
        encoder = cc;
        same_put = refl;
      }
  send_each_lem (c ∷ cs) xs s {bs} {e'} takes at enc =
      let (a, e₁, ea, ha) = return->>= (encode_character c) _ s.encoder enc in
      let (b, e₂, eb, hb) = return->>= (encode_each cs) _ e₁ ha in
      let one = send_lem c xs s takes at ea in
      let s₁ = (send (character c) s).1 in
      let all : a ++ b ≡ bs = cc in
      let more =
        send_each_lem cs (xs ++ a) s₁ {bs = b} {e' = e'}
          (subst (λ put. Takes put line) (sym one.same_put) takes) one.sink
          (ap (encode_each cs) one.encoder ∙ eb ∙ cc) in
      let chain =
        run->>= (send (character c)) (λ _. send_each cs) s {a = tt} {s₁ = s₁}
          (ap (λ r. (r, s₁)) one.returned) in
      subst (HasSent line xs bs e' s) (sym chain) (record {
        returned = more.returned;
        sink = more.sink ∙ ap line (append_assoc xs a b ∙ ap (◌++◌ xs) all);
        encoder = more.encoder;
        same_put = more.same_put ∙ one.same_put;
      })

-- The characters `cs`, sent by `s` over an empty line and read from it by `m` in so many rounds as
-- there are bits: `send` raises nothing, `run` raises nothing, strict or not, and it appends to the
-- queue one character for each, with the same type, value, type field and code value, no error and no
-- parity failure.
pub record Looped {K : Type 0} (line : List Bit → K) (cs : List Character) (s : CharDriver K)
    (m : CharMonitor K) (t : Option ℕ) : Type 0 where
  pub bits : List Bit
  pub decoded : List Character
  pub sent : (send_each cs s).0 ≡ ok tt
  pub on_line : (send_each cs s).1.sink ≡ line bits
  pub read :
      seen (run t (length bits) (record m { source = (send_each cs s).1.sink }))
      ≡ (ok tt, m.queue ++ decoded)
  pub same : map payload decoded ≡ map payload cs
  pub clean : All IsClean decoded

pub offer_all-clean :
    (strict : Bool) (cs queue : List Character)
    → All IsClean cs
    → offer_all strict cs queue ≡ (ok tt, queue ++ cs)
unfolding offer_all
offer_all-clean strict [] queue h = ap (λ q. (ok tt, q)) (sym (append-nil queue))
offer_all-clean strict (c ∷ cs) queue h =
    ap
      (λ e. resume (offer strict e c queue).0 (offer strict e c queue).1 (λ _. offer_all strict cs))
      h.0.0
    ∙ offer_all-clean strict cs (queue ++ c ∷ []) h.1
    ∙ ap (λ q. (ok tt, q)) (append_assoc queue (c ∷ []) cs)

-- A driver and a monitor over one line, whose encoder and decoder are in step, deliver any sequence of
-- requests (no ESC alone), in the sense of `Looped`.
send_each-Looped :
    {K : Type 0} (line : List Bit → K) (cs : List Character) (s : CharDriver K) (m : CharMonitor K)
    (t : Option ℕ)
    → Takes s.put_bit line
    → Gives m.get_bit line
    → s.sink ≡ line []
    → All IsRequest cs
    → Synced s.encoder m.decoder
    → Looped line cs s m t
send_each-Looped line cs s m t takes gives at rs synced =
    let st = push-encode_each cs s.encoder m.decoder t rs synced in
    let out = send_each_lem line cs [] s takes at st.encoded in
    record {
      bits = st.sent;
      decoded = st.decoded;
      sent = out.returned;
      on_line = out.sink;
      read =
          run_lem line t st.sent (record m { source = (send_each cs s).1.sink }) gives out.sink
            (sym (push-wire st.sent t m.decoder) ∙ st.received)
          ∙ offer_all-clean m.strict st.decoded m.queue st.clean;
      same = st.same;
      clean = st.clean;
    }
