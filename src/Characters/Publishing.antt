-- ===== src/Characters/Publishing.antt =====
-- characters.py: what `CharMonitor.run` publishes.
use cocotbext_spacewire.Base.Int.{ℤ, pos}
use cocotbext_spacewire.Base.{
  ℕ, ◌≡◌, refl, sym, ap, ◌∙◌, Bool, true, false, Option, none, some, List, [], ◌∷◌, ◌++◌, length,
  Bit, bit_nat, Text, if◌then◌else◌, Outcome, ok, raise, Method, ◌>>◌, return, resume, return->>=,
}
use cocotbext_spacewire.Characters.Types.{Character}
use cocotbext_spacewire.Characters.Decoder.{Decoder, feed_bit}
use cocotbext_spacewire.Characters.Streams.{feed_bits, feed-bit}
use cocotbext_spacewire.Characters.CharMonitor.{
  CharMonitor, strict_exception, enqueue, publish_as, publish, publish_all, read_bit, feed_decoder,
  round, run,
}

-- A source that gives the bits of a line, the oldest first.
abbrev pub Gives : {K : Type 0} → Method K ℤ → (List Bit → K) → Type 0
Gives get_bit line =
    (b : Bit) (bs : List Bit) → get_bit (line (b ∷ bs)) ≡ (ok (pos (bit_nat b)), line bs)

-- The publication of characters as a method of the queue alone.
abbrev pub offer : Bool → Option Text → Character → Method (List Character) (Unit {0})
offer strict none c queue = (ok tt, queue ++ c ∷ [])
offer strict (some error) c queue =
    if strict then (raise (strict_exception error), queue) else (ok tt, queue ++ c ∷ [])

unfoldable pub offer_all : Bool → List Character → Method (List Character) (Unit {0})
offer_all strict [] = return tt
offer_all strict (c ∷ cs) = offer strict c.error c >> offer_all strict cs

-- A chain of three.
resume_assoc :
    {S : Type 0} (r : Outcome (Unit {0})) (s : S) (f g : Method S (Unit {0}))
    → resume (resume r s (λ _. f)).0 (resume r s (λ _. f)).1 (λ _. g) ≡ resume r s (λ _. f >> g)
resume_assoc (ok a) s f g = refl
resume_assoc (raise e) s f g = refl

resume_ext :
    {S : Type 0} (r : Outcome (Unit {0})) (s : S) {f g : Method S (Unit {0})}
    → ((s : S) → f s ≡ g s)
    → resume r s (λ _. f) ≡ resume r s (λ _. g)
resume_ext (ok a) s h = h s
resume_ext (raise e) s h = refl

pub offer_all-append :
    (strict : Bool) (cs ds queue : List Character)
    → offer_all strict (cs ++ ds) queue ≡ (offer_all strict cs >> offer_all strict ds) queue
unfolding offer_all
offer_all-append strict [] ds queue = refl
offer_all-append strict (c ∷ cs) ds queue =
    let r = offer strict c.error c queue in
    resume_ext r.0 r.1 (λ q. offer_all-append strict cs ds q)
    ∙ sym (resume_assoc r.0 r.1 (offer_all strict cs) (offer_all strict ds))

-- A monitor's publication changes its queue and nothing else.
abbrev on_queue :
    {K : Type 0}
    → CharMonitor K
    → Outcome (Unit {0}) × List Character
    → Outcome (Unit {0}) × CharMonitor K
on_queue m (r, queue) = (r, record m { queue = queue })

publish-offer :
    {K : Type 0} (error : Option Text) (c : Character) (m : CharMonitor K)
    → publish_as error c m ≡ on_queue m (offer m.strict error c m.queue)
unfolding publish_as
publish-offer none c m = refl
publish-offer (some error) c m = by_strict m.strict
  where
    by_strict :
        (strict : Bool)
        → (if strict then (raise (strict_exception error), m) else enqueue c m)
          ≡ on_queue m (
              if strict
              then (raise (strict_exception error), m.queue)
              else (ok tt, m.queue ++ c ∷ []))
    by_strict true = refl
    by_strict false = refl

publish_all-offer :
    {K : Type 0} (cs : List Character) (m : CharMonitor K)
    → publish_all cs m ≡ on_queue m (offer_all m.strict cs m.queue)
unfolding publish_all offer_all publish
publish_all-offer [] m = refl
publish_all-offer (c ∷ cs) m = rw (publish-offer c.error c m) (
    rest (offer m.strict c.error c m.queue).0 (offer m.strict c.error c m.queue).1
      (λ q. publish_all-offer cs (record m { queue = q })))
  where
    rest :
        (r : Outcome (Unit {0})) (q : List Character)
        → ((q : List Character)
            → publish_all cs (record m { queue = q }) ≡ on_queue m (offer_all m.strict cs q))
        → resume r (record m { queue = q }) (λ _. publish_all cs)
          ≡ on_queue m (resume r q (λ _. offer_all m.strict cs))
    rest (ok a) q h = h q
    rest (raise e) q h = refl

-- What a run shows: its outcome and the queue.
abbrev pub seen :
    {K : Type 0} → Outcome (Unit {0}) × CharMonitor K → Outcome (Unit {0}) × List Character
seen (r, m) = (r, m.queue)

seen-resume :
    {K : Type 0} (r : Outcome (Unit {0})) (queue : List Character) (m : CharMonitor K)
    (f : Method (CharMonitor K) (Unit {0})) (g : Method (List Character) (Unit {0}))
    → ((q : List Character) → seen (f (record m { queue = q })) ≡ g q)
    → seen (resume r (record m { queue = queue }) (λ _. f)) ≡ resume r queue (λ _. g)
seen-resume (ok a) queue m f g h = h queue
seen-resume (raise e) queue m f g h = refl

module _ {K : Type 0} (line : List Bit → K) (t : Option ℕ) where
  -- The reading of one bit.
  round_lem :
      (b : Bit) (bs : List Bit) (m : CharMonitor K) {cs : List Character} {d' : Decoder}
      → Gives m.get_bit line
      → m.source ≡ line (b ∷ bs)
      → feed_bit b t m.decoder ≡ (ok cs, d')
      → round t m
        ≡ on_queue (record m { decoder = d'; source = line bs }) (offer_all m.strict cs m.queue)
  unfolding round read_bit feed_decoder
  round_lem b bs m {cs} {d'} gives at fed =
      rw (at, gives b bs)
        (rw (feed-bit b t m.decoder ∙ fed)
          (publish_all-offer cs (record m { decoder = d'; source = line bs })))

  -- A run for as many rounds as the line has bits publishes the characters that the decoder makes of
  -- them.
  pub run_lem :
      (bs : List Bit) (m : CharMonitor K) {cs : List Character} {d' : Decoder}
      → Gives m.get_bit line
      → m.source ≡ line bs
      → feed_bits bs t m.decoder ≡ (ok cs, d')
      → seen (run t (length bs) m) ≡ offer_all m.strict cs m.queue
  unfolding run feed_bits offer_all
  run_lem [] m {cs} gives at fed =
      let none_read : [] ≡ cs = cc in ap (λ cs. offer_all m.strict cs m.queue) none_read
  run_lem (b ∷ bs) m {cs} {d'} gives at fed =
      let (a, d₁, ea, ha) = return->>= (feed_bit b t) _ m.decoder fed in
      let (a', d₂, eb, hb) = return->>= (feed_bits bs t) _ d₁ ha in
      let all : a ++ a' ≡ cs = cc in
      let (r, queue) = offer_all m.strict a m.queue in
      let m₁ = record m { decoder = d₁; source = line bs } in
      ap (λ o. seen (resume o.0 o.1 (λ _. run t (length bs)))) (round_lem b bs m gives at ea)
      ∙ seen-resume r queue m₁ (run t (length bs)) (offer_all m.strict a')
          (λ q. run_lem bs (record m₁ { queue = q }) gives refl eb)
      ∙ sym (offer_all-append m.strict a a' m.queue)
      ∙ ap (λ cs. offer_all m.strict cs m.queue) all
