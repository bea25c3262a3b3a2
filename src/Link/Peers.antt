-- ===== src/Link/Peers.antt =====
-- link.py: a character on its way from the transmit loop of a link to the machine of its peer.
use cocotbext_spacewire.Base.Int.{pos}
use cocotbext_spacewire.Base.{
  ◌≡◌, ◌≢◌, inl, inr, refl, sym, ap, ap₂, ◌∙◌, subst, Bool, true, false, none, List, [], ◌∷◌, ◌++◌,
  All, Bit, bit_nat, arith, Outcome, ok, raise, run->>=, return->>=,
}
use cocotbext_spacewire.LinkFsm.{TxMode, reset, output}
use cocotbext_spacewire.Characters.Types.{Character, fct, null}
use cocotbext_spacewire.Characters.Encoder.{Encoder, coerce_character, encode, encode_character}
use cocotbext_spacewire.Characters.Decoder.{Decoder, feed_bit}
use cocotbext_spacewire.Characters.Streams as Streams
use cocotbext_spacewire.Characters.Streams.{wire, push-wire, feed-bit}
use cocotbext_spacewire.Characters.Framing.{held, raw_bits_of, IsFramed, escape_bits}
use cocotbext_spacewire.Characters.Conservation.{fed, push-Taken}
use cocotbext_spacewire.Characters.Delivery.{payload, Synced}
use cocotbext_spacewire.Characters.Requests.{IsRequest, control, deliver-Synced}
use cocotbext_spacewire.Characters.RoundTrip.{IsClean}
use cocotbext_spacewire.Link.State.{sending, Link}
use cocotbext_spacewire.Link.Transmit.{
  next_char, next_nchar, on_credit, pick, on_encoder, end_task, tx_begin, tx_loop,
}
use cocotbext_spacewire.Link.Receive.{dispatch, dispatch_all, feed_bits}
use cocotbext_spacewire.Link.Receive as Receive
use cocotbext_spacewire.Link.Credits.{Chosen, next_char_lem}

append-empty : {A : Type 0} (xs ys : List A) → [] ≡ xs ++ ys → ys ≡ []
append-empty [] ys h = sym h
append-empty (x ∷ xs) ys h = cc

-- A decoder that returns nothing more and holds nothing at the end has been given nothing more.
none_left :
    (bs : List Bit) (d : Decoder) {d' : Decoder}
    → IsFramed d
    → Streams.feed_bits bs none d ≡ (ok [], d')
    → held d' ≡ []
    → bs ≡ []
none_left bs d {d'} f fed empty =
    let taken = push-Taken bs d none f in
    let same = sym taken.returned ∙ push-wire bs none d ∙ fed in
    let no_characters : taken.characters ≡ [] = cc in
    let end : taken.d' ≡ d' = ap (λ r. r.1) same in
    append-empty (held d) bs (
      sym empty
      ∙ ap held (sym end)
      ∙ ap (λ cs. raw_bits_of cs ++ held taken.d') (sym no_characters)
      ∙ taken.kept)

feed_bit_lem :
    (b : Bit) (l : Link) {cs : List Character} {d : Decoder}
    → feed_bit b none l.decoder ≡ (ok cs, d)
    → Receive.feed_bit (pos (bit_nat b)) l ≡ (ok tt, dispatch_all cs (record l { decoder = d }))
unfolding Receive.feed_bit
feed_bit_lem b l {cs} h =
    let h' = feed-bit b none l.decoder ∙ h in
    rw (h', Receive.feed_bit)
      (ap (λ d. (ok tt, dispatch_all cs (record l { decoder = d }))) (ap (λ r. r.1) h'))

-- What is to show of the bits `bs`, given to `l`.
abbrev DispatchedAt : List Bit → Character → Decoder → Link → Type 0
DispatchedAt bs c d' l = feed_bits (wire bs) l ≡ (ok tt, dispatch c (record l { decoder = d' }))

-- Behind one bit, which has completed the character or has not.
rest_lem :
    (bs : List Bit) (l : Link) {c : Character} {d' : Decoder} (a a' : List Character) (d₁ : Decoder)
    → ((l : Link)
        → IsFramed l.decoder
        → Streams.feed_bits bs none l.decoder ≡ (ok (c ∷ []), d')
        → DispatchedAt bs c d' l)
    → IsFramed d₁
    → a ++ a' ≡ c ∷ []
    → Streams.feed_bits bs none d₁ ≡ (ok a', d')
    → held d' ≡ []
    → feed_bits (wire bs) (dispatch_all a (record l { decoder = d₁ }))
      ≡ (ok tt, dispatch c (record l { decoder = d' }))
unfolding feed_bits Streams.feed_bits dispatch_all
rest_lem bs l {d' = d'} [] a' d₁ ih framed all rest empty =
    ih (record l { decoder = d₁ }) framed (rest ∙ ap (λ cs. (ok cs, d')) all)
rest_lem bs l {c} {d'} (x ∷ []) a' d₁ ih framed all rest empty =
    let no_more : a' ≡ [] = cc in
    let same : x ≡ c = cc in
    let last = rest ∙ ap (λ cs. (ok cs, d')) no_more in
    let none_behind : bs ≡ [] = none_left bs d₁ framed last empty in
    let end : d₁ ≡ d' =
      ap (λ r. r.1) (ap (λ bs. Streams.feed_bits bs none d₁) (sym none_behind) ∙ last) in
    ap (λ bs. feed_bits (wire bs) (dispatch x (record l { decoder = d₁ }))) none_behind
    ∙ ap₂ (λ x d. (ok tt, dispatch x (record l { decoder = d }))) same end
rest_lem bs l (x ∷ y ∷ a) a' d₁ ih framed all rest empty = absurd cc

-- The bits of one character: it is dispatched behind the last of them.
feed_bits_lem :
    (bs : List Bit) (l : Link) {c : Character} {d' : Decoder}
    → held d' ≡ []
    → IsFramed l.decoder
    → Streams.feed_bits bs none l.decoder ≡ (ok (c ∷ []), d')
    → DispatchedAt bs c d' l
unfolding feed_bits Streams.feed_bits
feed_bits_lem [] l empty f h = absurd cc
feed_bits_lem (b ∷ bs) l {c} {d'} empty f h =
    let (a, d₁, ea, ha) = return->>= (feed_bit b none) _ l.decoder h in
    let (a', d₂, eb, hb) = return->>= (Streams.feed_bits bs none) _ d₁ ha in
    let all : a ++ a' ≡ c ∷ [] = cc in
    let end : d₂ ≡ d' = ap (λ r. r.1) hb in
    let one = fed b none l.decoder f in
    let framed : IsFramed d₁ = subst IsFramed (ap (λ r. r.1) (sym one.returned ∙ ea)) one.framed in
    run->>= (Receive.feed_bit (pos (bit_nat b))) (λ _. feed_bits (wire bs)) l (feed_bit_lem b l ea)
    ∙ rest_lem bs l a a' d₁ (λ l. feed_bits_lem bs l empty) framed all
        (eb ∙ ap (λ d. (ok a', d)) end) empty

Synced-IsFramed : {e : Encoder} {d : Decoder} → Synced e d → IsFramed d
Synced-IsFramed {e} {d} s = record {
  buffer = rw (s.idle.0) s.idle.1;
  escape = rw s.no_escape (omega arith);
}

Synced-held : {e : Encoder} {d : Decoder} → Synced e d → held d ≡ []
Synced-held {e} {d} s = ap₂ (λ p buffer. escape_bits p ++ buffer) s.no_escape s.idle.0

next_char-encoder : (mode : TxMode) (l : Link) → (next_char mode l).1.encoder ≡ l.encoder
unfolding next_char next_nchar on_credit
next_char-encoder mode l = ground arith

-- The choice of the transmit loop is a request, if the queue has nothing else.
Chosen-IsRequest :
    (l : Link) (r : Outcome (Character × Bool)) (m : Link)
    → All IsRequest l.tx_nchar_queue
    → Chosen l r m
    → (c : Character) × (queued : Bool) × (r ≡ ok (c, queued)) × IsRequest c
Chosen-IsRequest l (ok (c, true)) m rs h =
    let all : All IsRequest (c ∷ m.tx_nchar_queue) = subst (All IsRequest) h.0 rs in
    (c, true, refl, all.0)
Chosen-IsRequest l (ok (c, false)) m rs h = (
  c,
  false,
  refl,
  elim h.2 [
    | inl is ↦ subst IsRequest (sym is) (control fct (inl refl))
    | inr is ↦ subst IsRequest (sym is) (control null (inr (inr (inr refl))))
  ],
)
Chosen-IsRequest l (raise e) m rs h = elim h [ ]

-- A character that the transmit loop of `l` has chosen and encoded, leaving the link `l'` that waits for
-- its bits to be driven; and the peer `p`, given the bits: it has dispatched one character, of the same
-- type, value, type field and code value, without an error, and the ends are in step again.
pub record Arrives (l p : Link) : Type 0 where
  pub bits : List Bit
  pub l' : Link
  pub c : Character
  pub queued : Bool
  pub c' : Character
  pub d' : Decoder
  pub sent : tx_loop l ≡ (ok bits, l')
  pub left : l' ≡ record (next_char (output l.fsm).tx_mode l).1 {
    encoder = l'.encoder;
    tx_task = sending c queued;
  }
  pub chosen : (next_char (output l.fsm).tx_mode l).0 ≡ ok (c, queued)
  pub received : feed_bits (wire bits) p ≡ (ok tt, dispatch c' (record p { decoder = d' }))
  pub same : payload c' ≡ payload c
  pub clean : IsClean c'
  pub synced : Synced l'.encoder d'

tx_begin-pick : (mode : TxMode) (l : Link) → mode ≢ reset → tx_begin mode l ≡ end_task (pick mode l)
unfolding tx_begin
tx_begin-pick reset l h = absurd (h refl)
tx_begin-pick _ l h = refl

pick_lem :
    (mode : TxMode) (l : Link) {c : Character} {queued : Bool} {bits : List Bit} {e' : Encoder}
    → (next_char mode l).0 ≡ ok (c, queued)
    → encode_character c (next_char mode l).1.encoder ≡ (ok bits, e')
    → pick mode l
      ≡ (ok bits, record (next_char mode l).1 { encoder = e'; tx_task = sending c queued })
unfolding pick on_encoder encode coerce_character
pick_lem mode l {c} {queued} chosen enc = rw (chosen, enc) refl

-- A link outside `TxMode.RESET` whose queue has nothing but requests, each an FCT, an EOP, an EEP, a
-- NULL, a data byte, a time-code or a broadcast with the default type field, and a peer whose decoder is
-- in step with its encoder: what the transmit loop sends next arrives, in the sense of `Arrives`, and is
-- dispatched behind its last bit and not before.
pub tx_loop-Arrives :
    (l p : Link)
    → (output l.fsm).tx_mode ≢ reset
    → All IsRequest l.tx_nchar_queue
    → Synced l.encoder p.decoder
    → Arrives l p
unfolding tx_loop
tx_loop-Arrives l p active rs synced =
    let mode = (output l.fsm).tx_mode in
    let m = (next_char mode l).1 in
    let (c, queued, chosen, is) =
      Chosen-IsRequest l (next_char mode l).0 m rs (next_char_lem mode l).0 in
    let one =
      deliver-Synced m.encoder p.decoder none is
        (subst (λ e. Synced e p.decoder) (sym (next_char-encoder mode l)) synced) in
    record {
      bits = one.sent;
      l' = record m { encoder = one.e'; tx_task = sending c queued };
      c = c;
      queued = queued;
      c' = one.c';
      d' = one.d';
      sent = tx_begin-pick mode l active ∙ ap end_task (pick_lem mode l chosen one.encoded);
      left = refl;
      chosen = chosen;
      received =
          feed_bits_lem one.sent p (Synced-held one.synced) (Synced-IsFramed synced) one.received;
      same = one.same;
      clean = one.clean;
      synced = one.synced;
    }
