-- ===== src/Link/Cycles.antt =====
-- link.py: turns, reads and FCTs that deliver N-Chars without a bound on their number.
use cocotbext_spacewire.Base.Int.{sub_ℕ}
use cocotbext_spacewire.Base.{
  ℕ, zero, suc, ◌+◌, ◌*◌, ◌≤◌, ◌≡◌, ◌⊎◌, inl, inr, refl, sym, ap, ap₂, ◌∙◌, subst, Bool, true,
  false, List, [], ◌∷◌, ◌++◌, append-nil, length, length-append, none, some, arith,
}
use cocotbext_spacewire.FlowControl.{should_send_fct}
use cocotbext_spacewire.Packet.Stream.{recv_packet, recv_loop, ends_packet}
use cocotbext_spacewire.Characters.Types.{CharType, eop, eep, Character}
use cocotbext_spacewire.Link.State.{Link}
use cocotbext_spacewire.Link.Api.{take_packet}
use cocotbext_spacewire.Link.Exchange.{exchange}
use cocotbext_spacewire.Link.Rounds.{several}
use cocotbext_spacewire.Link.Running.{headroom}
use cocotbext_spacewire.Link.Joined.{Joined, Joined-sym, by_fct, by_nchar, by_null, payloads}
use cocotbext_spacewire.Link.Moves.{exchange-Turned}
use cocotbext_spacewire.Link.Transfer.{
  Step, exchanges, receives, step, step_of, steps, swap, left_over, consumed, consumed_lem,
  take_packet_lem, given, taken,
}
use cocotbext_spacewire.Link.Conserved.{under_way, received-Joined, steps-Conserved}
use cocotbext_spacewire.Link.Arrival.{length-nil}
use cocotbext_spacewire.Link.Spending.{Open, several-Spends}

-- The second user reads `r` times.
unfoldable pub reads : ℕ → Link → Link
reads zero p = p
reads (suc r) p = reads r (take_packet (recv_packet p.rx_nchar_queue) p).1

-- A call of `recv_packet` takes something, if there is anything.
consumed_some :
    (type : CharType) (c : Character) (rest : List Character)
    → 1
      ≤ length (elim (ends_packet type []) as (λ _. List Character) [
        | none ↦ c ∷ rest
        | some result ↦ c ∷ []
      ])
consumed_some eop c rest = omega arith
consumed_some eep c rest = omega arith
consumed_some _ c rest = omega arith

length-left_over :
    (queue : List Character) (n : ℕ)
    → length queue ≤ suc n
    → length (left_over (recv_packet queue)) ≤ n
unfolding recv_packet recv_loop consumed
length-left_over [] n h = omega arith
length-left_over (c ∷ queue) n h =
    let parts = consumed_lem [] (c ∷ queue) in
    let left = left_over (recv_packet (c ∷ queue)) in
    let some_taken = consumed_some c.type c (consumed queue) in
    let sum = ap length parts ∙ length-append (consumed (c ∷ queue)) left in omega arith

reads_lem :
    (r : ℕ) (p : Link) → length p.rx_nchar_queue ≤ r → reads r p ≡ record p { rx_nchar_queue = [] }
unfolding reads
reads_lem zero p h =
    ap {A = List Character} {B = Link} (λ queue. record p { rx_nchar_queue = queue })
      (length-nil p.rx_nchar_queue (omega arith))
reads_lem (suc r) p h =
    let is = take_packet_lem (recv_packet p.rx_nchar_queue) p in
    let p' = record p { rx_nchar_queue = left_over (recv_packet p.rx_nchar_queue) } in
    ap (reads r) is ∙ reads_lem r p' (length-left_over p.rx_nchar_queue r h)

-- The second link, with room for it, grants an FCT to a first link without credit.
answer_lem :
    (q : Link × Link)
    → Open q
    → q.1.rx_nchar_queue ≡ []
    → q.0.credit.tx_credit ≡ 0
    → (exchange q.1 q.0).1.credit.tx_credit ≡ 8
unfolding should_send_fct
answer_lem q o unread spent =
    let t = exchange-Turned q.1 q.0 (Joined-sym o.joined) in
    let granted = o.joined.granted in
    let limit = o.limit in
    let room = o.room in
    let due : should_send_fct (headroom q.1) q.1.credit ≡ true =
      ap (λ queue. should_send_fct (sub_ℕ q.1.rx_fifo_capacity_nchars (length queue)) q.1.credit)
        unread
      ∙ ground arith in
    elim t.progress [
      | by_fct more _ _ ↦ let g = t.joined.grants in omega arith
      | by_nchar _ _ _ none_due ↦ absurd cc
      | by_null _ none_due _ _ _ ↦ absurd cc
    ]

-- The first link sends until it has no credit or nothing to send, the second user reads everything, and
-- the second link takes a turn, in which it may grant an FCT.
unfoldable pub cycle : Link × Link → Link × Link
unfolding reads several
cycle q = let (l, p) = several 63 q in swap (exchange (reads 56 p) l)

-- With `m` cycles to go, and nothing left unread.
record Going (m : ℕ) (q : Link × Link) : Type 0 where
  open' : Open q
  unread : q.1.rx_nchar_queue ≡ []
  left :
      (q.0.tx_nchar_queue ≡ []) ⊎ (8 ≤ q.0.credit.tx_credit) × (length q.0.tx_nchar_queue ≤ 8 * m)

length-payloads : (cs : List Character) → length (payloads cs) ≡ length cs
length-payloads [] = refl
length-payloads (c ∷ cs) = ap suc (length-payloads cs)

length-under_way :
    (q : Link × Link) → length (under_way q) ≡ length q.1.rx_nchar_queue + length q.0.tx_nchar_queue
length-under_way q =
    length-append (payloads q.1.rx_nchar_queue) (payloads q.0.tx_nchar_queue)
    ∙ ap₂ ◌+◌ (length-payloads q.1.rx_nchar_queue) (length-payloads q.0.tx_nchar_queue)

answered :
    (m : ℕ) (q : Link × Link)
    → Open q
    → q.1.rx_nchar_queue ≡ []
    → (q.0.tx_nchar_queue ≡ []) ⊎ (q.0.credit.tx_credit ≡ 0) × (length q.0.tx_nchar_queue ≤ 8 * m)
    → Going m (swap (exchange q.1 q.0))
answered m q o unread f =
    let t = exchange-Turned q.1 q.0 (Joined-sym o.joined) in
    record {
      open' = record {
        joined = Joined-sym t.joined;
        room = subst (λ n. 8 ≤ n) (sym t.capacity) o.room;
        limit = subst (λ n. 8 ≤ n) (sym t.limit) o.limit;
      };
      unread = t.kept_rx ∙ unread;
      left = elim f [
        | inl empty ↦ inl (t.kept_tx ∙ empty)
        | inr (spent, few) ↦
            let n = answer_lem q o unread spent in
            inr (
              subst (λ n. 8 ≤ n) (sym n) (omega arith),
              subst (λ cs. length cs ≤ 8 * m) (sym t.kept_tx) few,
            )
      ];
    }

cycle-Going : (m : ℕ) (q : Link × Link) → Going (suc m) q → Going m (cycle q)
unfolding cycle
cycle-Going m q g =
    let j = g.open'.joined in
    let granted = j.granted in
    let limited = j.there.limited in
    let capped = j.there.capped in
    let cap = j.here.capped in
    let s = several-Spends 63 7 q g.open' (omega arith) (omega arith) in
    let q₁ = several 63 q in
    let cost = s.cost in
    let o = s.open' in
    let moved = sym (length-under_way q₁) ∙ ap length s.stream ∙ length-under_way q in
    let unread : length q.1.rx_nchar_queue ≡ 0 = ap length g.unread in
    let p : Link = record q₁.1 { rx_nchar_queue = [] } in
    let is : reads 56 q₁.1 ≡ p = reads_lem 56 q₁.1 (omega arith) in
    subst (λ p. Going m (swap (exchange p q₁.0))) (sym is)
      (answered m (q₁.0, p)
        (record {
          joined = Joined-sym (received-Joined [] q₁.1 q₁.0 (Joined-sym o.joined));
          room = o.room;
          limit = o.limit;
        })
        refl
        (spent q.0.credit.tx_credit q₁.0.credit.tx_credit q.0.tx_nchar_queue q₁.0.tx_nchar_queue
          g.left s.done cost))
  where
    spent :
        (t t' : ℕ) (cs cs' : List Character)
        → (cs ≡ []) ⊎ (8 ≤ t) × (length cs ≤ 8 * suc m)
        → (cs' ≡ []) ⊎ (t' ≡ 0)
        → length cs + t' ≡ length cs' + t
        → (cs' ≡ []) ⊎ (t' ≡ 0) × (length cs' ≤ 8 * m)
    spent t t' cs cs' l (inl empty) cost = inl empty
    spent t t' cs cs' (inl nothing) (inr spent_all) cost =
        let n : length cs ≡ 0 = ap length nothing in inl (length-nil cs' (omega arith))
    spent t t' cs cs' (inr (credit, few)) (inr spent_all) cost = inr (spent_all, omega arith)

-- The actions of `m` cycles.
abbrev repeated : ℕ → Bool × Step → List (Bool × Step) → List (Bool × Step)
repeated zero s more = more
repeated (suc k) s more = s ∷ repeated k s more

unfoldable pub cycles : ℕ → List (Bool × Step)
cycles zero = []
cycles (suc m) =
    repeated 63 (true, exchanges) (repeated 56 (false, receives) ((false, exchanges) ∷ cycles m))

repeated-several :
    (k : ℕ) (more : List (Bool × Step)) (q : Link × Link)
    → steps (repeated k (true, exchanges) more) q ≡ steps more (several k q)
unfolding steps step_of step several
repeated-several zero more q = refl
repeated-several (suc k) more q = repeated-several k more (exchange q.0 q.1)

repeated-reads :
    (r : ℕ) (more : List (Bool × Step)) (q : Link × Link)
    → steps (repeated r (false, receives) more) q ≡ steps more (q.0, reads r q.1)
unfolding steps step_of step reads
repeated-reads zero more q = refl
repeated-reads (suc r) more q =
    repeated-reads r more (q.0, (take_packet (recv_packet q.1.rx_nchar_queue) q.1).1)

cycles-cycle : (m : ℕ) (q : Link × Link) → steps (cycles (suc m)) q ≡ steps (cycles m) (cycle q)
unfolding cycles cycle steps step_of step
cycles-cycle m q =
    let more = (false, exchanges) ∷ cycles m in
    repeated-several 63 (repeated 56 (false, receives) more) q
    ∙ repeated-reads 56 more (several 63 q)

given-repeated :
    (k : ℕ) (more : List (Bool × Step))
    → (given (repeated k (true, exchanges) more) ≡ given more)
      × (given (repeated k (false, receives) more) ≡ given more)
unfolding given
given-repeated zero more = (refl, refl)
given-repeated (suc k) more = given-repeated k more

given-cycles : (m : ℕ) → given (cycles m) ≡ []
unfolding given cycles
given-cycles zero = refl
given-cycles (suc m) =
    let more = (false, exchanges) ∷ cycles m in
    (given-repeated 63 (repeated 56 (false, receives) more)).0
    ∙ (given-repeated 56 more).1
    ∙ given-cycles m

cycles-Going : (m : ℕ) (q : Link × Link) → Going m q → Going 0 (steps (cycles m) q)
unfolding cycles steps
cycles-Going zero q g = g
cycles-Going (suc m) q g =
    subst (Going 0) (sym (cycles-cycle m q)) (cycles-Going m (cycle q) (cycle-Going m q g))

-- Two links in Run that are joined, with nothing unread at the second one, whose FIFO and credit limit
-- have room for an FCT, and credit for 8 N-Chars at the first one: however many N-Chars the first one has
-- to send, after one cycle for each 8 of them, in which it takes 63 turns, the second user calls
-- `recv_packet` 56 times and the second link takes a turn, all of them are taken, in order, nothing is
-- left in the queue and the event that `send_packet` waits for is set.
pub cycles_deliver :
    (m : ℕ) (l p : Link)
    → Joined l p
    → p.rx_nchar_queue ≡ []
    → 8 ≤ p.rx_fifo_capacity_nchars
    → 8 ≤ p.credit.max_rx_credit
    → 8 ≤ l.credit.tx_credit
    → length l.tx_nchar_queue ≤ 8 * m
    → let q = steps (cycles m) (l, p) in
      (payloads (taken (cycles m) (l, p)) ≡ payloads l.tx_nchar_queue)
      × (q.0.tx_nchar_queue ≡ [])
      × (q.0.tx_drained_evt ≡ true)
cycles_deliver m l p j unread room limit credit few =
    let q = steps (cycles m) (l, p) in
    let g =
      cycles-Going m (l, p)
        (record {
          open' = record { joined = j; room = room; limit = limit };
          unread = unread;
          left = inr (credit, few);
        }) in
    let empty = nothing_left q.0.tx_nchar_queue q.0.credit.tx_credit g.left in
    let c = steps-Conserved (cycles m) (l, p) j in
    let nothing_new = ap (λ cs. under_way (l, p) ++ payloads cs) (given-cycles m) in
    (
      sym (
          ap (λ rx. payloads rx ++ payloads l.tx_nchar_queue) (sym unread)
          ∙ sym (append-nil (under_way (l, p)))
          ∙ sym nothing_new
          ∙ c.stream
          ∙ ap₂ (λ rx tx. payloads (taken (cycles m) (l, p)) ++ (payloads rx ++ payloads tx))
              g.unread empty
          ∙ append-nil _),
      empty,
      g.open'.joined.here.emptied empty,
    )
  where
    nothing_left :
        (cs : List Character) (t : ℕ) → (cs ≡ []) ⊎ (8 ≤ t) × (length cs ≤ 8 * 0) → cs ≡ []
    nothing_left cs t (inl empty) = empty
    nothing_left cs t (inr (credit, few)) = length-nil cs (omega arith)
