-- ===== src/Link/Spending.antt =====
-- link.py: a link in Run that sends until it has no credit or nothing to send.
use cocotbext_spacewire.Base.{
  ℕ, zero, suc, ◌+◌, ◌*◌, ◌≤◌, ◌<◌, ◌≡◌, ◌⊎◌, inl, inr, refl, sym, ap, ap₂, ◌∙◌, subst, List, [],
  length, arith,
}
use cocotbext_spacewire.Characters.Types.{Character}
use cocotbext_spacewire.Link.State.{Link}
use cocotbext_spacewire.Link.Exchange.{exchange}
use cocotbext_spacewire.Link.Rounds.{several}
use cocotbext_spacewire.Link.Joined.{Joined, by_fct, by_nchar, by_null}
use cocotbext_spacewire.Link.Moves.{exchange-Turned}
use cocotbext_spacewire.Link.Conserved.{under_way}

-- The second link's user has room for an FCT, and the first link sends.
pub record Open (q : Link × Link) : Type 0 where
  pub joined : Joined q.0 q.1
  pub room : 8 ≤ q.1.rx_fifo_capacity_nchars
  pub limit : 8 ≤ q.1.credit.max_rx_credit

-- What `k` turns of the first link come to: it has no N-Char left or no credit, and each N-Char has cost
-- one unit of credit.
pub record Spent (q q' : Link × Link) : Type 0 where
  pub open' : Open q'
  pub done : (q'.0.tx_nchar_queue ≡ []) ⊎ (q'.0.credit.tx_credit ≡ 0)
  pub cost :
      length q.0.tx_nchar_queue + q'.0.credit.tx_credit
      ≡ length q'.0.tx_nchar_queue + q.0.credit.tx_credit
  pub stream : under_way q' ≡ under_way q

turn-Open : (q : Link × Link) → Open q → Open (exchange q.0 q.1)
turn-Open q o =
    let t = exchange-Turned q.0 q.1 o.joined in
    record {
      joined = t.joined;
      room = subst (λ n. 8 ≤ n) (sym t.peer_capacity) o.room;
      limit = subst (λ n. 8 ≤ n) (sym t.peer_limit) o.limit;
    }

abbrev pub Spends : ℕ → Type 0
Spends k =
    (g : ℕ) (q : Link × Link)
    → Open q
    → q.0.credit.tx_credit + g ≤ k
    → q.0.credit.max_rx_credit < q.0.credit.rx_credit + 8 * (g + 1)
    → Spent q (several k q)

-- One more turn in front.
then-Spent :
    (q q' : Link × Link)
    → under_way (exchange q.0 q.1) ≡ under_way q
    → length q.0.tx_nchar_queue + (exchange q.0 q.1).0.credit.tx_credit
      ≡ length (exchange q.0 q.1).0.tx_nchar_queue + q.0.credit.tx_credit
    → Spent (exchange q.0 q.1) q'
    → Spent q q'
then-Spent q q' same paid s = record {
  open' = s.open';
  done = s.done;
  cost = let n = s.cost in omega arith;
  stream = s.stream ∙ same;
}

abbrev pub IsFinished : Link × Link → Type 0
IsFinished q = (q.0.tx_nchar_queue ≡ []) ⊎ (q.0.credit.tx_credit ≡ 0)

-- Once there is nothing to send, or no credit, this stays so.
finished-Spent : (k : ℕ) (q : Link × Link) → Open q → IsFinished q → Spent q (several k q)
unfolding several
finished-Spent zero q o f = record { open' = o; done = f; cost = refl; stream = refl }
finished-Spent (suc k) q o f =
    let t = exchange-Turned q.0 q.1 o.joined in
    let q' = exchange q.0 q.1 in
    let o' = turn-Open q o in
    let rest = λ (f' : IsFinished q'). finished-Spent k q' o' f' in
    elim t.progress [
      | by_fct _ same kept ↦
          then-Spent q _ t.stream (ap₂ (λ xs n. length xs + n) (sym same) kept)
            (rest (still q.0 q'.0 same kept f))
      | by_null _ _ _ same kept ↦
          then-Spent q _ t.stream (ap₂ (λ xs n. length xs + n) (sym same) kept)
            (rest (still q.0 q'.0 same kept f))
      | by_nchar shorter _ less _ ↦ absurd (never q.0 q'.0 f shorter less)
    ]
  where
    still :
        (l l' : Link)
        → l'.tx_nchar_queue ≡ l.tx_nchar_queue
        → l'.credit.tx_credit ≡ l.credit.tx_credit
        → (l.tx_nchar_queue ≡ []) ⊎ (l.credit.tx_credit ≡ 0)
        → (l'.tx_nchar_queue ≡ []) ⊎ (l'.credit.tx_credit ≡ 0)
    still l l' same kept (inl h) = inl (same ∙ h)
    still l l' same kept (inr h) = inr (kept ∙ h)

    never :
        (l l' : Link)
        → (l.tx_nchar_queue ≡ []) ⊎ (l.credit.tx_credit ≡ 0)
        → length l.tx_nchar_queue ≡ length l'.tx_nchar_queue + 1
        → l.credit.tx_credit ≡ l'.credit.tx_credit + 1
        → ⊥
    never l l' (inl h) shorter less =
        let n : length l.tx_nchar_queue ≡ 0 = ap length h in omega arith
    never l l' (inr h) shorter less = omega arith

spend-fct :
    (k g : ℕ) (q : Link × Link)
    → Spends k
    → Open q
    → q.0.credit.tx_credit + g ≤ suc k
    → q.0.credit.max_rx_credit < q.0.credit.rx_credit + 8 * g
    → Spent q (several k q)
spend-fct k zero q ih o enough fcts = let room = o.joined.here.limited in absurd (omega arith)
spend-fct k (suc g) q ih o enough fcts = ih g q o (omega arith) (omega arith)

-- Enough turns: one for each unit of credit, and one for each FCT that the credit limit still allows.
pub several-Spends : (k : ℕ) → Spends k
unfolding several
several-Spends zero g q o enough fcts = finished-Spent 0 q o (inr (omega arith))
several-Spends (suc k) g q o enough fcts =
    let q' = exchange q.0 q.1 in
    let t = exchange-Turned q.0 q.1 o.joined in
    let limit = t.limit in
    let o' = turn-Open q o in
    elim t.progress [
      | by_fct more same kept ↦
          then-Spent q _ t.stream (ap₂ (λ xs n. length xs + n) (sym same) kept)
            (spend-fct k g q' (several-Spends k) o' (omega arith) (omega arith))
      | by_nchar shorter kept less _ ↦
          then-Spent q _ t.stream (omega arith)
            (several-Spends k g q' o' (omega arith) (omega arith))
      | by_null idle none_due rx same kept ↦
          then-Spent q _ t.stream (ap₂ (λ xs n. length xs + n) (sym same) kept)
            (finished-Spent k q' o' (finished idle same kept))
    ]
  where
    finished :
        {xs ys : List Character} {m n : ℕ}
        → (xs ≡ []) ⊎ (m ≡ 0)
        → ys ≡ xs
        → n ≡ m
        → (ys ≡ []) ⊎ (n ≡ 0)
    finished (inl h) same kept = inl (same ∙ h)
    finished (inr h) same kept = inr (kept ∙ h)
