-- ===== src/Link/Rounds.antt =====
-- link.py: rounds of a link handshake.
use cocotbext_spacewire.Base.{ℕ, zero, suc, Bool, true, false}
use cocotbext_spacewire.LinkFsm.{connecting, run}
use cocotbext_spacewire.Link.State.{Link}
use cocotbext_spacewire.Link.Exchange.{exchange}
use cocotbext_spacewire.Link.Handshake.{View, Meets, Meets-sym}
use cocotbext_spacewire.Link.Turns.{machine, nulls, runs, fct_first, null_between, fct_answer}

abbrev pub swap : Link × Link → Link × Link
swap (l, p) = (p, l)

-- The first link sends `k` characters.
unfoldable pub several : ℕ → Link × Link → Link × Link
several zero q = q
several (suc k) q = several k (exchange q.0 q.1)

-- The first link sends `k + 1` characters, and the second one then sends one.
unfoldable pub round : ℕ → Link × Link → Link × Link
unfolding several
round k q = let (l, p) = several (suc k) q in swap (exchange p l)

-- The same, with either link as the first.
unfoldable pub round_of : Bool → ℕ → Link × Link → Link × Link
round_of true k q = round k q
round_of false k q = swap (round k (swap q))

abbrev pub MeetsAt : View → View → Link × Link → Type 0
MeetsAt v w q = Meets v w q.0 q.1

several-stays :
    (v w : View)
    → ((l p : Link) → Meets v w l p → MeetsAt v w (exchange l p))
    → (k : ℕ) (q : Link × Link) → MeetsAt v w q
    → MeetsAt v w (several k q)
unfolding several
several-stays v w stays zero q h = h
several-stays v w stays (suc k) q h = several-stays v w stays k (exchange q.0 q.1) (stays q.0 q.1 h)

-- A round: the first character leads from `v` and `w` to `v'` and `w'`, which more of them leave as they
-- are, and the answer leads on.
pub round_lem :
    {v w v' w' v'' w'' : View}
    → ((l p : Link) → Meets v w l p → MeetsAt v' w' (exchange l p))
    → ((l p : Link) → Meets v' w' l p → MeetsAt v' w' (exchange l p))
    → ((l p : Link) → Meets w' v' l p → MeetsAt w'' v'' (exchange l p))
    → (k : ℕ) (q : Link × Link) → MeetsAt v w q
    → MeetsAt v'' w'' (round k q)
unfolding round several
round_lem first more answer k q h =
    let q' = several k (exchange q.0 q.1) in
    Meets-sym
      (answer q'.1 q'.0 (Meets-sym (several-stays _ _ more k (exchange q.0 q.1) (first q.0 q.1 h))))

-- The round of the FCTs, whichever link begins.
pub fct_round :
    (t t' : ℕ) (a b a' b' : Bool) (n n' : ℕ) (y : Bool) (k : ℕ) (q : Link × Link)
    → MeetsAt
        (nulls n (machine t a b connecting true true false false))
        (nulls n' (machine t' a' b' connecting true true false false))
        q
    → MeetsAt
        (runs n (machine t a b run true true true true))
        (runs n' (machine t' a' b' run true true true true))
        (round_of y k q)
unfolding round_of
fct_round t t' a b a' b' n n' true k q h =
    round_lem (fct_first t t' a b a' b' n n') (null_between t t' a b a' b' n n')
      (fct_answer t' t a' b' a b n' n) k q h
fct_round t t' a b a' b' n n' false k q h = Meets-sym (
    round_lem (fct_first t' t a' b' a b n' n) (null_between t' t a' b' a b n' n)
      (fct_answer t t' a b a' b' n n') k (swap q) (Meets-sym h))
