-- ===== src/Monitor.antt =====
-- cocotbext/spacewire/monitor.py: `SpaceWireMonitor`, cut at its waits. A value of `di` and its `int`
-- are the simulator's: `V`, and `int_of` with `none` for the `ValueError` of an X or Z. A callback is
-- a method of some object `E`.
pub mod Run
pub mod Wire
use cocotbext_spacewire.Base.Int.{ℤ, pos, negsuc, leb_ℤ}
use cocotbext_spacewire.Base.{
  ℕ, zero, suc, Bool, true, false, Option, none, some, List, [], ◌∷◌, ◌++◌, if◌then◌else◌, Outcome,
  ok, raise, value_error, runtime_error, disconnect_error, Method,
}

-- `_task` is `None`, or `_run` is running, or an exception has ended it.
pub data RunTask : Type 0 where
  off running ended : RunTask

-- The timeout, a float in the code, is in nanoseconds.
pub record Monitor (E : Type 0) : Type 0 where
  pub disconnect_timeout_ns : ℤ
  pub raise_on_disconnect : Bool
  pub queue : List ℤ
  pub task : RunTask
  pub disconnected : Bool
  pub callbacks : List (ℤ → Method E (Unit {0}))
  pub bit_available : Bool

-- What a receiver has got, or that it waits; `recv_bits` holds the bits that it has taken already.
pub data Received (A : Type 0) : Type 0 where
  returns : A → Received A
  waits : List ℤ → Received A

module _ {E : Type 0} where
  unfoldable pub init : ℤ → Bool → Outcome (Monitor E)
  init disconnect_timeout_ns raise_on_disconnect =
      if leb_ℤ disconnect_timeout_ns (pos 0)
      then raise value_error
      else ok (record {
        disconnect_timeout_ns = disconnect_timeout_ns;
        raise_on_disconnect = raise_on_disconnect;
        queue = [];
        task = off;
        disconnected = false;
        callbacks = [];
        bit_available = false;
      })

  unfoldable pub start_from : RunTask → Method (Monitor E) (Unit {0})
  start_from off m = (ok tt, record m { task = running })
  start_from _ m = (raise runtime_error, m)

  unfoldable pub start : Method (Monitor E) (Unit {0})
  unfolding start_from
  start m = start_from m.task m

  unfoldable pub stop : Monitor E → Monitor E
  stop m = record m { task = off }

  -- `recv_bit` up to its return or its wait.
  unfoldable pub recv_from : List ℤ → Monitor E → Received ℤ × Monitor E
  recv_from [] m = (waits [], record m { bit_available = false })
  recv_from (b ∷ bs) m = (returns b, record m { queue = bs })

  unfoldable pub recv_bit : Monitor E → Received ℤ × Monitor E
  unfolding recv_from
  recv_bit m = recv_from m.queue m

  -- The loop of `recv_bits`, with the bits taken so far.
  unfoldable pub recv_loop : ℕ → List ℤ → Monitor E → Received (List ℤ) × Monitor E
  recv_loop zero taken m = (returns taken, m)
  recv_loop (suc n) taken m =
      let (r, m') = recv_bit m in
      elim r [ returns b ↦ recv_loop n (taken ++ b ∷ []) m' | waits held ↦ (waits taken, m') ]

  unfoldable pub recv_bits : ℤ → Method (Monitor E) (Received (List ℤ))
  recv_bits (pos n) m = let (r, m') = recv_loop n [] m in (ok r, m')
  recv_bits (negsuc n) m = (raise value_error, m)

  unfoldable pub on_bit : (ℤ → Method E (Unit {0})) → Monitor E → Monitor E
  on_bit callback m = record m { callbacks = m.callbacks ++ callback ∷ [] }

  -- `_invoke_callbacks`: an exception of a callback is logged, and the next one is called.
  unfoldable pub invoke_callbacks : List (ℤ → Method E (Unit {0})) → ℤ → E → E
  invoke_callbacks [] bit env = env
  invoke_callbacks (callback ∷ callbacks) bit env =
      invoke_callbacks callbacks bit (callback bit env).1

  -- One round of `_run`, whose wait ends by the timeout.
  unfoldable pub timed_out : Method (Monitor E) (Unit {0})
  timed_out m =
      if m.raise_on_disconnect
      then (raise disconnect_error, record m { disconnected = true; task = ended })
      else (ok tt, record m { disconnected = true })

  -- The end of a round that has read a bit.
  abbrev pub received : Option ℤ → Monitor E × E → Monitor E × E
  received none (m, env) = (m, env)
  received (some bit) (m, env) = (
    record m { queue = m.queue ++ bit ∷ []; bit_available = true },
    invoke_callbacks m.callbacks bit env,
  )

  -- One round of `_run`, whose wait ends by an edge of D or S, with the value of `di`.
  unfoldable pub edge : {V : Type 0} → (V → Option ℤ) → V → Monitor E × E → Monitor E × E
  edge int_of di (m, env) = received (int_of di) (record m { disconnected = false }, env)
