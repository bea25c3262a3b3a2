-- ===== src/Monitor/Run.antt =====
-- monitor.py: what the simulator tells a monitor, in any order, and what its receivers take.
use cocotbext_spacewire.Base.Int.{ℤ}
use cocotbext_spacewire.Base.{
  ◌≡◌, refl, sym, inl, inr, Option-cases, ◌∙◌, true, false, Option, none, some, List, [], ◌∷◌, ◌++◌,
  append-nil, append_assoc, Method,
}
use cocotbext_spacewire.Monitor.{
  Monitor, RunTask, running, invoke_callbacks, timed_out, received, edge,
}

-- An edge of D or S, with the value of `di` then; or the timeout.
pub data Signal (V : Type 0) : Type 0 where
  changed : V → Signal V
  quiet : Signal V

-- The values at the edges.
abbrev pub values : {V : Type 0} → List (Signal V) → List V
values [] = []
values (changed v ∷ more) = v ∷ values more
values (quiet ∷ more) = values more

-- The calls of the callbacks for several bits.
unfoldable pub called : {E : Type 0} → List (ℤ → Method E (Unit {0})) → List ℤ → E → E
called callbacks [] env = env
called callbacks (b ∷ bs) env = called callbacks bs (invoke_callbacks callbacks b env)

-- The bits that can be read from `di`.
unfoldable pub readable : {V : Type 0} → (V → Option ℤ) → List V → List ℤ
readable int_of [] = []
readable int_of (v ∷ vs) = elim (int_of v) [
  | none ↦ readable int_of vs
  | some bit ↦ bit ∷ readable int_of vs
]

-- `m'` has received the bits `bs` more than `m`, and called the callbacks for them.
pub record Has {E : Type 0} (m : Monitor E) (env : E) (bs : List ℤ) (m' : Monitor E × E)
    : Type 0 where
  pub queue : m'.0.queue ≡ m.queue ++ bs
  pub effects : m'.1 ≡ called m.callbacks bs env
  pub still : m'.0.task ≡ running

module _ {E V : Type 0} (int_of : V → Option ℤ) where
  -- They reach the monitor only while `_run` is running.
  unfoldable pub signal_to : RunTask → Signal V → Monitor E × E → Monitor E × E
  signal_to running (changed v) (m, env) = edge int_of v (m, env)
  signal_to running quiet (m, env) = ((timed_out m).1, env)
  signal_to _ x (m, env) = (m, env)

  unfoldable pub signal : Signal V → Monitor E × E → Monitor E × E
  unfolding signal_to
  signal x (m, env) = signal_to m.task x (m, env)

  unfoldable pub signals : List (Signal V) → Monitor E × E → Monitor E × E
  signals [] m = m
  signals (x ∷ more) m = signals more (signal x m)

  quiet_lem :
      (m : Monitor E) (env : E)
      → m.task ≡ running
      → m.raise_on_disconnect ≡ false
      → signal quiet (m, env) ≡ (record m { disconnected = true }, env)
  unfolding signal timed_out signal_to
  quiet_lem m env t r = rw (t, signal_to) (rw r)

  changed_lem :
      (v : V) (m : Monitor E) (env : E)
      → m.task ≡ running
      → signal (changed v) (m, env) ≡ received (int_of v) (record m { disconnected = false }, env)
  unfolding signal edge signal_to
  changed_lem v m env t = rw (t, signal_to) refl

  -- A running monitor that does not raise on a disconnect queues every readable bit and calls every
  -- callback for it, in order, wherever timeouts fall between the edges.
  pub signals-Has :
      (xs : List (Signal V)) (m : Monitor E) (env : E)
      → m.task ≡ running
      → m.raise_on_disconnect ≡ false
      → Has m env (readable int_of (values xs)) (signals xs (m, env))
  unfolding signals readable called
  signals-Has [] m env t r = record { queue = sym (append-nil _); effects = refl; still = t }
  signals-Has (quiet ∷ xs) m env t r =
      let h = signals-Has xs (record m { disconnected = true }) env t r in
      rw (quiet_lem m env t r) (record { queue = h.queue; effects = h.effects; still = h.still })
  signals-Has (changed v ∷ xs) m env t r =
      rw (changed_lem v m env t) (elim (Option-cases (int_of v)) [
        | inl e ↦
            let h = signals-Has xs (record m { disconnected = false }) env t r in
            rw (e, readable) (record { queue = h.queue; effects = h.effects; still = h.still })
        | inr (bit, e) ↦
            let m' = record m {
              disconnected = false;
              queue = m.queue ++ bit ∷ [];
              bit_available = true;
            } in
            let h = signals-Has xs m' (invoke_callbacks m.callbacks bit env) t r in
            rw (e, readable)
              (record {
                queue = h.queue ∙ append_assoc m.queue (bit ∷ []) (readable int_of (values xs));
                effects = h.effects;
                still = h.still;
              })
      ])
