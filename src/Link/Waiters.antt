-- ===== src/Link/Waiters.antt =====
-- link.py: the callers of `connect` and of `wait_for_error_reset`.
use cocotbext_spacewire.Base.Int.{pos}
use cocotbext_spacewire.Base.{
  ℕ, zero, suc, ◌+◌, ◌-◌, ◌≤◌, ◌<◌, ◌≡◌, refl, ap, ◌∙◌, Bool, true, false, Bool-cases, inl, inr,
  List, [], ◌∷◌, ◌++◌, map, arith, ltb, if◌then◌else◌, ok, ◌>>◌, return,
}
use cocotbext_spacewire.LinkFsm.{State, run}
use cocotbext_spacewire.Link.State.{Link}
use cocotbext_spacewire.Link.Api.{start}
use cocotbext_spacewire.Link.Actions.{Action, act, act_all}
use cocotbext_spacewire.Link.Waits.{
  returned, await_run, connect, ResetWait, ended, waiting, wait_loop, wait_for_error_reset,
  wait_goes_on, WaitStep, acts, goes_on, wait_step, wait_steps,
}
use cocotbext_spacewire.Link.Progress.{SameMarks, marked, act_all-keeps}

-- A caller that goes on after each of several runs of actions.
unfoldable pub interleaved : List (List Action) → List WaitStep
interleaved [] = []
interleaved (actions ∷ more) = map acts actions ++ goes_on ∷ interleaved more

-- The runs of actions in which the link has entered ErrorReset, once or more often.
unfoldable pub entries : List (List Action) → ResetWait × Link → ℕ
entries [] s = 0
entries (actions ∷ more) s =
    let l' = act_all actions s.1 in
    let rest = entries more (wait_step goes_on (s.0, l')) in
    if ltb s.1.error_reset_count l'.error_reset_count then rest + 1 else rest

-- A caller that waits for some more entries, or has returned.
abbrev left_of : ℕ → ResetWait
left_of zero = ended (ok tt)
left_of (suc n) = waiting (suc n)

-- The mark is set exactly if the count has grown past `c`.
Marks : ℕ → Link → Type 0
Marks c l =
    (c ≤ l.error_reset_count)
    × (l.error_reset_entered ≡ true → c < l.error_reset_count)
    × (c < l.error_reset_count → l.error_reset_entered ≡ true)

Marks-ext : (c : ℕ) (l m : Link) → SameMarks l m → Marks c l → Marks c m
unfolding Marks
Marks-ext c l m same h = ground arith

Marks-marked : (c : ℕ) (s : State) (l : Link) → Marks c l → Marks c (marked s l)
unfolding Marks
Marks-marked c s l h = ground arith

act_all-Marks :
    (actions : List Action) (l : Link)
    → l.error_reset_entered ≡ false
    → Marks l.error_reset_count (act_all actions l)
unfolding Marks
act_all-Marks actions l off =
    let c = l.error_reset_count in
    act_all-keeps (Marks c) (Marks-ext c) (Marks-marked c) actions l
      (omega arith, (λ on. absurd cc), (λ more. absurd (omega (arith, more))))

wait_steps-acts :
    (actions : List Action) (more : List WaitStep) (w : ResetWait) (l : Link)
    → wait_steps (map acts actions ++ more) (w, l) ≡ wait_steps more (w, act_all actions l)
unfolding wait_steps wait_step act_all
wait_steps-acts [] more w l = refl
wait_steps-acts (a ∷ actions) more w l = wait_steps-acts actions more w (act a l)

-- One entry at least, and the caller goes on; it clears the mark.
goes_on-entered :
    (n : ℕ) (l : Link)
    → l.error_reset_entered ≡ true
    → wait_step goes_on (waiting (suc n), l) ≡ wait_loop n l
unfolding wait_step wait_goes_on
goes_on-entered n l on = rw on refl

goes_on-quiet :
    (n : ℕ) (l : Link)
    → l.error_reset_entered ≡ false
    → wait_step goes_on (waiting (suc n), l) ≡ (waiting (suc n), l)
unfolding wait_step wait_goes_on
goes_on-quiet n l off = rw off refl

-- A caller that has returned stays so.
interleaved-ended :
    (segments : List (List Action)) (l : Link)
    → (wait_steps (interleaved segments) (left_of 0, l)).0 ≡ left_of 0
unfolding interleaved wait_steps wait_step wait_goes_on
interleaved-ended [] l = refl
interleaved-ended (actions ∷ more) l =
    ap (λ s. s.0) (wait_steps-acts actions (goes_on ∷ interleaved more) (left_of 0) l)
    ∙ interleaved-ended more (act_all actions l)

-- The caller waits for as many entries fewer as there were, or has returned.
abbrev Leaves : List (List Action) → ℕ → ResetWait × Link → Type 0
Leaves segments count s =
    (wait_steps (interleaved segments) s).0 ≡ left_of (count - entries segments s)

-- The mark is clear while the caller waits.
abbrev IsClear : ℕ → Link → Type 0
IsClear zero l = Unit
IsClear (suc n) l = l.error_reset_entered ≡ false

wait_loop-Leaves :
    (segments : List (List Action)) (n : ℕ) (l : Link)
    → ((n : ℕ) (l : Link) → IsClear n l → Leaves segments n (left_of n, l))
    → Leaves segments n (wait_loop n l)
unfolding wait_loop
wait_loop-Leaves segments zero l h = h zero l tt
wait_loop-Leaves segments (suc n) l h = h (suc n) (record l { error_reset_entered = false }) refl

-- The caller's step, by what the run of actions before it has done.
counted_entry :
    (more : List (List Action)) (n : ℕ) {b : Bool} {s s' : ResetWait × Link}
    → s ≡ s'
    → b ≡ true
    → Leaves more n s'
    → (wait_steps (interleaved more) s).0
      ≡ left_of (suc n - (let rest = entries more s in if b then rest + 1 else rest))
counted_entry more n e grown h = rw (e, grown) (h ∙ ap left_of (omega arith))

counted_none :
    (more : List (List Action)) (n : ℕ) {b : Bool} {s s' : ResetWait × Link}
    → s ≡ s'
    → b ≡ false
    → Leaves more n s'
    → (wait_steps (interleaved more) s).0
      ≡ left_of (n - (let rest = entries more s in if b then rest + 1 else rest))
counted_none more n e same h = rw (e, same) h

-- One run of actions and the step of the caller behind it.
segment-Leaves :
    (actions : List Action) (more : List (List Action)) (n : ℕ) (l : Link)
    → ((n : ℕ) (l : Link) → IsClear n l → Leaves more n (left_of n, l))
    → l.error_reset_entered ≡ false
    → Leaves (actions ∷ more) (suc n) (waiting (suc n), l)
unfolding interleaved entries Marks wait_steps
segment-Leaves actions more n l h off =
    let l' = act_all actions l in
    let marks = act_all-Marks actions l off in
    ap (λ s. s.0) (wait_steps-acts actions (goes_on ∷ interleaved more) (waiting (suc n)) l)
    ∙ elim (Bool-cases l'.error_reset_entered) [
      | inl on ↦
          let grown : ltb l.error_reset_count l'.error_reset_count ≡ true =
            ground (arith, marks.1 on) in
          counted_entry more n (goes_on-entered n l' on) grown (wait_loop-Leaves more n l' h)
      | inr quiet ↦
          let same : ltb l.error_reset_count l'.error_reset_count ≡ false =
            ground (arith, marks.2) in
          counted_none more (suc n) (goes_on-quiet n l' quiet) same (h (suc n) l' quiet)
    ]

left_of-Leaves :
    (segments : List (List Action)) (n : ℕ) (l : Link)
    → IsClear n l
    → Leaves segments n (left_of n, l)
unfolding interleaved entries wait_steps
left_of-Leaves [] n l h = ap left_of (omega arith)
left_of-Leaves (actions ∷ more) zero l h =
    interleaved-ended (actions ∷ more) l ∙ ap left_of {x = 0} (omega arith)
left_of-Leaves (actions ∷ more) (suc n) l h =
    segment-Leaves actions more n l (left_of-Leaves more) h

-- A caller of `wait_for_error_reset(count)` that goes on after each of several runs of actions, and does
-- not time out, has then returned if ErrorReset was entered in as many of the runs as `count` says, and
-- else still waits for the others; entries before the call, and several in one run, make no difference.
wait_for_error_reset_lem :
    (segments : List (List Action)) (count : ℕ) (l : Link)
    → (wait_steps (interleaved segments) (wait_for_error_reset (pos count) l)).0
      ≡ left_of (count - entries segments (wait_for_error_reset (pos count) l))
unfolding wait_for_error_reset
wait_for_error_reset_lem segments count l =
    wait_loop-Leaves segments count l (left_of-Leaves segments)

await_run-reached : (l : Link) → l.run_reached ≡ true → await_run l ≡ returned
unfolding await_run
await_run-reached l h = ground arith

connect-started : (l : Link) → l.is_started ≡ true → connect l ≡ (ok (await_run l), l)
unfolding connect
connect-started l on =
    ap (λ b. ((if b then return tt else start) >> (λ l. (ok (await_run l), l))) l) on

-- `connect` of a link that is started and has been in Run once does not wait, whatever has happened
-- since and whatever its state is now: `_run_reached` is never cleared.
connect-stale :
    (actions : List Action) (l : Link)
    → l.run_reached ≡ true
    → (act_all actions l).is_started ≡ true
    → connect (act_all actions l) ≡ (ok returned, act_all actions l)
connect-stale actions l reached on =
    let l' = act_all actions l in
    connect-started l' on
    ∙ ap (λ w. (ok w, l'))
        (await_run-reached l' (
          act_all-keeps (λ l. l.run_reached ≡ true) (λ l m same p. same.0 ∙ p) marked-reached
            actions l reached))
  where
    marked-reached : (s : State) (l : Link) → l.run_reached ≡ true → (marked s l).run_reached ≡ true
    marked-reached run l h = refl
    marked-reached s l h = ground arith
