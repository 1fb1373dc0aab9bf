-- ===== src/Dashboard/Page/Poll.antt =====
-- The polling loop of dashboard/src/routes/Executions.svelte.
use codehive.Routes.WorkerApi.{has_ended}
use codehive.Types.{timeout, failed, completed, running, queued, Status}
use mathlib.Core.Path.{subst}
use codehive.Prelude.{
  ◌∙◌, sym, inr, ap, inl, none, true, Bool-cases, some, ◌<◌, Option, refl, zero, suc, arith, false,
  ◌+◌, ◌≡◌, ◌≤◌, String, ℕ,
}
use codehive.Prelude.Exec.{throw, ok, Result}
use codehive.Dashboard.Page.{poll_from, poll, is_over, after_round}
use codehive.Dashboard.Stores.{Execution}

-- the loop stops at the statuses that the server takes for the end of a job
is_over-has_ended : (s : Status) → is_over s ≡ has_ended s
is_over-has_ended queued = refl
is_over-has_ended running = refl
is_over-has_ended completed = refl
is_over-has_ended failed = refl
is_over-has_ended timeout = refl

-- what the loop has when it stops: at most a request for each round, and an execution that has ended and
-- was the last answer
abbrev pub IsStop : (ℕ → Result String Execution) → ℕ → Option Execution × ℕ → Type 0
IsStop answer bound (none, n) = n ≤ bound
IsStop answer bound (some exec, n) =
    (n ≤ bound) × ((i : ℕ) × (n ≡ suc i) × (answer i ≡ ok exec) × (has_ended exec.status ≡ true))

after_round-IsStop :
    (answer : ℕ → Result String Execution) (bound i : ℕ) (a : Result String Execution)
    (rest : Option Execution × ℕ)
    → answer i ≡ a
    → suc i ≤ bound
    → IsStop answer bound rest
    → IsStop answer bound (after_round a i rest)
after_round-IsStop answer bound i (throw e) rest q l h = l
after_round-IsStop answer bound i (ok exec) rest q l h = elim (Bool-cases (is_over exec.status)) [
  | inl over ↦ rw over (l, (i, refl, q, sym (is_over-has_ended exec.status) ∙ over))
  | inr goes ↦ rw goes h
]

poll_from-IsStop :
    (rounds : ℕ) (answer : ℕ → Result String Execution) (i bound : ℕ)
    → i + rounds ≡ bound
    → IsStop answer bound (poll_from rounds answer i)
unfolding poll_from
poll_from-IsStop zero answer i bound e = omega (arith, e)
poll_from-IsStop (suc rounds) answer i bound e =
    after_round-IsStop answer bound i (answer i) (poll_from rounds answer (suc i)) refl
      (omega (arith, e)) (poll_from-IsStop rounds answer (suc i) bound (omega (arith, e)))

-- The loop ends after at most 60 requests; an execution that it found has the status `completed`, `failed`
-- or `timeout`, and was the answer to the last request.
pub poll-IsStop : (answer : ℕ → Result String Execution) → IsStop answer 60 (poll answer)
unfolding poll
poll-IsStop answer = poll_from-IsStop 60 answer 0 60 refl

-- an execution that the loop has found with at most so many requests
pub record Finds (Q : Execution → Type 0) (bound : ℕ) (found : Option Execution × ℕ) : Type 0 where
  pub exec : Execution
  pub count : ℕ
  pub found_is : found ≡ (some exec, count)
  pub in_time : count ≤ bound
  pub fits : Q exec
  pub over : has_ended exec.status ≡ true

-- one round, on an answer that is an execution
after_round-Finds :
    (Q : Execution → Type 0) (bound i : ℕ) (a : Result String Execution) (exec : Execution)
    (rest : Option Execution × ℕ)
    → a ≡ ok exec
    → Q exec
    → suc i ≤ bound
    → (is_over exec.status ≡ false → Finds Q bound rest)
    → Finds Q bound (after_round a i rest)
after_round-Finds Q bound i a exec rest e q l go = elim (Bool-cases (is_over exec.status)) [
  | inl over ↦ record {
    exec = exec;
    count = suc i;
    found_is = rw (e, over) refl;
    in_time = l;
    fits = q;
    over = sym (is_over-has_ended exec.status) ∙ over;
  }
  | inr goes ↦ rw (e, goes) (go goes)
]

-- Where the answers to the requests up to k are executions that fit, and the last of them has ended, the
-- loop finds an execution that fits and has ended.
pub poll_from-Finds :
    (Q : Execution → Type 0) (k rounds : ℕ) (answer : ℕ → Result String Execution) (i bound : ℕ)
    → k < rounds
    → suc (i + k) ≤ bound
    → ((j : ℕ) → j ≤ k → (exec : Execution) × (answer (i + j) ≡ ok exec) × Q exec)
    → (last : Execution) → answer (i + k) ≡ ok last
    → has_ended last.status ≡ true
    → Finds Q bound (poll_from rounds answer i)
unfolding poll_from
poll_from-Finds Q k zero answer i bound l m fit last e over = absurd (omega (arith, l))
poll_from-Finds Q zero (suc rounds) answer i bound l m fit last e over =
    let (exec, at_i, q) = fit 0 (omega arith) in
    let same : i + 0 ≡ i = omega arith in
    let is_last : exec ≡ last = cc (at_i, e) in
    let stops : is_over exec.status ≡ true =
      is_over-has_ended exec.status ∙ ap (λ (x : Execution). has_ended x.status) is_last ∙ over in
    after_round-Finds Q bound i (answer i) exec (poll_from rounds answer (suc i))
      (ap answer (sym same) ∙ at_i) q (omega (arith, m)) (λ goes. absurd (cc (stops, goes)))
poll_from-Finds Q (suc k) (suc rounds) answer i bound l m fit last e over =
    let (exec, at_i, q) = fit 0 (omega arith) in
    let same_i : i + 0 ≡ i = omega arith in
    let same : suc i + k ≡ i + suc k = omega arith in
    after_round-Finds Q bound i (answer i) exec (poll_from rounds answer (suc i))
      (ap answer (sym same_i) ∙ at_i) q (omega (arith, m))
      (λ goes.
        poll_from-Finds Q k rounds answer (suc i) bound (omega (arith, l)) (omega (arith, m))
          (λ j n.
            let shift : i + suc j ≡ suc i + j = omega arith in
            subst (λ x. (exec : Execution) × (answer x ≡ ok exec) × Q exec) shift
              (fit (suc j) (omega (arith, n))))
          last (ap answer same ∙ e) over)

pub poll-Finds :
    (Q : Execution → Type 0) (k : ℕ) (answer : ℕ → Result String Execution)
    → k < 60
    → ((j : ℕ) → j ≤ k → (exec : Execution) × (answer j ≡ ok exec) × Q exec)
    → (last : Execution) → answer k ≡ ok last
    → has_ended last.status ≡ true
    → Finds Q (suc k) (poll answer)
unfolding poll
poll-Finds Q k answer l fit last e over =
    poll_from-Finds Q k 60 answer 0 (suc k) l (omega arith)
      (λ j m.
        subst (λ x. (exec : Execution) × (answer x ≡ ok exec) × Q exec) (sym (from_zero j))
          (fit j m))
      last (ap answer (from_zero k) ∙ e) over
  where
    from_zero : (n : ℕ) → 0 + n ≡ n
    from_zero n = omega arith
