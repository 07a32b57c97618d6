-- ===== src/Pool/Drains.antt =====
-- The workers alone finish what is enqueued.
use gcad.Base.{
  ℕ, zero, suc, ◌+◌, ◌*◌, ◌≤◌, ◌<◌, ◌≡◌, refl, ap, arith, true, false, List, [], ◌∷◌, length,
  length-append, ◌⊎◌, Bool-cases, inl, inr,
}
use gcad.Pool.{ThreadPool, is_idle, WorkerStep, Reaches}
use gcad.Pool.Counted.{IsCounted, WorkerStep-IsCounted, Reaches-IsCounted}

-- Steps of workers, counted.
pub data Works : ℕ → ThreadPool → ThreadPool → Type 0 where
  rests : {p : ThreadPool} → Works 0 p p
  then : {k : ℕ} {p q r : ThreadPool} → WorkerStep p q → Works k q r → Works (suc k) p r

-- Taking and finishing each task, and returning.
abbrev pub work_left : ThreadPool → ℕ
work_left p = 3 * length p.tasks + 2 * length p.running + p.waiting

WorkerStep-less : (p q : ThreadPool) → WorkerStep p q → suc (work_left q) ≤ work_left p
WorkerStep-less p q (WorkerStep.takes task rest others e f) = omega (arith, ap length e, f)
WorkerStep-less p q (WorkerStep.finishes before task after e) =
    omega (arith, ap length e, length-append before (task ∷ after), length-append before after)
WorkerStep-less p q (WorkerStep.returns others s e f) = omega (arith, f)

Works-IsCounted : (n k : ℕ) (p q : ThreadPool) → Works k p q → IsCounted n p → IsCounted n q
Works-IsCounted n k p q Works.rests v = v
Works-IsCounted n k p q (Works.then {q = r} step rest) v =
    Works-IsCounted n _ r q rest (WorkerStep-IsCounted n p r step v)

Works-bounded : (k : ℕ) (p q : ThreadPool) → Works k p q → k + work_left q ≤ work_left p
Works-bounded k p q Works.rests = omega arith
Works-bounded k p q (Works.then {k = m} {q = r} step rest) =
    omega (arith, WorkerStep-less p r step, Works-bounded m r q rest)

-- Where a task is left and there are workers, one of them has a step.
next_step :
    (n : ℕ) (p : ThreadPool)
    → 0 < n
    → IsCounted n p
    → is_idle p ≡ false
    → (q : ThreadPool) × WorkerStep p q
next_step n p h v busy = of_running p.running refl
  where
    of_waiting :
        (w : ℕ) (task : ℕ) (rest : List ℕ)
        → p.waiting ≡ w
        → p.tasks ≡ task ∷ rest
        → 0 < w
        → (q : ThreadPool) × WorkerStep p q
    of_waiting zero task rest e f some_worker = absurd (omega (arith, some_worker))
    of_waiting (suc others) task rest e f some_worker = (_, WorkerStep.takes task rest others f e)

    of_tasks :
        (ts : List ℕ) → p.tasks ≡ ts → length p.running ≡ 0 → (q : ThreadPool) × WorkerStep p q
    of_tasks [] e none_runs = absurd (ground (arith, busy, v.counted, ap length e, none_runs))
    of_tasks (task ∷ rest) e none_runs =
        of_waiting p.waiting task rest refl e
          (omega (arith, h, v.workers, none_runs, none_returned (ap length e)))
      where
        none_returned : length p.tasks ≡ suc (length rest) → p.returned ≡ 0
        none_returned f = elim v.served [ inl r ↦ r | inr r ↦ absurd (omega (arith, r.0, f)) ]

    of_running : (rs : List ℕ) → p.running ≡ rs → (q : ThreadPool) × WorkerStep p q
    of_running [] e = of_tasks p.tasks refl (ap length e)
    of_running (task ∷ rest) e = (_, WorkerStep.finishes [] task rest e)

-- From every state that an interleaving reaches in a pool with workers, the workers alone take at most
-- three steps for each queued task, two for each running one and one for each waiting worker; and as long
-- as `wait_idle` may not return, one of them has a next step. So it returns, whichever worker moves when.
pub drains :
    (n : ℕ) (p : ThreadPool) (k : ℕ) (q : ThreadPool)
    → 0 < n
    → Reaches n p
    → Works k p q
    → (k + work_left q ≤ work_left p) × ((is_idle q ≡ true) ⊎ ((r : ThreadPool) × WorkerStep q r))
drains n p k q h reached run = (
  Works-bounded k p q run,
  elim (Bool-cases (is_idle q)) [
    | inl e ↦ inl e
    | inr e ↦ inr (next_step n q h (Works-IsCounted n k p q run (Reaches-IsCounted n p reached)) e)
  ],
)
