-- ===== src/Pool/Tasks.antt =====
-- The queue keeps the order, and loses no task.
use gcad.Base.{ℕ, ◌≡◌, refl, sym, ap, ◌∙◌, List, [], ◌∷◌, ◌++◌}
use gcad.Pool.{ThreadPool, enqueue, clear_queue, WorkerStep, Step, Reaches}
use mathlib.Core.List.{append_assoc, append-nil}

-- The tasks that a step puts into the queue.
abbrev entered : {p q : ThreadPool} → Step p q → List ℕ
entered (Step.enqueues task open_) = task ∷ []
entered _ = []

-- The tasks that a step takes out of it: to a worker, or dropped.
abbrev left : {p q : ThreadPool} → Step p q → List ℕ
left (Step.works (WorkerStep.takes task rest others e f)) = task ∷ []
left (Step.clears {p = p}) = p.tasks
left _ = []

abbrev pub enqueued_of : {n : ℕ} {p : ThreadPool} → Reaches n p → List ℕ
enqueued_of Reaches.starts = []
enqueued_of (Reaches.steps reached step) = enqueued_of reached ++ entered step

abbrev pub left_of : {n : ℕ} {p : ThreadPool} → Reaches n p → List ℕ
left_of Reaches.starts = []
left_of (Reaches.steps reached step) = left_of reached ++ left step

entered-left : (p q : ThreadPool) (step : Step p q) → p.tasks ++ entered step ≡ left step ++ q.tasks
unfolding enqueue clear_queue
entered-left p q (Step.works (WorkerStep.takes task rest others e f)) = append-nil p.tasks ∙ e
entered-left p q (Step.works (WorkerStep.finishes before task after e)) = append-nil p.tasks
entered-left p q (Step.works (WorkerStep.returns others s e f)) = append-nil p.tasks
entered-left p q (Step.enqueues task open_) = refl
entered-left p q Step.clears = refl
entered-left p q Step.destroys = append-nil p.tasks

-- Under every interleaving the tasks that were enqueued are, in their order, those that left the queue,
-- for a worker or dropped by `clear_queue`, followed by those that are in it.
pub tasks_fifo : (n : ℕ) (p : ThreadPool) (r : Reaches n p) → enqueued_of r ≡ left_of r ++ p.tasks
tasks_fifo n p Reaches.starts = refl
tasks_fifo n p (Reaches.steps {p = q} reached step) =
    ap (λ xs. xs ++ entered step) (tasks_fifo n q reached)
    ∙ append_assoc (left_of reached) q.tasks (entered step)
    ∙ ap (λ xs. left_of reached ++ xs) (entered-left q p step)
    ∙ sym (append_assoc (left_of reached) (left step) p.tasks)
