-- ===== src/Tests/Pools.antt =====
-- A pool of one worker, two tasks, one of them taken.
use gcad.Base.{◌+◌, ◌≤◌, ◌≡◌, ◌↔◌, ◌⊎◌, refl, true, [], ◌∷◌, ◌++◌, arith, length}
use gcad.Pool.{ThreadPool, init, enqueue, is_idle, WorkerStep, Step, Reaches}
use gcad.Pool.Counted.{is_idle_iff}
use gcad.Pool.Tasks.{enqueued_of, left_of, tasks_fifo}
use gcad.Pool.Drains.{Works, work_left, drains}

abbrev two_enqueued : ThreadPool
two_enqueued = enqueue 8 (enqueue 7 (init 1))

enqueued : Reaches 1 two_enqueued
unfolding enqueue
enqueued =
    Reaches.steps (Reaches.steps Reaches.starts (Step.enqueues 7 refl)) (Step.enqueues 8 refl)

abbrev one_taken : ThreadPool
one_taken = record two_enqueued { tasks = 8 ∷ []; waiting = 0; running = 7 ∷ [] }

taking : WorkerStep two_enqueued one_taken
unfolding enqueue
taking = WorkerStep.takes 7 (8 ∷ []) 0 refl refl

abbrev taken : Reaches 1 one_taken
taken = Reaches.steps enqueued (Step.works taking)

is_idle_iff_example :
    (is_idle one_taken ≡ true) ↔ ((length one_taken.tasks ≡ 0) × (length one_taken.running ≡ 0))
is_idle_iff_example = is_idle_iff 1 one_taken taken

tasks_fifo_example : enqueued_of taken ≡ left_of taken ++ one_taken.tasks
tasks_fifo_example = tasks_fifo 1 one_taken taken

drains_example :
    (1 + work_left one_taken ≤ work_left two_enqueued)
    × ((is_idle one_taken ≡ true) ⊎ ((r : ThreadPool) × WorkerStep one_taken r))
drains_example =
    drains 1 two_enqueued 1 one_taken (omega arith) enqueued (Works.then taking Works.rests)
