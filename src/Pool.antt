-- ===== src/Pool.antt =====
-- include/gcad/common.hpp, the class ThreadPool. A task is a number; what it does when it runs, and what it
-- throws, does not reach the pool. Each section under the mutex is one step; a wait on a condition variable
-- is a step that is possible where its condition holds.
pub mod Counted
pub mod Tasks
pub mod Drains
use gcad.Base.{ℕ, zero, suc, ◌+◌, ◌-◌, ◌≡◌, Bool, true, false, List, [], ◌∷◌, ◌++◌, length, ◌==◌}

pub record ThreadPool : Type 0 where
  pub tasks : List ℕ
  pub stop : Bool
  pub outstanding : ℕ
  -- where the workers are: waiting for a task, at one, or returned
  pub waiting : ℕ
  pub running : List ℕ
  pub returned : ℕ

-- The constructor with n workers.
abbrev pub init : ℕ → ThreadPool
init n = record {
  tasks = [];
  stop = false;
  outstanding = 0;
  waiting = n;
  running = [];
  returned = 0;
}

unfoldable pub enqueue : ℕ → ThreadPool → ThreadPool
enqueue task p = record p { tasks = p.tasks ++ (task ∷ []); outstanding = p.outstanding + 1 }

unfoldable pub clear_queue : ThreadPool → ThreadPool
clear_queue p = record p { tasks = []; outstanding = p.outstanding - length p.tasks }

-- `wait_idle` returns where this holds.
abbrev pub is_idle : ThreadPool → Bool
is_idle p = p.outstanding == 0

-- What a worker does on its own.
pub data WorkerStep : ThreadPool → ThreadPool → Type 0 where
  -- cv_.wait returns, and there is a task
  takes :
      {p : ThreadPool} (task : ℕ) (rest : List ℕ) (others : ℕ)
      → p.tasks ≡ task ∷ rest
      → p.waiting ≡ suc others
      → WorkerStep p (record p { tasks = rest; waiting = others; running = task ∷ p.running })
  -- the task has returned or thrown
  finishes :
      {p : ThreadPool} (before : List ℕ) (task : ℕ) (after : List ℕ)
      → p.running ≡ before ++ (task ∷ after)
      → WorkerStep p (record p {
        running = before ++ after;
        outstanding = p.outstanding - 1;
        waiting = p.waiting + 1;
      })
  -- cv_.wait returns, the pool is stopped and there is no task
  returns :
      {p : ThreadPool} (others : ℕ)
      → p.stop ≡ true
      → p.tasks ≡ []
      → p.waiting ≡ suc others
      → WorkerStep p (record p { waiting = others; returned = p.returned + 1 })

-- Nothing is enqueued once the destructor has begun.
pub data Step : ThreadPool → ThreadPool → Type 0 where
  works : {p q : ThreadPool} → WorkerStep p q → Step p q
  enqueues : {p : ThreadPool} (task : ℕ) → p.stop ≡ false → Step p (enqueue task p)
  clears : {p : ThreadPool} → Step p (clear_queue p)
  destroys : {p : ThreadPool} → Step p (record p { stop = true })

-- The states that any interleaving reaches from a pool of n workers.
pub data Reaches (n : ℕ) : ThreadPool → Type 0 where
  starts : Reaches n (init n)
  steps : {p q : ThreadPool} → Reaches n p → Step p q → Reaches n q
