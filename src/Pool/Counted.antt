-- ===== src/Pool/Counted.antt =====
-- What `outstanding_` counts.
use gcad.Base.{
  ℕ, ◌+◌, ◌≡◌, refl, ap, sym, ◌∙◌, ◌↔◌, ◌⊎◌, inl, inr, arith, true, false, [], ◌∷◌, length,
  length-append,
}
use gcad.Pool.{ThreadPool, enqueue, clear_queue, is_idle, WorkerStep, Step, Reaches}

-- The queued and the running tasks are counted, every worker is somewhere, and none has returned while a
-- task is queued.
pub record IsCounted (n : ℕ) (p : ThreadPool) : Type 0 where
  pub counted : p.outstanding ≡ length p.tasks + length p.running
  pub workers : p.waiting + length p.running + p.returned ≡ n
  pub served : (p.returned ≡ 0) ⊎ ((length p.tasks ≡ 0) × (p.stop ≡ true))

pub WorkerStep-IsCounted :
    (n : ℕ) (p q : ThreadPool) → WorkerStep p q → IsCounted n p → IsCounted n q
WorkerStep-IsCounted n p q (WorkerStep.takes task rest others e f) v = record {
  counted = omega (arith, v.counted, ap length e);
  workers = omega (arith, v.workers, f);
  served = elim v.served [ inl h ↦ inl h | inr h ↦ absurd (omega (arith, h.0, ap length e)) ];
}
WorkerStep-IsCounted n p q (WorkerStep.finishes before task after e) v = record {
  counted = omega (
    arith,
    v.counted,
    ap length e,
    length-append before (task ∷ after),
    length-append before after,
  );
  workers = omega (
    arith,
    v.workers,
    ap length e,
    length-append before (task ∷ after),
    length-append before after,
  );
  served = v.served;
}
WorkerStep-IsCounted n p q (WorkerStep.returns others s e f) v = record {
  counted = v.counted;
  workers = omega (arith, v.workers, f);
  served = inr (ap length e, s);
}

Step-IsCounted : (n : ℕ) (p q : ThreadPool) → Step p q → IsCounted n p → IsCounted n q
unfolding enqueue clear_queue
Step-IsCounted n p q (Step.works step) v = WorkerStep-IsCounted n p q step v
Step-IsCounted n p q (Step.enqueues task open_) v = record {
  counted = omega (arith, v.counted, length-append p.tasks (task ∷ []));
  workers = v.workers;
  served = elim v.served [ inl h ↦ inl h | inr h ↦ absurd (differ (sym open_ ∙ h.1)) ];
}
  where
    differ : false ≡ true → ⊥
    differ e = cc
Step-IsCounted n p q Step.clears v = record {
  counted = omega (arith, v.counted);
  workers = v.workers;
  served = elim v.served [ inl h ↦ inl h | inr h ↦ inr (refl, h.1) ];
}
Step-IsCounted n p q Step.destroys v = record {
  counted = v.counted;
  workers = v.workers;
  served = elim v.served [ inl h ↦ inl h | inr h ↦ inr (h.0, refl) ];
}

pub Reaches-IsCounted : (n : ℕ) (p : ThreadPool) → Reaches n p → IsCounted n p
Reaches-IsCounted n p Reaches.starts = record {
  counted = refl;
  workers = omega arith;
  served = inl refl;
}
Reaches-IsCounted n p (Reaches.steps {p = q} reached step) =
    Step-IsCounted n q p step (Reaches-IsCounted n q reached)

-- In every state that an interleaving reaches, `wait_idle` may return exactly where no task is queued and
-- none is running.
pub is_idle_iff :
    (n : ℕ) (p : ThreadPool)
    → Reaches n p
    → (is_idle p ≡ true) ↔ ((length p.tasks ≡ 0) × (length p.running ≡ 0))
is_idle_iff n p reached = (
  λ h. (ground (arith, h, v.counted), ground (arith, h, v.counted)),
  λ h. ground (arith, h.0, h.1, v.counted),
)
  where
    v : IsCounted n p
    v = Reaches-IsCounted n p reached
