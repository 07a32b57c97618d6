-- ===== src/Alerts/Acknowledged.antt =====
-- `acknowledge` as a function on every record.
use gcad.Base.{
  ℕ, ◌+◌, ◌≤◌, ◌<◌, ◌^◌, ◌≡◌, refl, ap, arith, List, [], ◌∷◌, map, if◌then◌else◌, ◌==◌, Bool-cases,
  inl, inr,
}
use gcad.Alerts.{AlertRecord, acknowledge, acknowledge_first, acknowledged_record}
use gcad.Alerts.Threads.{Shared, Reaches}
use gcad.Alerts.Ids.{count, Reaches-IsNumbered}

abbrev pub mark : ℕ → AlertRecord → AlertRecord
mark id r = if r.id == id then acknowledged_record r else r

unmarked : (id : ℕ) (rs : List AlertRecord) → count id rs ≡ 0 → map (mark id) rs ≡ rs
unmarked id [] h = refl
unmarked id (r ∷ rs) h = elim (Bool-cases (r.id == id)) [
  | inl e ↦ absurd (ground (arith, e, h))
  | inr e ↦ rw e (ap (λ t. r ∷ t) (unmarked id rs (ground (arith, e, h))))
]

pub acknowledge_first_lem :
    (id : ℕ) (rs : List AlertRecord) → count id rs ≤ 1 → acknowledge_first id rs ≡ map (mark id) rs
unfolding acknowledge_first
acknowledge_first_lem id [] h = refl
acknowledge_first_lem id (r ∷ rs) h = elim (Bool-cases (r.id == id)) [
  | inl e ↦ rw (e, unmarked id rs (ground (arith, e, h))) refl
  | inr e ↦ rw e (ap (λ t. r ∷ t) (acknowledge_first_lem id rs (ground (arith, e, h))))
]

-- In every state that threads reach with fewer than 2 ^ 64 - 1 alerts, `acknowledge` acknowledges every
-- record of the history that has the id, and leaves every other, although it stops at the first.
pub acknowledge_lem :
    (n : ℕ) (s : Shared) (id : ℕ)
    → Reaches n s
    → n + 1 < 2 ^ 64
    → (acknowledge id s.manager).history ≡ map (mark id) s.manager.history
unfolding acknowledge
acknowledge_lem n s id reached h =
    acknowledge_first_lem id s.manager.history
      (omega (arith, (Reaches-IsNumbered n s reached h).distinct id))
