-- ===== src/Alerts/Ids.antt =====
-- The ids in the history and with the threads.
use gcad.Base.{
  ℕ, zero, suc, ◌+◌, ◌-◌, ◌^◌, ◌≤◌, ◌<◌, ◌≡◌, refl, ap, subst, arith, List, [], ◌∷◌, ◌++◌, map,
  if◌then◌else◌, ◌==◌, length, drop, length-drop, if_cases, Bool-cases, inl, inr,
}
use gcad.Common.{ThreatEvent}
use gcad.Alerts.{
  AlertManager, AlertRecord, make_record, fetch_id, append, trim, max_history, acknowledge,
  acknowledge_first, acknowledge_all, acknowledged_record, clear, set_min_level, set_sound_enabled,
  set_toast_enabled, set_notification_callback,
}
use gcad.Alerts.Threads.{Shared, with_manager, Step, Reaches}

-- How many records have the id.
abbrev pub count : ℕ → List AlertRecord → ℕ
count i [] = 0
count i (r ∷ rs) = (if r.id == i then 1 else 0) + count i rs

pub count-append : (i : ℕ) (xs ys : List AlertRecord) → count i (xs ++ ys) ≡ count i xs + count i ys
count-append i [] ys = omega arith
count-append i (x ∷ xs) ys = omega (arith, count-append i xs ys)

count-drop : (i n : ℕ) (xs : List AlertRecord) → count i (drop n xs) ≤ count i xs
count-drop i zero xs = omega arith
count-drop i (suc n) [] = omega arith
count-drop i (suc n) (x ∷ xs) = omega (arith, count-drop i n xs)

count-acknowledge_first :
    (i id : ℕ) (xs : List AlertRecord) → count i (acknowledge_first id xs) ≡ count i xs
unfolding acknowledge_first
count-acknowledge_first i id [] = refl
count-acknowledge_first i id (x ∷ xs) =
    if_cases (λ ys. count i ys ≡ count i (x ∷ xs)) (x.id == id) (λ _. refl)
      (λ _. omega (arith, count-acknowledge_first i id xs))

count-acknowledged :
    (i : ℕ) (xs : List AlertRecord) → count i (map acknowledged_record xs) ≡ count i xs
count-acknowledged i [] = refl
count-acknowledged i (x ∷ xs) = omega (arith, count-acknowledged i xs)

length-acknowledge_first :
    (id : ℕ) (xs : List AlertRecord) → length (acknowledge_first id xs) ≡ length xs
unfolding acknowledge_first
length-acknowledge_first id [] = refl
length-acknowledge_first id (x ∷ xs) =
    if_cases (λ ys. length ys ≡ length (x ∷ xs)) (x.id == id) {x = acknowledged_record x ∷ xs}
      {y = x ∷ acknowledge_first id xs} (λ _. refl)
      (λ _. omega (arith, length-acknowledge_first id xs))

length-acknowledged : (xs : List AlertRecord) → length (map acknowledged_record xs) ≡ length xs
length-acknowledged [] = refl
length-acknowledged (x ∷ xs) = omega (arith, length-acknowledged xs)

-- After `n` ids: the history is bounded, an id that is not given out is nowhere, and no id is on two
-- records, be they in the history or still with a thread.
pub record IsNumbered (n : ℕ) (s : Shared) : Type 0 where
  pub numbered : s.manager.next_id ≡ n + 1
  pub bounded : length s.manager.history ≤ max_history
  pub fresh : (i : ℕ) → s.manager.next_id ≤ i → count i s.pending + count i s.manager.history ≡ 0
  pub distinct : (i : ℕ) → count i s.pending + count i s.manager.history ≤ 1

-- A step that leaves the pending records, the ids in the history and the next id.
same_ids :
    (n : ℕ) (s : Shared) (m : AlertManager)
    → m.next_id ≡ s.manager.next_id
    → length m.history ≤ max_history
    → ((i : ℕ) → count i m.history ≤ count i s.manager.history)
    → IsNumbered n s
    → IsNumbered n (with_manager s m)
same_ids n s m e short fewer v = record {
  numbered = omega (arith, e, v.numbered);
  bounded = short;
  fresh = λ i h. omega (arith, e, fewer i, v.fresh i (omega (arith, e, h)));
  distinct = λ i. omega (arith, fewer i, v.distinct i);
}

-- Where an id is taken.
taken :
    (n : ℕ) (s : Shared) (now : ℕ) (ev : ThreatEvent)
    → n + 2 < 2 ^ 64
    → IsNumbered n s
    → IsNumbered (n + 1) (record {
      manager = (fetch_id s.manager).1;
      pending = make_record (fetch_id s.manager).0 now ev ∷ s.pending;
    })
taken n s now ev h v = record {
  numbered = omega (arith, v.numbered, h);
  bounded = v.bounded;
  fresh = λ i k. ground (arith, v.numbered, h, k, v.fresh i);
  distinct = λ i. elim (Bool-cases (s.manager.next_id == i)) [
    | inl e ↦ rw e (omega (arith, v.fresh i (ground (arith, e))))
    | inr e ↦ rw e (omega (arith, v.distinct i))
  ];
}

-- Where a record is appended.
appended :
    (n : ℕ) (s : Shared) (before : List AlertRecord) (rec : AlertRecord) (after : List AlertRecord)
    → s.pending ≡ before ++ (rec ∷ after)
    → IsNumbered n s
    → IsNumbered n (record { manager = append rec s.manager; pending = before ++ after })
unfolding append trim
appended n s before rec after e v = record {
  numbered = v.numbered;
  bounded = omega (
    arith,
    length-drop (length (s.manager.history ++ (rec ∷ [])) - max_history)
        (s.manager.history ++ (rec ∷ [])),
  );
  fresh = λ i h. omega (arith, fewer i, v.fresh i h);
  distinct = λ i. omega (arith, fewer i, v.distinct i);
}
  where
    fewer :
        (i : ℕ)
        → count i (before ++ after) + count i (trim (s.manager.history ++ (rec ∷ [])))
          ≤ count i s.pending + count i s.manager.history
    fewer i = omega (
      arith,
      ap (count i) e,
      count-append i before (rec ∷ after),
      count-append i before after,
      count-append i s.manager.history (rec ∷ []),
      count-drop i (length (s.manager.history ++ (rec ∷ [])) - max_history)
          (s.manager.history ++ (rec ∷ [])),
    )

still : (n : ℕ) (s : Shared) → IsNumbered n s → IsNumbered (n + 0) s
still n s v = subst (λ m. IsNumbered m s) (omega arith) v

Step-IsNumbered :
    (n k : ℕ) (s t : Shared)
    → Step k s t
    → n + k + 1 < 2 ^ 64
    → IsNumbered n s
    → IsNumbered (n + k) t
unfolding acknowledge acknowledge_all clear set_min_level set_sound_enabled set_toast_enabled
    set_notification_callback
Step-IsNumbered n k s t (Step.takes now ev _) h v = taken n s now ev (omega (arith, h)) v
Step-IsNumbered n k s t (Step.appends before rec after e) h v =
    still n _ (appended n s before rec after e v)
Step-IsNumbered n k s t (Step.acknowledges id) h v = still n _ (
    same_ids n s _ refl (omega (arith, length-acknowledge_first id s.manager.history, v.bounded))
      (λ i. omega (arith, count-acknowledge_first i id s.manager.history)) v)
Step-IsNumbered n k s t Step.acknowledges_all h v = still n _ (
    same_ids n s _ refl (omega (arith, length-acknowledged s.manager.history, v.bounded))
      (λ i. omega (arith, count-acknowledged i s.manager.history)) v)
Step-IsNumbered n k s t Step.clears h v =
    still n _ (same_ids n s _ refl (omega arith) (λ i. omega arith) v)
Step-IsNumbered n k s t (Step.sets_level level) h v =
    still n _ (same_ids n s _ refl v.bounded (λ i. omega arith) v)
Step-IsNumbered n k s t (Step.sets_sound on) h v =
    still n _ (same_ids n s _ refl v.bounded (λ i. omega arith) v)
Step-IsNumbered n k s t (Step.sets_toast on) h v =
    still n _ (same_ids n s _ refl v.bounded (λ i. omega arith) v)
Step-IsNumbered n k s t (Step.sets_callback callable) h v =
    still n _ (same_ids n s _ refl v.bounded (λ i. omega arith) v)

-- Under every interleaving of threads, and with fewer than 2 ^ 64 - 1 alerts, the history has at most 500
-- records, and no id is on two records, be they in the history or with a thread that has not appended
-- its record yet.
pub Reaches-IsNumbered : (n : ℕ) (s : Shared) → Reaches n s → n + 1 < 2 ^ 64 → IsNumbered n s
Reaches-IsNumbered n s Reaches.starts h = record {
  numbered = refl;
  bounded = omega arith;
  fresh = λ i k. omega arith;
  distinct = λ i. omega arith;
}
Reaches-IsNumbered n s (Reaches.steps {n = m} {k = k} {s = r} reached step) h =
    Step-IsNumbered m k r s step (omega (arith, h))
      (Reaches-IsNumbered m r reached (omega (arith, h)))
