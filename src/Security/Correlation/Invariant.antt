-- ===== src/Security/Correlation/Invariant.antt =====
-- What every call of `ingest` and `expire` keeps true of the engine.
use gcad.Base.{
  ℕ, suc, ◌+◌, ◌-◌, ◌≤◌, ◌≡◌, refl, ap, inl, inr, Bool-cases, List, [], ◌∷◌, ◌++◌, true, Option,
  none, some, arith, length, length-append, ltb, drop,
}
use gcad.Base.Bytes.{Bytes, eqb}
use gcad.Base.Dict.{lookup, put, length-put-some, length-put_le}
use gcad.Common.{rank, ThreatLevel}
use gcad.Security.Observation.{Doubles, IsIeee, SecurityObservation, valid, correlation_key}
use gcad.Security.Policy.{SecurityFinding, LocalSecurityPolicy}
use gcad.Security.Correlation.{
  CorrelationEngine, ActiveState, SourceState, no_state, init, observe, report, reported, correlate,
  ingest, expire, finding_of, push_bounded, level_for, keys, sort, insert_sorted, max_active_keys,
  max_findings, evict_oldest, has_not_grown, is_duplicate,
}
use gcad.Security.Correlation.Score.{AllScaled, points, score_for-le, one_source_score}
use gcad.Security.Correlation.Table.{
  AllStates, AllStates-put, AllStates-drop_stale, AllStates-evict, AllStates-lookup,
  length-drop_stale, length-evict,
}

-- The level last reported is that of the score last reported, and every source is within scale.
abbrev pub IsStateSound : Doubles → ActiveState → Type 0
IsStateSound fp s =
    (s.last_reported_level ≡ level_for s.last_reported_score) × AllScaled fp s.sources

-- A finding's level is that of its score, which is at most 100; a high or critical one has two
-- sources.
pub record IsGraded (f : SecurityFinding) : Type 0 where
  pub graded : f.level ≡ level_for f.risk_score
  pub bounded : f.risk_score ≤ 100
  pub corroborated : f.level ≡ ThreatLevel.critical → 2 ≤ length f.contributing_sources
  pub high_corroborated : 3 ≤ rank f.level → 2 ≤ length f.contributing_sources

-- The ids rise strictly from `lo` and stay below `hi`.
abbrev pub IdsBetween : ℕ → ℕ → List SecurityFinding → Type 0
IdsBetween lo hi [] = lo ≤ hi
IdsBetween lo hi (f ∷ fs) = (lo ≤ f.id) × IdsBetween (suc f.id) hi fs

abbrev pub AllGraded : List SecurityFinding → Type 0
AllGraded [] = Unit
AllGraded (f ∷ fs) = IsGraded f × AllGraded fs

pub record IsSound (fp : Doubles) (e : CorrelationEngine) : Type 0 where
  pub few_keys : length e.active ≤ max_active_keys
  pub few_findings : length e.findings ≤ max_findings
  pub states : AllStates (IsStateSound fp) e.active
  pub ids : IdsBetween 0 e.next_finding_id e.findings
  pub graded : AllGraded e.findings

length-insert_sorted : (x : Bytes) (xs : List Bytes) → length (insert_sorted x xs) ≡ suc (length xs)
unfolding insert_sorted
length-insert_sorted x [] = refl
length-insert_sorted x (y ∷ ys) = ground (arith, length-insert_sorted x ys)

length-sort : (xs : List Bytes) → length (sort xs) ≡ length xs
unfolding sort
length-sort [] = refl
length-sort (x ∷ xs) = omega (arith, length-insert_sorted x (sort xs), length-sort xs)

length-keys : (m : List (Bytes × SourceState)) → length (keys m) ≡ length m
unfolding keys
length-keys [] = refl
length-keys ((k, s) ∷ m) = ap suc (length-keys m)

pub finding_of-IsGraded :
    (fp : Doubles) (id : ℕ) (key : Bytes) (now : ℕ) (s : ActiveState)
    → AllScaled fp s.sources
    → IsGraded (finding_of fp id key now s)
unfolding finding_of level_for
finding_of-IsGraded fp id key now s h = record {
  graded = refl;
  bounded = score_for-le fp s;
  corroborated = λ c.
      ground (arith, length-sort (keys s.sources), length-keys s.sources, one_source_score fp s h);
  high_corroborated = λ c.
      ground (arith, length-sort (keys s.sources), length-keys s.sources, one_source_score fp s h);
}

IdsBetween-push :
    (lo hi : ℕ) (fs : List SecurityFinding) (f : SecurityFinding)
    → f.id ≡ hi
    → IdsBetween lo hi fs
    → IdsBetween lo (hi + 1) (fs ++ (f ∷ []))
IdsBetween-push lo hi [] f e h = omega arith
IdsBetween-push lo hi (g ∷ fs) f e h = (h.0, IdsBetween-push (suc g.id) hi fs f e h.1)

IdsBetween-drop_one :
    (hi : ℕ) (fs : List SecurityFinding) → IdsBetween 0 hi fs → IdsBetween 0 hi (drop 1 fs)
IdsBetween-drop_one hi [] h = h
IdsBetween-drop_one hi (f ∷ []) h = omega arith
IdsBetween-drop_one hi (f ∷ (g ∷ fs)) h = (omega arith, h.1.1)

AllGraded-push :
    (fs : List SecurityFinding) (f : SecurityFinding)
    → AllGraded fs
    → IsGraded f
    → AllGraded (fs ++ (f ∷ []))
AllGraded-push [] f h g = (g, tt)
AllGraded-push (x ∷ fs) f h g = (h.0, AllGraded-push fs f h.1 g)

AllGraded-drop_one : (fs : List SecurityFinding) → AllGraded fs → AllGraded (drop 1 fs)
AllGraded-drop_one [] h = h
AllGraded-drop_one (f ∷ fs) h = h.1

module _ {ℓ} {A : Type ℓ} where
  length-drop_one : (xs : List A) → length (drop 1 xs) ≡ length xs - 1
  length-drop_one [] = omega arith
  length-drop_one (x ∷ xs) = omega arith

  pub length-push_bounded :
      (bound : ℕ) (x : A) (xs : List A)
      → length xs ≤ bound
      → length (push_bounded bound x xs) ≤ bound
  unfolding push_bounded
  length-push_bounded bound x xs h =
      ground (arith, length-append xs (x ∷ []), length-drop_one (xs ++ (x ∷ [])))

IdsBetween-push_bounded :
    (bound hi : ℕ) (fs : List SecurityFinding) (f : SecurityFinding)
    → f.id ≡ hi
    → IdsBetween 0 hi fs
    → IdsBetween 0 (hi + 1) (push_bounded bound f fs)
unfolding push_bounded
IdsBetween-push_bounded bound hi fs f e h =
    let pushed = IdsBetween-push 0 hi fs f e h in
    elim (Bool-cases (ltb bound (length (fs ++ (f ∷ []))))) [
      | inl c ↦ rw c (IdsBetween-drop_one (hi + 1) _ pushed)
      | inr c ↦ rw c pushed
    ]

AllGraded-push_bounded :
    (bound : ℕ) (fs : List SecurityFinding) (f : SecurityFinding)
    → AllGraded fs
    → IsGraded f
    → AllGraded (push_bounded bound f fs)
unfolding push_bounded
AllGraded-push_bounded bound fs f h g =
    let pushed = AllGraded-push fs f h g in
    elim (Bool-cases (ltb bound (length (fs ++ (f ∷ []))))) [
      | inl c ↦ rw c (AllGraded-drop_one _ pushed)
      | inr c ↦ rw c pushed
    ]

reported-IsStateSound :
    (fp : Doubles) (s : ActiveState) → IsStateSound fp s → IsStateSound fp (reported fp s)
unfolding reported
reported-IsStateSound fp s h = (refl, h.1)

AllScaled-put :
    (fp : Doubles) (k : Bytes) (s : SourceState) (m : List (Bytes × SourceState))
    → points fp s ≤ 50
    → AllScaled fp m
    → AllScaled fp (put k s m)
unfolding put
AllScaled-put fp k s [] h a = (h, tt)
AllScaled-put fp k s ((j, t) ∷ m) h a = elim (Bool-cases (eqb j k)) [
  | inl e ↦ rw e (h, a.1)
  | inr e ↦ rw e (a.0, AllScaled-put fp k s m h a.1)
]

pub observe-IsStateSound :
    (fp : Doubles) (o : SecurityObservation) (now : ℕ) (s : ActiveState)
    → IsIeee fp
    → valid fp o ≡ true
    → IsStateSound fp s
    → IsStateSound fp (observe o now s)
unfolding observe valid
observe-IsStateSound fp o now s law v h = (
  h.0,
  AllScaled-put fp o.source_id _ s.sources
      (law.lround-mul-le o.confidence (ground arith) (ground arith) (ground arith)) h.1,
)

-- `report` on a sound state, where the table has room for its key.
report-IsSound :
    (fp : Doubles) (now : ℕ) (key : Bytes) (s : ActiveState) (e : CorrelationEngine)
    → IsStateSound fp s
    → ((t : ActiveState) → length (put key t e.active) ≤ max_active_keys)
    → IsSound fp e
    → IsSound fp (report fp now key s e).1
unfolding report
report-IsSound fp now key s e h room v = elim (Bool-cases (has_not_grown fp s)) [
  | inl c ↦ rw c (record {
    few_keys = room s;
    few_findings = v.few_findings;
    states = AllStates-put (IsStateSound fp) key s e.active h v.states;
    ids = v.ids;
    graded = v.graded;
  })
  | inr c ↦ rw c (record {
    few_keys = room (reported fp s);
    few_findings = length-push_bounded max_findings _ e.findings v.few_findings;
    states =
        AllStates-put (IsStateSound fp) key (reported fp s) e.active (reported-IsStateSound fp s h)
          v.states;
    ids =
        IdsBetween-push_bounded max_findings e.next_finding_id e.findings
          (finding_of fp e.next_finding_id key now s) finding_of-id v.ids;
    graded =
        AllGraded-push_bounded max_findings e.findings _ v.graded
          (finding_of-IsGraded fp e.next_finding_id key now s h.1);
  })
]
  where
    finding_of-id : (finding_of fp e.next_finding_id key now s).id ≡ e.next_finding_id
    finding_of-id = unfold finding_of in refl

correlate-next-le :
    (fp : Doubles) (o : SecurityObservation) (now : ℕ) (key : Bytes) (r : Option ActiveState)
    (e : CorrelationEngine)
    → e.next_finding_id ≤ (correlate fp o now key r e).1.next_finding_id
unfolding correlate report
correlate-next-le fp o now key none e = ground arith
correlate-next-le fp o now key (some s) e = ground arith

expire-next : (now : ℕ) (e : CorrelationEngine) → (expire now e).next_finding_id ≡ e.next_finding_id
unfolding expire
expire-next now e = refl

-- The table has room for a key that it holds, and for any key after eviction.
correlate-IsSound :
    (fp : Doubles) (o : SecurityObservation) (now : ℕ) (key : Bytes) (r : Option ActiveState)
    (e : CorrelationEngine)
    → IsIeee fp
    → valid fp o ≡ true
    → lookup key e.active ≡ r
    → IsSound fp e
    → IsSound fp (correlate fp o now key r e).1
unfolding correlate
correlate-IsSound fp o now key none e law ok l v =
    report-IsSound fp now key (observe o now no_state) (record e { active = evict_oldest e.active })
      (observe-IsStateSound fp o now no_state law ok (unfold level_for in refl, tt))
      (λ t.
        omega
          (arith, length-put_le key t (evict_oldest e.active), length-evict e.active v.few_keys))
      (record {
        few_keys = omega (arith, length-evict e.active v.few_keys);
        few_findings = v.few_findings;
        states = AllStates-evict (IsStateSound fp) e.active v.states;
        ids = v.ids;
        graded = v.graded;
      })
correlate-IsSound fp o now key (some s) e law ok l v =
    elim (Bool-cases (is_duplicate now (lookup o.source_id s.sources))) [
      | inl d ↦ rw d v
      | inr d ↦ rw d (
          report-IsSound fp now key (observe o now s) e
            (observe-IsStateSound fp o now s law ok
              (AllStates-lookup (IsStateSound fp) key e.active v.states l))
            (λ t. omega (arith, length-put-some key t s e.active l, v.few_keys)) v)
    ]

pub expire-IsSound :
    (fp : Doubles) (now : ℕ) (e : CorrelationEngine) → IsSound fp e → IsSound fp (expire now e)
unfolding expire
expire-IsSound fp now e v = record {
  few_keys = omega (arith, length-drop_stale e.policy.finding_window now e.active, v.few_keys);
  few_findings = v.few_findings;
  states = AllStates-drop_stale (IsStateSound fp) e.policy.finding_window now e.active v.states;
  ids = v.ids;
  graded = v.graded;
}

pub init-IsSound : (fp : Doubles) (policy : LocalSecurityPolicy) → IsSound fp (init policy)
unfolding init
init-IsSound fp policy = record {
  few_keys = omega arith;
  few_findings = omega arith;
  states = tt;
  ids = omega arith;
  graded = tt;
}

-- On doubles that follow IEEE 754, `ingest` of any observation at any time keeps an engine that
-- satisfies the invariant within it: at most 4096 targets and 2000 findings, each target's
-- reported level that of its reported score, the findings' ids rising and below the next, and
-- every finding's level that of its score, which is at most 100, with two contributing sources at
-- least where the level is high or critical.
pub ingest-IsSound :
    (fp : Doubles) (o : SecurityObservation) (now : ℕ) (e : CorrelationEngine)
    → IsIeee fp
    → IsSound fp e
    → IsSound fp (ingest fp o now e).1
unfolding ingest
ingest-IsSound fp o now e law v = elim (Bool-cases (valid fp o)) [
  | inl ok ↦ rw ok (
      correlate-IsSound fp o now (correlation_key o) _ (expire now e) law ok refl
        (expire-IsSound fp now e v))
  | inr bad ↦ rw bad v
]

pub ingest-next-le :
    (fp : Doubles) (o : SecurityObservation) (now : ℕ) (e : CorrelationEngine)
    → e.next_finding_id ≤ (ingest fp o now e).1.next_finding_id
unfolding ingest
ingest-next-le fp o now e = ground (
  arith,
  correlate-next-le fp o now (correlation_key o) (lookup (correlation_key o) (expire now e).active)
      (expire now e),
  expire-next now e,
)
