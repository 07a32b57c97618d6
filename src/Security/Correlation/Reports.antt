-- ===== src/Security/Correlation/Reports.antt =====
-- When `ingest` reports: only on a strictly higher score, and never for a duplicate.
use gcad.Base.{
  ℕ, ◌+◌, ◌≤◌, ◌<◌, ◌≡◌, refl, ap, ◌⊎◌, subst, inl, inr, Bool-cases, true, Option, none, some,
  arith,
}
use gcad.Base.Bytes.{Bytes}
use gcad.Base.Dict.{lookup, lookup-put_self}
use gcad.Security.Observation.{Doubles, IsIeee, SecurityObservation, valid, correlation_key}
use gcad.Security.Policy.{SecurityFinding}
use gcad.Security.Correlation.{
  CorrelationEngine, ActiveState, SourceState, no_state, observe, report, reported, correlate,
  ingest, expire, finding_of, level_for, score_for, is_duplicate, duplicate_window, evict_oldest,
}
use gcad.Security.Correlation.Score.{AllScaled, level_for_mono}
use gcad.Security.Correlation.Table.{AllStates-lookup, AllStates}
use gcad.Security.Correlation.Invariant.{
  IsStateSound, IsGraded, finding_of-IsGraded, observe-IsStateSound, IsSound, expire-IsSound,
}

-- The score last reported for a target, 0 for one that the table does not hold.
abbrev pub last_score : Option ActiveState → ℕ
last_score none = 0
last_score (some s) = s.last_reported_score

-- What a reported finding says of the call and of the engine before and after it.
pub record IsReport (o : SecurityObservation) (now : ℕ) (e after : CorrelationEngine)
    (f : SecurityFinding) : Type 0 where
  pub about : f.correlation_key ≡ correlation_key o
  pub dated : f.timestamp ≡ now
  pub numbered : f.id ≡ e.next_finding_id
  pub next : after.next_finding_id ≡ e.next_finding_id + 1
  pub raised : last_score (lookup (correlation_key o) (expire now e).active) < f.risk_score
  pub graded : IsGraded f
  pub noted : last_score (lookup (correlation_key o) after.active) ≡ f.risk_score

module _ (fp : Doubles) (now : ℕ) (key : Bytes) (s : ActiveState) (e : CorrelationEngine) where
  report_raised :
      {f : SecurityFinding}
      → s.last_reported_level ≡ level_for s.last_reported_score
      → (report fp now key s e).0 ≡ some f
      → s.last_reported_score < f.risk_score
  unfolding report finding_of
  report_raised {f} h r = ground (arith, level_for_mono (score_for fp s) s.last_reported_score)

  report_fields :
      {f : SecurityFinding}
      → (report fp now key s e).0 ≡ some f
      → (f.correlation_key ≡ key)
        × (f.timestamp ≡ now)
        × (f.id ≡ e.next_finding_id)
        × ((report fp now key s e).1.next_finding_id ≡ e.next_finding_id + 1)
  unfolding report finding_of
  report_fields r = ground arith

  report-IsGraded :
      {f : SecurityFinding}
      → AllScaled fp s.sources
      → (report fp now key s e).0 ≡ some f
      → IsGraded f
  unfolding report
  report-IsGraded h r =
      subst IsGraded (ground arith) (finding_of-IsGraded fp e.next_finding_id key now s h)

  report_noted :
      {f : SecurityFinding}
      → (report fp now key s e).0 ≡ some f
      → last_score (lookup key (report fp now key s e).1.active) ≡ f.risk_score
  unfolding report finding_of reported
  report_noted r = ground (arith, lookup-put_self key (reported fp s) e.active)

-- The same of a result of `report` or `correlate`, where `last` is the score reported before.
abbrev ReportFacts :
    ℕ
    → Bytes
    → ℕ
    → CorrelationEngine
    → Option SecurityFinding × CorrelationEngine
    → SecurityFinding
    → Type 0
ReportFacts now key last e result f =
    (f.correlation_key ≡ key)
    × (f.timestamp ≡ now)
    × (f.id ≡ e.next_finding_id)
    × ((result.1).next_finding_id ≡ e.next_finding_id + 1)
    × (last < f.risk_score)
    × IsGraded f
    × (last_score (lookup key (result.1).active) ≡ f.risk_score)

report_facts :
    (fp : Doubles) (now : ℕ) (key : Bytes) (s : ActiveState) (e : CorrelationEngine)
    (f : SecurityFinding)
    → IsStateSound fp s
    → (report fp now key s e).0 ≡ some f
    → ReportFacts now key s.last_reported_score e (report fp now key s e) f
report_facts fp now key s e f g h =
    let (about, dated, numbered, next) = report_fields fp now key s e h in
    (
      about,
      dated,
      numbered,
      next,
      report_raised fp now key s e g.0 h,
      report-IsGraded fp now key s e g.1 h,
      report_noted fp now key s e h,
    )

correlate_facts :
    (fp : Doubles) (o : SecurityObservation) (now : ℕ) (key : Bytes) (r : Option ActiveState)
    (e : CorrelationEngine) (f : SecurityFinding)
    → IsIeee fp
    → valid fp o ≡ true
    → lookup key e.active ≡ r
    → AllStates (IsStateSound fp) e.active
    → (correlate fp o now key r e).0 ≡ some f
    → ReportFacts now key (last_score r) e (correlate fp o now key r e) f
unfolding correlate observe
correlate_facts fp o now key none e f law ok l a h =
    report_facts fp now key (observe o now no_state) (record e { active = evict_oldest e.active }) f
      (observe-IsStateSound fp o now no_state law ok (unfold level_for in refl, tt)) h
correlate_facts fp o now key (some s) e f law ok l a h =
    elim (Bool-cases (is_duplicate now (lookup o.source_id s.sources))) [
      | inl d ↦ absurd (ground (arith, d, h))
      | inr d ↦ rw d (
          report_facts fp now key (observe o now s) e f
            (observe-IsStateSound fp o now s law ok
              (AllStates-lookup (IsStateSound fp) key e.active a l))
            (ground arith))
    ]

-- On doubles that follow IEEE 754 and an engine that satisfies the invariant: a finding that
-- `ingest` returns bears the observation's key, the time of the call and the next id, and its
-- score exceeds the one last reported for that target, which it becomes. It is graded as every finding
-- of the engine.
pub ingest-IsReport :
    (fp : Doubles) (o : SecurityObservation) (now : ℕ) (e : CorrelationEngine) (f : SecurityFinding)
    → IsIeee fp
    → IsSound fp e
    → (ingest fp o now e).0 ≡ some f
    → IsReport o now e (ingest fp o now e).1 f
unfolding ingest
ingest-IsReport fp o now e f law v h = elim (Bool-cases (valid fp o)) [
  | inl ok ↦
      let e' = expire now e in
      let key = correlation_key o in
      rw ok (
        packed (correlate fp o now key (lookup key e'.active) e') (
          correlate_facts fp o now key _ e' f law ok refl (expire-IsSound fp now e v).states
            (rw ok at h)))
  | inr bad ↦ absurd (ground (arith, bad, h))
]
  where
    packed :
        (result : Option SecurityFinding × CorrelationEngine)
        → ReportFacts now
            (correlation_key o)
            (last_score (lookup (correlation_key o) (expire now e).active))
            (expire now e)
            result
            f
        → IsReport o now e result.1 f
    packed result (about, dated, numbered, next, raised, graded, noted) = record {
      about = about;
      dated = dated;
      numbered = unfold expire in numbered;
      next = unfold expire in next;
      raised = raised;
      graded = graded;
      noted = noted;
    }

report_kept :
    (fp : Doubles) (now : ℕ) (key : Bytes) (s : ActiveState) (e : CorrelationEngine)
    → (report fp now key s e).0 ≡ none
    → last_score (lookup key (report fp now key s e).1.active) ≡ s.last_reported_score
unfolding report
report_kept fp now key s e h = ground (arith, lookup-put_self key s e.active)

correlate_kept :
    (fp : Doubles) (o : SecurityObservation) (now : ℕ) (key : Bytes) (r : Option ActiveState)
    (e : CorrelationEngine)
    → lookup key e.active ≡ r
    → (correlate fp o now key r e).0 ≡ none
    → last_score (lookup key (correlate fp o now key r e).1.active) ≡ last_score r
unfolding correlate observe
correlate_kept fp o now key none e l h =
    report_kept fp now key (observe o now no_state) (record e { active = evict_oldest e.active }) h
correlate_kept fp o now key (some s) e l h =
    elim (Bool-cases (is_duplicate now (lookup o.source_id s.sources))) [
      | inl d ↦ rw d (ap last_score l)
      | inr d ↦ rw d (report_kept fp now key (observe o now s) e (rw d at h))
    ]

-- What a call of `ingest` does to the score last reported for the observation's target: it becomes the
-- finding's, which is higher, or stays without a finding; where the observation is not valid the whole
-- engine stays.
abbrev pub IsOutcome :
    SecurityObservation
    → ℕ
    → CorrelationEngine
    → CorrelationEngine
    → Option SecurityFinding
    → Type 0
IsOutcome o now e after none =
    (after ≡ e)
    ⊎ (last_score (lookup (correlation_key o) after.active)
        ≡ last_score (lookup (correlation_key o) (expire now e).active))
IsOutcome o now e after (some f) = IsReport o now e after f

ingest_kept :
    (fp : Doubles) (o : SecurityObservation) (now : ℕ) (e : CorrelationEngine)
    → (ingest fp o now e).0 ≡ none
    → IsOutcome o now e (ingest fp o now e).1 none
unfolding ingest
ingest_kept fp o now e h = elim (Bool-cases (valid fp o)) [
  | inl ok ↦
      rw ok (inr (correlate_kept fp o now (correlation_key o) _ (expire now e) refl (rw ok at h)))
  | inr bad ↦ rw bad (inl refl)
]

-- On doubles that follow IEEE 754 and an engine that satisfies the invariant: a finding that
-- `ingest` returns bears the observation's key, the time of the call and the next id, is graded as
-- every finding of the engine, and its score exceeds the one last reported for that target, which it
-- becomes. Without a finding the engine is unchanged, or the score last reported for that target is the one
-- that it had once old targets were dropped, 0 where there was none.
pub ingest-IsOutcome :
    (fp : Doubles) (o : SecurityObservation) (now : ℕ) (e : CorrelationEngine)
    → IsIeee fp
    → IsSound fp e
    → IsOutcome o now e (ingest fp o now e).1 (ingest fp o now e).0
ingest-IsOutcome fp o now e law v = by_result (ingest fp o now e).0 refl
  where
    by_result :
        (r : Option SecurityFinding)
        → (ingest fp o now e).0 ≡ r
        → IsOutcome o now e (ingest fp o now e).1 r
    by_result none h = ingest_kept fp o now e h
    by_result (some f) h = ingest-IsReport fp o now e f law v h

-- A valid observation whose source has been seen on the same target less than thirty seconds before
-- yields nothing and changes nothing but the expiry of old targets.
pub ingest_duplicate :
    (fp : Doubles) (o : SecurityObservation) (now : ℕ) (e : CorrelationEngine) (s : ActiveState)
    (source : SourceState)
    → lookup (correlation_key o) (expire now e).active ≡ some s
    → lookup o.source_id s.sources ≡ some source
    → source.last_seen ≤ now
    → now < source.last_seen + duplicate_window
    → valid fp o ≡ true
    → ingest fp o now e ≡ (none, expire now e)
unfolding ingest correlate
ingest_duplicate fp o now e s source l k past recent ok = rw (ok, l, k) (ground arith)
