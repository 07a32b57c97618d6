-- ===== src/Security/Correlation.antt =====
-- src/security/correlation_engine.cpp: the sources seen for each target, their score, and the
-- findings reported. Times are nanoseconds. `ingest` is one step: it holds the mutex but for the
-- moment between its call of `expire` and its own lock.
pub mod Score
pub mod Table
pub mod Invariant
pub mod Reports
use gcad.Base.{
  ℕ, zero, suc, ◌+◌, ◌-◌, ◌*◌, ◌%◌, ◌^◌, min, Bool, true, false, not, ◌&&◌, ◌||◌, List, [], ◌∷◌,
  ◌++◌, map, Option, none, some, if◌then◌else◌, ltb, leb, length, drop,
}
use gcad.Base.Bytes.{Bytes, is_empty, lexb, eqb}
use gcad.Base.Dict.{lookup, put}
use gcad.Common.{ThreatLevel, rank}
use gcad.Security.Observation.{Doubles, SecurityObservation, fifty_double, valid, correlation_key}
use gcad.Security.Policy.{SecurityFinding, LocalSecurityPolicy}

pub record SourceState : Type 0 where
  pub confidence : ℕ
  pub suggested_level : ThreatLevel
  pub deterministic : Bool
  pub last_seen : ℕ

pub record ActiveState : Type 0 where
  pub last_seen : ℕ
  pub sources : List (Bytes × SourceState)
  pub file_path : Bytes
  pub sha256 : Bytes
  pub rationale : Bytes
  pub last_reported_score : ℕ
  pub last_reported_level : ThreatLevel

abbrev pub no_state : ActiveState
no_state = record {
  last_seen = 0;
  sources = [];
  file_path = [];
  sha256 = [];
  rationale = [];
  last_reported_score = 0;
  last_reported_level = ThreatLevel.safe;
}

abbrev pub max_active_keys : ℕ
max_active_keys = 4096

abbrev pub max_findings : ℕ
max_findings = 2000

abbrev pub second : ℕ
second = 1000000000

abbrev pub duplicate_window : ℕ
duplicate_window = 30 * second

pub record CorrelationEngine : Type 0 where
  pub policy : LocalSecurityPolicy
  pub active : List (Bytes × ActiveState)
  pub findings : List SecurityFinding
  pub next_finding_id : ℕ

unfoldable pub init : LocalSecurityPolicy → CorrelationEngine
init policy = record { policy = policy; active = []; findings = []; next_finding_id = 1 }

-- The loop of `score_for` over an `unsigned`.
unfoldable pub sum_points : Doubles → List (Bytes × SourceState) → ℕ → ℕ
sum_points fp [] score = score
sum_points fp ((id, s) ∷ rest) score =
    sum_points fp rest ((score + fp.lround (fp.mul s.confidence fifty_double)) % 2 ^ 32)

unfoldable pub score_for : Doubles → ActiveState → ℕ
unfolding sum_points
score_for fp state =
    let score = sum_points fp state.sources 0 in
    min (if leb 2 (length state.sources) then (score + 20) % 2 ^ 32 else score) 100

any_deterministic : List (Bytes × SourceState) → Bool
any_deterministic [] = false
any_deterministic ((id, s) ∷ rest) = s.deterministic || any_deterministic rest

unfoldable pub any_source_deterministic : ActiveState → Bool
unfolding any_deterministic
any_source_deterministic state = any_deterministic state.sources

unfoldable pub level_for : ℕ → ThreatLevel
level_for score =
    if leb 90 score
    then ThreatLevel.critical
    else if leb 75 score
    then ThreatLevel.high
    else if leb 50 score
    then ThreatLevel.medium
    else if leb 25 score
    then ThreatLevel.low
    else ThreatLevel.safe

-- The first entry of the least `last_seen`, from `best` on.
unfoldable pub oldest : Bytes × ActiveState → List (Bytes × ActiveState) → Bytes × ActiveState
oldest best [] = best
oldest best (e ∷ rest) = oldest (if ltb (e.1).last_seen (best.1).last_seen then e else best) rest

unfoldable pub erase : Bytes → List (Bytes × ActiveState) → List (Bytes × ActiveState)
erase k [] = []
erase k ((j, s) ∷ m) = if eqb j k then m else (j, s) ∷ erase k m

evict : List (Bytes × ActiveState) → List (Bytes × ActiveState)
unfolding oldest erase
evict [] = []
evict (e ∷ m) = erase (oldest e m).0 (e ∷ m)

unfoldable pub evict_oldest : List (Bytes × ActiveState) → List (Bytes × ActiveState)
unfolding evict
evict_oldest m = if ltb (length m) max_active_keys then m else evict m

abbrev pub is_stale : ℕ → ℕ → ActiveState → Bool
is_stale window now s = leb s.last_seen now && ltb (window * 60 * second) (now - s.last_seen)

unfoldable pub drop_stale : ℕ → ℕ → List (Bytes × ActiveState) → List (Bytes × ActiveState)
drop_stale window now [] = []
drop_stale window now ((k, s) ∷ m) =
    if is_stale window now s then drop_stale window now m else (k, s) ∷ drop_stale window now m

unfoldable pub expire : ℕ → CorrelationEngine → CorrelationEngine
expire now e = record e { active = drop_stale e.policy.finding_window now e.active }

insert_sorted : Bytes → List Bytes → List Bytes
insert_sorted x [] = x ∷ []
insert_sorted x (y ∷ ys) = if lexb x y then x ∷ (y ∷ ys) else y ∷ insert_sorted x ys

-- std::sort on strings.
unfoldable pub sort : List Bytes → List Bytes
unfolding insert_sorted
sort [] = []
sort (x ∷ xs) = insert_sorted x (sort xs)

keys : List (Bytes × SourceState) → List Bytes
keys [] = []
keys ((k, s) ∷ m) = k ∷ keys m

-- Whether the source was seen within the duplicate window.
is_duplicate : ℕ → Option SourceState → Bool
is_duplicate now none = false
is_duplicate now (some s) = leb s.last_seen now && ltb (now - s.last_seen) duplicate_window

-- The assignments to the target's state that follow the duplicate test.
unfoldable pub observe : SecurityObservation → ℕ → ActiveState → ActiveState
observe o now state = record {
  last_seen = now;
  sources =
      put o.source_id
        (record {
          confidence = o.confidence;
          suggested_level = o.suggested_level;
          deterministic = o.deterministic;
          last_seen = now;
        })
        state.sources;
  file_path =
      if is_empty state.file_path && not (is_empty o.file_path)
      then o.file_path
      else state.file_path;
  sha256 = if is_empty state.sha256 && not (is_empty o.sha256) then o.sha256 else state.sha256;
  rationale = if is_empty state.rationale then o.evidence else state.rationale;
  last_reported_score = state.last_reported_score;
  last_reported_level = state.last_reported_level;
}

unfoldable pub finding_of : Doubles → ℕ → Bytes → ℕ → ActiveState → SecurityFinding
unfolding keys
finding_of fp id key now state =
    let score = score_for fp state in
    record {
      id = id;
      timestamp = now;
      level = level_for score;
      risk_score = score;
      deterministic_signature = any_source_deterministic state;
      correlation_key = key;
      file_path = state.file_path;
      sha256 = state.sha256;
      rationale = state.rationale;
      contributing_sources = sort (keys state.sources);
      observation_ids = [];
    }

-- push_back, and pop_front past the bound.
unfoldable pub push_bounded {ℓ} : {A : Type ℓ} → ℕ → A → List A → List A
push_bounded bound x xs = let ys = xs ++ (x ∷ []) in if ltb bound (length ys) then drop 1 ys else ys

unfoldable pub reported : Doubles → ActiveState → ActiveState
reported fp state =
    let score = score_for fp state in
    record state { last_reported_score = score; last_reported_level = level_for score }

-- Neither the score nor the level exceeds what was last reported.
abbrev pub has_not_grown : Doubles → ActiveState → Bool
has_not_grown fp state =
    leb (score_for fp state) state.last_reported_score
    && leb (rank (level_for (score_for fp state))) (rank state.last_reported_level)

-- The rest of `ingest` on the updated state of `key`: report if the score or the level has grown.
unfoldable pub report :
    Doubles
    → ℕ
    → Bytes
    → ActiveState
    → CorrelationEngine
    → Option SecurityFinding × CorrelationEngine
report fp now key state e =
    if has_not_grown fp state then (none, record e { active = put key state e.active }) else (
      some (finding_of fp e.next_finding_id key now state),
      record e {
        active = put key (reported fp state) e.active;
        findings =
            push_bounded max_findings (finding_of fp e.next_finding_id key now state) e.findings;
        next_finding_id = e.next_finding_id + 1;
      },
    )

-- `ingest` from the lock on, with what the map holds for `key`.
unfoldable pub correlate :
    Doubles
    → SecurityObservation
    → ℕ
    → Bytes
    → Option ActiveState
    → CorrelationEngine
    → Option SecurityFinding × CorrelationEngine
unfolding is_duplicate
correlate fp o now key none e =
    report fp now key (observe o now no_state) (record e { active = evict_oldest e.active })
correlate fp o now key (some state) e =
    if is_duplicate now (lookup o.source_id state.sources)
    then (none, e)
    else report fp now key (observe o now state) e

unfoldable pub ingest :
    Doubles
    → SecurityObservation
    → ℕ
    → CorrelationEngine
    → Option SecurityFinding × CorrelationEngine
ingest fp o now e =
    if not (valid fp o)
    then (none, e)
    else let key = correlation_key o in
      let e' = expire now e in correlate fp o now key (lookup key e'.active) e'

unfoldable pub recent : ℕ → CorrelationEngine → List SecurityFinding
recent count e = let n = length e.findings in drop (if ltb count n then n - count else 0) e.findings
