-- ===== src/Security/Correlation/Score.antt =====
-- `score_for` and `level_for` in plain arithmetic.
use gcad.Base.{
  ℕ, suc, ◌+◌, ◌*◌, ◌%◌, ◌^◌, ◌≤◌, ◌<◌, min, ◌≡◌, refl, ap, ◌∙◌, ◌↔◌, List, [], ◌∷◌, arith, length,
  leb, if◌then◌else◌,
}
use gcad.Base.Bytes.{Bytes}
use gcad.Common.{rank}
use gcad.Security.Observation.{Doubles, fifty_double}
use gcad.Security.Correlation.{SourceState, ActiveState, sum_points, score_for, level_for}
use mathlib.Core.List.{Perm, Permᴰ}
use mathlib.Core.Logic.{∥∥₁_elim}
use native.Mathlib.Nat.{ℕ_set}

-- What one source adds: its confidence in points of fifty.
abbrev pub points : Doubles → SourceState → ℕ
points fp s = fp.lround (fp.mul s.confidence fifty_double)

pub total : Doubles → List (Bytes × SourceState) → ℕ
total fp [] = 0
total fp ((k, s) ∷ m) = points fp s + total fp m

-- Every source adds at most fifty points.
abbrev pub AllScaled : Doubles → List (Bytes × SourceState) → Type 0
AllScaled fp [] = Unit
AllScaled fp ((k, s) ∷ m) = (points fp s ≤ 50) × AllScaled fp m

sum_points-total :
    (fp : Doubles) (m : List (Bytes × SourceState)) (a : ℕ)
    → a < 2 ^ 32
    → sum_points fp m a ≡ (a + total fp m) % 2 ^ 32
unfolding sum_points total
sum_points-total fp [] a h = omega arith
sum_points-total fp ((k, s) ∷ m) a h =
    omega (arith, sum_points-total fp m ((a + points fp s) % 2 ^ 32) (omega arith))

same_points : (fp : Doubles) {a b : Bytes × SourceState} → a ≡ b → points fp a.1 ≡ points fp b.1
same_points fp e = ap (λ (x : Bytes × SourceState). points fp x.1) e

total-permᴰ :
    (fp : Doubles) {m n : List (Bytes × SourceState)}
    → Permᴰ m n
    → (total fp m ≡ total fp n) × (length m ≡ length n)
unfolding total
total-permᴰ fp Permᴰ.nil = (refl, refl)
total-permᴰ fp (Permᴰ.cons e p) =
    (omega (arith, same_points fp e, (total-permᴰ fp p).0), ap suc (total-permᴰ fp p).1)
total-permᴰ fp (Permᴰ.swap e f) = (omega (arith, same_points fp e, same_points fp f), refl)
total-permᴰ fp (Permᴰ.trans p q) =
    ((total-permᴰ fp p).0 ∙ (total-permᴰ fp q).0, (total-permᴰ fp p).1 ∙ (total-permᴰ fp q).1)

-- Two states that hold the same sources in another order have the same score, so the order in which
-- the hash table is walked does not matter.
pub score_for-perm :
    (fp : Doubles) (s t : ActiveState) → Perm s.sources t.sources → score_for fp s ≡ score_for fp t
unfolding score_for
score_for-perm fp s t p = ∥∥₁_elim p (ℕ_set _ _) λ d.
    ground
      (arith, total-permᴰ fp d, sum_points-total fp s.sources 0, sum_points-total fp t.sources 0)

total-le :
    (fp : Doubles) (m : List (Bytes × SourceState)) → AllScaled fp m → total fp m ≤ 50 * length m
unfolding total
total-le fp [] h = omega arith
total-le fp ((k, s) ∷ m) h = omega (arith, total-le fp m h.1)

-- While every source adds at most fifty points and there are at most fifty million of them, the
-- score is the sum of their points, with twenty more from the second source on, cut off at 100:
-- the unsigned sum does not wrap.
pub score_for_lem :
    (fp : Doubles) (s : ActiveState)
    → AllScaled fp s.sources
    → length s.sources ≤ 50000000
    → score_for fp s
      ≡ min (if leb 2 (length s.sources) then total fp s.sources + 20 else total fp s.sources) 100
unfolding score_for
score_for_lem fp s h n = ground (arith, sum_points-total fp s.sources 0, total-le fp s.sources)

pub score_for-le : (fp : Doubles) (s : ActiveState) → score_for fp s ≤ 100
unfolding score_for
score_for-le fp s = omega arith

-- The level is a step function of the score: low from 25, medium from 50, high from 75 and
-- critical from 90.
pub level_for_iff :
    (score : ℕ)
    → (1 ≤ rank (level_for score) ↔ 25 ≤ score)
      × (2 ≤ rank (level_for score) ↔ 50 ≤ score)
      × (3 ≤ rank (level_for score) ↔ 75 ≤ score)
      × (4 ≤ rank (level_for score) ↔ 90 ≤ score)
unfolding level_for
level_for_iff score = ground arith

pub level_for_mono : (a b : ℕ) → a ≤ b → rank (level_for a) ≤ rank (level_for b)
unfolding level_for
level_for_mono a b h = ground arith

-- With one source at most, which adds no more than fifty points, the score is at most 50.
pub one_source_score :
    (fp : Doubles) (s : ActiveState)
    → AllScaled fp s.sources
    → length s.sources ≤ 1
    → score_for fp s ≤ 50
one_source_score fp s h n =
    ground (arith, score_for_lem fp s h (omega arith), total-le fp s.sources h)
