-- ===== src/Base/Dict.antt =====
-- std::unordered_map with string keys: an association list in iteration order. The standard leaves
-- that order open; here a new key comes last.
use gcad.Base.Tests.{if◌then◌else◌}
use gcad.Base.Bytes.{Bytes, eqb, eqb→eq, eqb_refl}
use gcad.Base.Lists.{length}
use Prim.Native.Nat.{suc, ◌≤◌}
use mathlib.Core.Path.{◌≡◌}
use mathlib.Core.Logic.{◌≢◌}
use mathlib.Core.List.{List, [], ◌∷◌}
use mathlib.Core.Option.{Option, none, some}
use native.Mathlib.Omega.{arith}

module _ {ℓ} {V : Type ℓ} where
  unfoldable pub lookup : Bytes → List (Bytes × V) → Option V
  lookup k [] = none
  lookup k ((j, v) ∷ m) = if eqb j k then some v else lookup k m

  -- m[k] = v
  unfoldable pub put : Bytes → V → List (Bytes × V) → List (Bytes × V)
  put k v [] = (k, v) ∷ []
  put k v ((j, w) ∷ m) = if eqb j k then (j, v) ∷ m else (j, w) ∷ put k v m

  pub lookup-put_self : (k : Bytes) (v : V) (m : List (Bytes × V)) → lookup k (put k v m) ≡ some v
  unfolding lookup put
  lookup-put_self k v [] = ground (arith, eqb_refl k)
  lookup-put_self k v ((j, w) ∷ m) = ground (arith, lookup-put_self k v m)

  pub lookup-put_ne :
      (k j : Bytes) (v : V) (m : List (Bytes × V)) → k ≢ j → lookup j (put k v m) ≡ lookup j m
  unfolding lookup put
  lookup-put_ne k j v [] h = ground (arith, eqb→eq k j)
  lookup-put_ne k j v ((i, w) ∷ m) h =
      ground (arith, eqb→eq i k, eqb→eq i j, lookup-put_ne k j v m h)

  pub length-put-some :
      (k : Bytes) (v w : V) (m : List (Bytes × V))
      → lookup k m ≡ some w
      → length (put k v m) ≡ length m
  unfolding lookup put
  length-put-some k v w [] h = cc
  length-put-some k v w ((j, u) ∷ m) h = ground (arith, length-put-some k v w m)

  pub length-put_le :
      (k : Bytes) (v : V) (m : List (Bytes × V)) → length (put k v m) ≤ suc (length m)
  unfolding put
  length-put_le k v [] = omega arith
  length-put_le k v ((j, u) ∷ m) = ground (arith, length-put_le k v m)
