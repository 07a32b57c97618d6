-- ===== src/Security/Correlation/Table.antt =====
-- The table of active targets: what expiry, eviction and an update do to its size and its entries.
use gcad.Base.{
  ℕ, suc, ◌+◌, ◌*◌, ◌≤◌, ◌<◌, ◌≡◌, refl, sym, subst, ◌⊎◌, inl, inr, Bool-cases, List, [], ◌∷◌, true,
  false, some, arith, length, ltb,
}
use gcad.Base.Bytes.{Bytes, eqb, eqb_refl}
use gcad.Base.Dict.{lookup, put}
use gcad.Security.Correlation.{
  ActiveState, oldest, erase, evict_oldest, drop_stale, is_stale, max_active_keys, second,
}

-- A property of the state of every target.
abbrev pub AllStates : (ActiveState → Type 0) → List (Bytes × ActiveState) → Type 0
AllStates P [] = Unit
AllStates P ((k, s) ∷ m) = P s × AllStates P m

module _ (P : ActiveState → Type 0) where
  pub AllStates-put :
      (k : Bytes) (s : ActiveState) (m : List (Bytes × ActiveState))
      → P s
      → AllStates P m
      → AllStates P (put k s m)
  unfolding put
  AllStates-put k s [] h a = (h, tt)
  AllStates-put k s ((j, t) ∷ m) h a = elim (Bool-cases (eqb j k)) [
    | inl e ↦ rw e (h, a.1)
    | inr e ↦ rw e (a.0, AllStates-put k s m h a.1)
  ]

  pub AllStates-erase :
      (k : Bytes) (m : List (Bytes × ActiveState)) → AllStates P m → AllStates P (erase k m)
  unfolding erase
  AllStates-erase k [] a = tt
  AllStates-erase k ((j, t) ∷ m) a = elim (Bool-cases (eqb j k)) [
    | inl e ↦ rw e a.1
    | inr e ↦ rw e (a.0, AllStates-erase k m a.1)
  ]

  pub AllStates-drop_stale :
      (window now : ℕ) (m : List (Bytes × ActiveState))
      → AllStates P m
      → AllStates P (drop_stale window now m)
  unfolding drop_stale
  AllStates-drop_stale window now [] a = tt
  AllStates-drop_stale window now ((j, t) ∷ m) a = elim (Bool-cases (is_stale window now t)) [
    | inl e ↦ rw e (AllStates-drop_stale window now m a.1)
    | inr e ↦ rw e (a.0, AllStates-drop_stale window now m a.1)
  ]

  pub AllStates-evict :
      (m : List (Bytes × ActiveState)) → AllStates P m → AllStates P (evict_oldest m)
  unfolding evict_oldest
  AllStates-evict [] a = tt
  AllStates-evict (e ∷ m) a = elim (Bool-cases (ltb (length (e ∷ m)) max_active_keys)) [
    | inl h ↦ rw h a
    | inr h ↦ rw h (AllStates-erase (oldest e m).0 (e ∷ m) a)
  ]

  pub AllStates-lookup :
      (k : Bytes) (m : List (Bytes × ActiveState)) {s : ActiveState}
      → AllStates P m
      → lookup k m ≡ some s
      → P s
  unfolding lookup
  AllStates-lookup k [] a h = cc
  AllStates-lookup k ((j, t) ∷ m) a h = elim (Bool-cases (eqb j k)) [
    | inl e ↦ subst P (ground arith) a.0
    | inr e ↦ AllStates-lookup k m a.1 (ground arith)
  ]

pub length-drop_stale :
    (window now : ℕ) (m : List (Bytes × ActiveState)) → length (drop_stale window now m) ≤ length m
unfolding drop_stale
length-drop_stale window now [] = omega arith
length-drop_stale window now ((j, t) ∷ m) = ground (arith, length-drop_stale window now m)

-- After expiry no target is left that was last seen longer ago than the window of minutes.
pub drop_stale_fresh :
    (window now : ℕ) (m : List (Bytes × ActiveState))
    → AllStates (λ s. now ≤ s.last_seen + window * 60 * second) (drop_stale window now m)
unfolding drop_stale
drop_stale_fresh window now [] = tt
drop_stale_fresh window now ((j, t) ∷ m) = elim (Bool-cases (is_stale window now t)) [
  | inl e ↦ rw e (drop_stale_fresh window now m)
  | inr e ↦ rw e (ground arith, drop_stale_fresh window now m)
]

abbrev pub HasKey : Bytes → List (Bytes × ActiveState) → Type 0
HasKey k [] = ⊥
HasKey k ((j, s) ∷ m) = (j ≡ k) ⊎ HasKey k m

module _ (best e : Bytes × ActiveState) (m : List (Bytes × ActiveState)) where
  oldest_next : ltb (e.1).last_seen (best.1).last_seen ≡ true → oldest best (e ∷ m) ≡ oldest e m
  unfolding oldest
  oldest_next h = rw h

  oldest_stay : ltb (e.1).last_seen (best.1).last_seen ≡ false → oldest best (e ∷ m) ≡ oldest best m
  unfolding oldest
  oldest_stay h = rw h

oldest-HasKey :
    (best : Bytes × ActiveState) (m : List (Bytes × ActiveState))
    → (best.0 ≡ (oldest best m).0) ⊎ HasKey (oldest best m).0 m
oldest-HasKey best [] = inl (unfold oldest in refl)
oldest-HasKey best (e ∷ m) = elim (Bool-cases (ltb (e.1).last_seen (best.1).last_seen)) [
  | inl h ↦
      subst (λ o. (best.0 ≡ o.0) ⊎ HasKey o.0 (e ∷ m)) (sym (oldest_next best e m h))
        (inr (oldest-HasKey e m))
  | inr h ↦
      subst (λ o. (best.0 ≡ o.0) ⊎ HasKey o.0 (e ∷ m)) (sym (oldest_stay best e m h))
        (elim (oldest-HasKey best m) [ inl p ↦ inl p | inr p ↦ inr (inr p) ])
]

-- The entry that eviction removes is one of the least recently seen.
oldest-le :
    (best : Bytes × ActiveState) (m : List (Bytes × ActiveState))
    → ((oldest best m).1).last_seen ≤ (best.1).last_seen
unfolding oldest
oldest-le best [] = omega arith
oldest-le best (e ∷ m) = ground (arith, oldest-le e m, oldest-le best m)

oldest-le_rest :
    (best : Bytes × ActiveState) (m : List (Bytes × ActiveState))
    → AllStates (λ s. ((oldest best m).1).last_seen ≤ s.last_seen) m
oldest-le_rest best [] = tt
oldest-le_rest best (e ∷ m) = elim (Bool-cases (ltb (e.1).last_seen (best.1).last_seen)) [
  | inl h ↦
      subst (λ o. AllStates (λ s. (o.1).last_seen ≤ s.last_seen) (e ∷ m))
        (sym (oldest_next best e m h)) (oldest-le e m, oldest-le_rest e m)
  | inr h ↦
      subst (λ o. AllStates (λ s. (o.1).last_seen ≤ s.last_seen) (e ∷ m))
        (sym (oldest_stay best e m h)) (ground (arith, oldest-le best m), oldest-le_rest best m)
]

-- The target that the eviction's walk ends on was last seen no later than any other, the one it
-- starts from included.
pub oldest_least :
    (best : Bytes × ActiveState) (m : List (Bytes × ActiveState))
    → AllStates (λ s. ((oldest best m).1).last_seen ≤ s.last_seen) (best ∷ m)
oldest_least best m = (oldest-le best m, oldest-le_rest best m)

length-erase :
    (k : Bytes) (m : List (Bytes × ActiveState)) → HasKey k m → suc (length (erase k m)) ≡ length m
unfolding erase
length-erase k [] h = absurd h
length-erase k ((j, s) ∷ m) (inl e) = ground (arith, eqb_refl k)
length-erase k ((j, s) ∷ m) (inr h) = ground (arith, length-erase k m h)

pub length-evict :
    (m : List (Bytes × ActiveState))
    → length m ≤ max_active_keys
    → length (evict_oldest m) < max_active_keys
unfolding evict_oldest
length-evict [] h = omega arith
length-evict (e ∷ m) h = ground (arith, length-erase (oldest e m).0 (e ∷ m) (oldest-HasKey e m))
