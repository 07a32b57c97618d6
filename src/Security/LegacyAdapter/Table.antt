-- ===== src/Security/LegacyAdapter/Table.antt =====
-- The table of confidences.
use gcad.Base.{
  ℕ, ◌≡◌, refl, ap, subst, sym, ◌∙◌, arith, Bool, Bool-cases, inl, inr, true, false, ◌&&◌, List, [],
  ◌∷◌, Option, none, some, All, ◌==◌,
}
use gcad.Base.Bytes.{Bytes, eqb, eqb→eq}
use mathlib.Core.List.{Memᴰ}
use gcad.Common.{ThreatCategory, category_value, ThreatEvent}
use gcad.Security.LegacyAdapter.{
  ConfidenceRule, rules, find_rule, adapt_legacy_event, apply_rule, observation_of,
}

-- A rule that is found for its own engine and category.
abbrev IsFound : ConfidenceRule → Type 0
IsFound r = find_rule r.engine_name r.category rules ≡ some r

pub All-Memᴰ :
    (P : ConfidenceRule → Type 0) (rs : List ConfidenceRule) (r : ConfidenceRule)
    → All P rs
    → Memᴰ r rs
    → P r
All-Memᴰ P [] r h m = elim m [ ]
All-Memᴰ P (x ∷ rs) r (h, hs) (Memᴰ.head e) = subst P (sym e) h
All-Memᴰ P (x ∷ rs) r (h, hs) (Memᴰ.tail m) = All-Memᴰ P rs r hs m

rules-IsFound : All IsFound rules
unfolding find_rule eqb
rules-IsFound = (
  refl,
  (
    refl,
    (
      refl,
      (
        refl,
        (
          refl,
          (
            refl,
            (
              refl,
              (
                refl,
                (
                  refl,
                  (
                    refl,
                    (
                      refl,
                      (
                        refl,
                        (refl, (refl, (refl, (refl, (refl, (refl, (refl, (refl, (refl, tt))))))))),
                      ),
                    ),
                  ),
                ),
              ),
            ),
          ),
        ),
      ),
    ),
  ),
)

-- Each row of the table takes effect: an event of its category from its engine gets its confidence and
-- its determinism, and the engine's name as source.
pub adapt-row :
    (r : ConfidenceRule) (event : ThreatEvent)
    → Memᴰ r rules
    → event.category ≡ r.category
    → adapt_legacy_event event r.engine_name
      ≡ observation_of event r.engine_name r.confidence r.deterministic
unfolding adapt_legacy_event
adapt-row r event m e =
    ap (λ c. apply_rule event r.engine_name (find_rule r.engine_name c rules)) e
    ∙ ap (apply_rule event r.engine_name) (All-Memᴰ IsFound rules r rules-IsFound m)

-- A row for the engine and the event's category.
pub record IsRow (event : ThreatEvent) (engine_name : Bytes) (r : ConfidenceRule) : Type 0 where
  pub listed : Memᴰ r rules
  pub engine : r.engine_name ≡ engine_name
  pub category : category_value r.category ≡ category_value event.category

both : (a b : Bool) → (a && b) ≡ true → (a ≡ true) × (b ≡ true)
both true b h = (refl, h)
both false b h = cc

==→eq : (a b : ℕ) → (a == b) ≡ true → a ≡ b
==→eq a b h = ground arith

some-injective : (x y : ConfidenceRule) → some x ≡ some y → x ≡ y
some-injective x y h = cc

pub find_rule-IsRow :
    (engine_name : Bytes) (category : ThreatCategory) (rs : List ConfidenceRule)
    (r : ConfidenceRule)
    → find_rule engine_name category rs ≡ some r
    → Memᴰ r rs
      × (r.engine_name ≡ engine_name)
      × (category_value r.category ≡ category_value category)
unfolding find_rule
find_rule-IsRow engine_name category [] r h = cc
find_rule-IsRow engine_name category (x ∷ xs) r h = elim (Bool-cases (matches x)) [
  | inl e ↦ this (rw e at h) (both _ _ e)
  | inr e ↦
      let (m, e1, e2) = find_rule-IsRow engine_name category xs r (rw e at h) in
      (Memᴰ.tail m, e1, e2)
]
  where
    matches : ConfidenceRule → Bool
    matches y =
        eqb y.engine_name engine_name && (category_value y.category == category_value category)

    this :
        some x ≡ some r
        → (eqb x.engine_name engine_name ≡ true)
          × ((category_value x.category == category_value category) ≡ true)
        → Memᴰ r (x ∷ xs)
          × (r.engine_name ≡ engine_name)
          × (category_value r.category ≡ category_value category)
    this e (k, l) =
        let same = some-injective x r e in
        (
          Memᴰ.head (sym same),
          ap (λ y. y.engine_name) (sym same) ∙ eqb→eq x.engine_name engine_name k,
          ap (λ y. category_value y.category) (sym same) ∙ ==→eq _ _ l,
        )

-- An observation is called deterministic only on the strength of a row of the table that says so.
pub adapt-deterministic :
    (event : ThreatEvent) (engine_name : Bytes)
    → (adapt_legacy_event event engine_name).deterministic ≡ true
    → (r : ConfidenceRule) × IsRow event engine_name r × (r.deterministic ≡ true)
unfolding adapt_legacy_event
adapt-deterministic event engine_name h =
    of_found (find_rule engine_name event.category rules) refl h
  where
    of_found :
        (found : Option ConfidenceRule)
        → find_rule engine_name event.category rules ≡ found
        → (apply_rule event engine_name found).deterministic ≡ true
        → (r : ConfidenceRule) × IsRow event engine_name r × (r.deterministic ≡ true)
    of_found none e d = cc
    of_found (some r) e d =
        let (m, k, l) = find_rule-IsRow engine_name event.category rules r e in
        (r, record { listed = m; engine = k; category = l }, d)
