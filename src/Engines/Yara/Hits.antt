-- ===== src/Engines/Yara/Hits.antt =====
-- What a scan reports.
use gcad.Base.{
  ℕ, ◌≡◌, refl, sym, subst, true, List, [], ◌∷◌, ◌++◌, some, get_elem?, suc, All, All-append,
  if_cases, map,
}
use gcad.Base.Bytes.{Bytes, is_empty, eqb, eqb→eq}
use gcad.Base.Dict.{put}
use gcad.Engines.Yara.{YaraString, YaraRule, YaraMatch, find_pattern}
use gcad.Engines.Yara.Scan.{
  Matches, string_matches, evaluate_condition, match_at, matches_of, scan_buffer,
}

abbrev pub IsListed {ℓ} : {A : Type ℓ} → List A → A → Type ℓ
IsListed xs x = (i : ℕ) × (get_elem? xs i ≡ some x)

-- The offsets are those of a string of the rule with the identifier.
abbrev pub IsOf : Bytes → List YaraString → Bytes × List ℕ → Type 0
IsOf data_ strings entry =
    (s : YaraString) × IsListed strings s
    × (s.identifier ≡ entry.0)
    × (find_pattern data_ s ≡ entry.1)

put-All :
    (P : Bytes × List ℕ → Type 0) (id : Bytes) (offsets : List ℕ) (m : Matches)
    → P (id, offsets)
    → All P m
    → All P (put id offsets m)
unfolding put
put-All P id offsets [] h all = (h, tt)
put-All P id offsets ((j, w) ∷ m) h (k, all) =
    if_cases (All P) (eqb j id) {x = (j, offsets) ∷ m} {y = (j, w) ∷ put id offsets m}
      (λ e. (subst (λ i. P (i, offsets)) (sym (eqb→eq j id e)) h, all))
      (λ _. (k, put-All P id offsets m h all))

IsOf-cons :
    (data_ : Bytes) (s : YaraString) (strings : List YaraString) (m : Matches)
    → All (IsOf data_ strings) m
    → All (IsOf data_ (s ∷ strings)) m
IsOf-cons data_ s strings [] h = tt
IsOf-cons data_ s strings (entry ∷ m) ((t, (i, at), same, found), h) =
    ((t, (suc i, at), same, found), IsOf-cons data_ s strings m h)

-- `strings` is all of the rule's, and `ss` those that are left of them.
string_matches-IsOf :
    (data_ : Bytes) (strings ss : List YaraString) (m : Matches)
    → All (IsListed strings) ss
    → All (IsOf data_ strings) m
    → All (IsOf data_ strings) (string_matches data_ ss m)
unfolding string_matches
string_matches-IsOf data_ strings [] m listed h = h
string_matches-IsOf data_ strings (s ∷ ss) m (l, listed) h =
    string_matches-IsOf data_ strings ss _ listed (
      if_cases (All (IsOf data_ strings)) (is_empty (find_pattern data_ s)) {x = m}
        {y = put s.identifier (find_pattern data_ s) m} (λ _. h)
        (λ _.
          put-All (IsOf data_ strings) s.identifier (find_pattern data_ s) m (s, l, refl, refl) h))

raise-IsListed :
    {A : Type 0} (x : A) (xs ys : List A) → All (IsListed xs) ys → All (IsListed (x ∷ xs)) ys
raise-IsListed x xs [] h = tt
raise-IsListed x xs (y ∷ ys) ((i, at), h) = ((suc i, at), raise-IsListed x xs ys h)

all-IsListed : {A : Type 0} (xs : List A) → All (IsListed xs) xs
all-IsListed [] = tt
all-IsListed (x ∷ xs) = ((0, refl), raise-IsListed x xs xs (all-IsListed xs))

-- A match that a rule of the list gives: its condition holds, and one of its strings with the match's
-- identifier is found at the offset.
pub record IsHit (data_ : Bytes) (rules : List YaraRule) (m : YaraMatch) : Type 0 where
  pub rule : YaraRule
  pub listed : IsListed rules rule
  pub named : m.rule_name ≡ rule.name
  pub holds : evaluate_condition rule (string_matches data_ rule.strings []) ≡ true
  pub string : YaraString
  pub of_rule : IsListed rule.strings string
  pub identified : string.identifier ≡ m.matched_string_id
  pub found : IsListed (find_pattern data_ string) m.offset

IsHit-cons :
    (data_ : Bytes) (rule : YaraRule) (rules : List YaraRule) (ms : List YaraMatch)
    → All (IsHit data_ rules) ms
    → All (IsHit data_ (rule ∷ rules)) ms
IsHit-cons data_ rule rules [] h = tt
IsHit-cons data_ rule rules (m ∷ ms) (k, h) = (
  record {
    rule = k.rule;
    listed = (suc k.listed.0, k.listed.1);
    named = k.named;
    holds = k.holds;
    string = k.string;
    of_rule = k.of_rule;
    identified = k.identified;
    found = k.found;
  },
  IsHit-cons data_ rule rules ms h,
)

module _ (data_ : Bytes) (rule : YaraRule) (rules : List YaraRule)
    (holds : evaluate_condition rule (string_matches data_ rule.strings []) ≡ true) where
  offsets-IsHit :
      (s : YaraString) (id : Bytes) (offsets : List ℕ)
      → IsListed rule.strings s
      → s.identifier ≡ id
      → All (IsListed (find_pattern data_ s)) offsets
      → All (IsHit data_ (rule ∷ rules)) (map (match_at rule id) offsets)
  offsets-IsHit s id [] l same h = tt
  offsets-IsHit s id (off ∷ offsets) l same (k, h) = (
    record {
      rule = rule;
      listed = (0, refl);
      named = refl;
      holds = holds;
      string = s;
      of_rule = l;
      identified = same;
      found = k;
    },
    offsets-IsHit s id offsets l same h,
  )

  matches_of-IsHit :
      (m : Matches)
      → All (IsOf data_ rule.strings) m
      → All (IsHit data_ (rule ∷ rules)) (matches_of rule m)
  unfolding matches_of
  matches_of-IsHit [] h = tt
  matches_of-IsHit ((id, offsets) ∷ m) ((s, l, same, found), h) =
      All-append (IsHit data_ (rule ∷ rules)) (map (match_at rule id) offsets) (matches_of rule m)
        (offsets-IsHit s id offsets l same
          (subst (λ f. All (IsListed f) offsets) (sym found) (all-IsListed offsets)))
        (matches_of-IsHit m h)

-- Every match that `scan_buffer` reports names a rule of the list whose condition holds on the buffer, and
-- a string of that rule with the match's identifier, which `find_pattern` finds at the match's offset.
pub scan_buffer-IsHit :
    (data_ : Bytes) (rules : List YaraRule) → All (IsHit data_ rules) (scan_buffer data_ rules)
unfolding scan_buffer
scan_buffer-IsHit data_ [] = tt
scan_buffer-IsHit data_ (rule ∷ rules) =
    if_cases (All (IsHit data_ (rule ∷ rules)))
      (evaluate_condition rule (string_matches data_ rule.strings []))
      {x = matches_of rule (string_matches data_ rule.strings []) ++ scan_buffer data_ rules}
      {y = scan_buffer data_ rules}
      (λ holds.
        All-append (IsHit data_ (rule ∷ rules))
          (matches_of rule (string_matches data_ rule.strings [])) (scan_buffer data_ rules)
          (matches_of-IsHit data_ rule rules holds (string_matches data_ rule.strings [])
            (string_matches-IsOf data_ rule.strings rule.strings [] (all-IsListed rule.strings) tt))
          (IsHit-cons data_ rule rules (scan_buffer data_ rules) (scan_buffer-IsHit data_ rules)))
      (λ _. IsHit-cons data_ rule rules (scan_buffer data_ rules) (scan_buffer-IsHit data_ rules))
