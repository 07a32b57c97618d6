-- ===== src/Security/PolicyStore/Valid.antt =====
-- Whatever the file holds, the policy loaded is a sound one.
use gcad.Base.{
  ℕ, ◌<◌, ◌≤◌, ◌≡◌, refl, Bool, true, false, not, ◌&&◌, ◌||◌, List, [], ◌∷◌, ◌++◌, Option, none,
  some, if_cases, arith, ltb, leb, ◌==◌, All, All-append,
}
use gcad.Base.Bytes.{Bytes, is_empty, eqb}
use gcad.Base.Lines.{lines, split_at}
use gcad.Base.Numerals.{stoi}
use gcad.Security.Policy.{LocalSecurityPolicy, default_policy}
use gcad.Security.PolicyStore.{
  Loading, set_threshold, set_window, load_entry, load_parts, load_line, load_lines, loaded,
  start_loading, load, max_finding_window_minutes, critical_threshold_key, finding_window_key,
  prefix_key,
}

-- The numbers in range, and prefixes, none of them empty.
pub record IsSound (p : LocalSecurityPolicy) : Type 0 where
  pub threshold : p.critical_threshold ≤ 100
  pub window : (0 < p.finding_window) × (p.finding_window ≤ 1440)
  pub prefixes : All (λ prefix. is_empty prefix ≡ false) p.protected_path_prefixes
  pub some_prefix : is_empty p.protected_path_prefixes ≡ false

record IsLoading (l : Loading) : Type 0 where
  pub policy : IsSound l.policy
  pub prefixes : All (λ prefix. is_empty prefix ≡ false) l.prefixes
  pub seen : l.prefixes_seen ≡ true → is_empty l.prefixes ≡ false

set_threshold-IsSound :
    (n : Option (Bool × ℕ)) (p : LocalSecurityPolicy) → IsSound p → IsSound (set_threshold n p)
unfolding set_threshold
set_threshold-IsSound none p s = s
set_threshold-IsSound (some (negative, v)) p s =
    if_cases IsSound ((not negative || (v == 0)) && leb v 100)
      {x = record p { critical_threshold = v }} {y = p}
      (λ h. record {
        threshold = ground (arith, h);
        window = s.window;
        prefixes = s.prefixes;
        some_prefix = s.some_prefix;
      })
      (λ _. s)

set_window-IsSound :
    (n : Option (Bool × ℕ)) (p : LocalSecurityPolicy) → IsSound p → IsSound (set_window n p)
unfolding set_window
set_window-IsSound none p s = s
set_window-IsSound (some (negative, v)) p s =
    if_cases IsSound ((not negative && ltb 0 v) && leb v max_finding_window_minutes)
      {x = record p { finding_window = v }} {y = p}
      (λ h. record {
        threshold = s.threshold;
        window = (ground (arith, h), ground (arith, h));
        prefixes = s.prefixes;
        some_prefix = s.some_prefix;
      })
      (λ _. s)

snoc_filled : (xs : List Bytes) (x : Bytes) → is_empty (xs ++ (x ∷ [])) ≡ false
snoc_filled [] x = refl
snoc_filled (y ∷ ys) x = refl

load_entry-IsLoading :
    (key value : Bytes) (l : Loading) → IsLoading l → IsLoading (load_entry key value l)
unfolding load_entry
load_entry-IsLoading key value l i =
    if_cases IsLoading (eqb key critical_threshold_key)
      {x = record l { policy = set_threshold (stoi value) l.policy }}
      (λ _. record {
        policy = set_threshold-IsSound (stoi value) l.policy i.policy;
        prefixes = i.prefixes;
        seen = i.seen;
      })
      (λ _.
        if_cases IsLoading (eqb key finding_window_key)
          {x = record l { policy = set_window (stoi value) l.policy }}
          (λ _. record {
            policy = set_window-IsSound (stoi value) l.policy i.policy;
            prefixes = i.prefixes;
            seen = i.seen;
          })
          (λ _.
            if_cases IsLoading (eqb key prefix_key && not (is_empty value))
              {x = record l { prefixes = l.prefixes ++ (value ∷ []); prefixes_seen = true }} {y = l}
              (λ h. record {
                policy = i.policy;
                prefixes =
                    All-append (λ prefix. is_empty prefix ≡ false) l.prefixes (value ∷ [])
                      i.prefixes (ground (arith, h), tt);
                seen = λ _. snoc_filled l.prefixes value;
              })
              (λ _. i)))

load_parts-IsLoading :
    (parts : Option (Bytes × Bytes)) (l : Loading) → IsLoading l → IsLoading (load_parts parts l)
unfolding load_parts
load_parts-IsLoading none l i = i
load_parts-IsLoading (some (key, value)) l i =
    if_cases IsLoading (is_empty key) {x = l} (λ _. i) (λ _. load_entry-IsLoading key value l i)

load_lines-IsLoading : (ls : List Bytes) (l : Loading) → IsLoading l → IsLoading (load_lines ls l)
unfolding load_lines load_line
load_lines-IsLoading [] l i = i
load_lines-IsLoading ([] ∷ ls) l i = load_lines-IsLoading ls l i
load_lines-IsLoading ((c ∷ cs) ∷ ls) l i = load_lines-IsLoading ls _ (
    if_cases IsLoading (c == b'#') {x = l} (λ _. i)
      (λ _. load_parts-IsLoading (split_at b'=' (c ∷ cs)) l i))

default-IsSound : IsSound default_policy
default-IsSound = record {
  threshold = omega arith;
  window = (omega arith, omega arith);
  prefixes = (refl, (refl, tt));
  some_prefix = refl;
}

loaded-IsSound : (l : Loading) → IsLoading l → IsSound (loaded l)
loaded-IsSound l i =
    if_cases IsSound l.prefixes_seen
      {x = record (l.policy) { protected_path_prefixes = l.prefixes }} {y = l.policy}
      (λ h. record {
        threshold = i.policy.threshold;
        window = i.policy.window;
        prefixes = i.prefixes;
        some_prefix = i.seen h;
      })
      (λ _. i.policy)

-- Whatever bytes the file holds, and where there is none, the policy that `load` returns has a threshold of
-- 100 or less, a window from 1 to 1440 minutes, and at least one protected prefix, none of them empty.
pub load-IsSound : (file : Option Bytes) → IsSound (load file)
unfolding load
load-IsSound none = default-IsSound
load-IsSound (some file) = loaded-IsSound _ (
    load_lines-IsLoading (lines file) start_loading
      (record { policy = default-IsSound; prefixes = tt; seen = λ h. absurd (ground (arith, h)) }))
