-- ===== src/Engines/Yara.antt =====
-- src/engines/yara_engine.cpp: the search for patterns and the condition of a rule. An index stands where
-- the source has it, and each is below the length that the source has checked. The table of 256 shifts is
-- a function of the byte.
pub mod Shifts
pub mod Horspool
pub mod Exact
pub mod Scan
pub mod Hits
use gcad.Base.{
  ℕ, zero, suc, ◌+◌, ◌-◌, ◌*◌, ◌/◌, ◌%◌, ◌^◌, Bool, true, false, not, ◌&&◌, ◌||◌, List, [], ◌∷◌,
  ◌++◌, Option, none, some, if◌then◌else◌, ltb, leb, ◌==◌, length, get_or, map,
}
use gcad.Base.Bytes.{Bytes, is_empty, eqb}
use gcad.Base.Dict.{lookup, put}
use gcad.Common.{ThreatLevel}
use Prim.Native.Nat.{bit_and, bit_or}

pub record YaraString : Type 0 where
  pub identifier : Bytes
  pub pattern : Bytes
  pub mask : Bytes
  pub is_hex : Bool
  pub nocase : Bool
  pub wide : Bool
  pub ascii : Bool

pub data ConditionOp : Type 0 where
  all_of_them any_of_them count_ge : ConditionOp

pub record YaraRule : Type 0 where
  pub name : Bytes
  pub description : Bytes
  pub tags : List Bytes
  pub strings : List YaraString
  pub condition : ConditionOp
  pub condition_count : ℕ
  pub threat_level : ThreatLevel

pub record YaraMatch : Type 0 where
  pub rule_name : Bytes
  pub matched_string_id : Bytes
  pub offset : ℕ
  pub match_length : ℕ

abbrev is_between : ℕ → ℕ → ℕ → Bool
is_between lo hi c = leb lo c && leb c hi

unfoldable pub lower : ℕ → ℕ
lower c = if is_between b'A' b'Z' c then c - b'A' + b'a' else c

unfoldable pub upper : ℕ → ℕ
upper c = if is_between b'a' b'z' c then c - b'a' + b'A' else c

-- The value of a digit of either case.
unfoldable pub hex_val : ℕ → Option ℕ
hex_val c =
    if is_between b'0' b'9' c
    then some (c - b'0')
    else if is_between b'a' b'f' c
    then some (c - b'a' + 10)
    else if is_between b'A' b'F' c
    then some (c - b'A' + 10)
    else none

-- The byte of two digits.
abbrev pub hex_byte : Option ℕ → Option ℕ → Option ℕ
hex_byte (some h) (some l) = some (bit_or (h * 2 ^ 4) l % 2 ^ 8)
hex_byte _ _ = none

abbrev pub is_filler : ℕ → Bool
is_filler c = (c == b' ') || ((c == b'{') || (c == b'}'))

-- A byte before the others, with its mask.
abbrev pub push_front : ℕ → ℕ → Option (Bytes × Bytes) → Option (Bytes × Bytes)
push_front b m none = none
push_front b m (some parts) = some (b ∷ parts.0, m ∷ parts.1)

-- The pattern and its mask, read from the characters left; a question mark, or two, is any byte.
unfoldable pub hex_loop : Bytes → Option (Bytes × Bytes)
unfolding hex_val
hex_loop [] = some ([], [])
hex_loop (c ∷ []) =
    if is_filler c then some ([], []) else if c == b'?' then some (0 ∷ [], 0 ∷ []) else none
hex_loop (c ∷ (d ∷ cs)) =
    let one = hex_loop (d ∷ cs) in
    let two = hex_loop cs in
    if is_filler c
    then one
    else if c == b'?'
    then (if d == b'?' then push_front 0 0 two else push_front 0 0 one)
    else elim (hex_byte (hex_val c) (hex_val d)) [ none ↦ none | some b ↦ push_front b 0xff two ]

-- A pattern without a byte is refused.
abbrev pub some_pattern : Option (Bytes × Bytes) → Option (Bytes × Bytes)
some_pattern none = none
some_pattern (some parts) = if is_empty parts.0 then none else some parts

unfoldable pub parse_hex_pattern : Bytes → Option (Bytes × Bytes)
unfolding hex_loop
parse_hex_pattern hex_str = some_pattern (hex_loop hex_str)

unfoldable pub widen : Bytes → Bytes
widen [] = []
widen (c ∷ cs) = c ∷ (0 ∷ widen cs)

unfoldable pub text_to_pattern : Bytes → Bool → Bytes
unfolding widen
text_to_pattern text wide = if wide then widen text else text

unfoldable pub has_wildcards : Bytes → Bool
has_wildcards [] = false
has_wildcards (m ∷ ms) = not (m == 0xff) || has_wildcards ms

abbrev pub folds_case : YaraString → Bool
folds_case str = str.nocase && not str.is_hex

-- The comparison of two bytes without a mask.
abbrev pub same_byte : YaraString → ℕ → ℕ → Bool
same_byte str d p = if folds_case str then lower d == lower p else d == p

abbrev pub write : (ℕ → ℕ) → ℕ → ℕ → ℕ → ℕ
write shift b v x = if x == b then v else shift x

-- The body of the loop that fills the table, for the byte j of the pattern.
unfoldable pub write_shift : YaraString → ℕ → (ℕ → ℕ) → ℕ → ℕ
unfolding lower upper
write_shift str j shift =
    let p = get_or str.pattern j 0 in
    let v = length str.pattern - 1 - j in
    if folds_case str then write (write shift (lower p) v) (upper p) v else write shift p v

-- The loop from j on, with the turns that are left.
unfoldable pub fill_shifts : YaraString → ℕ → ℕ → (ℕ → ℕ) → ℕ → ℕ
unfolding write_shift
fill_shifts str zero j shift = shift
fill_shifts str (suc left) j shift = fill_shifts str left (j + 1) (write_shift str j shift)

unfoldable pub shifts : YaraString → ℕ → ℕ
unfolding fill_shifts
shifts str = fill_shifts str (length str.pattern - 1) 0 (λ _. length str.pattern)

-- The comparison at position i from the byte before j down.
unfoldable pub matches_down : Bytes → YaraString → ℕ → ℕ → Bool
unfolding lower
matches_down data_ str i zero = true
matches_down data_ str i (suc j) =
    let rest = matches_down data_ str i j in
    if same_byte str (get_or data_ (i + j) 0) (get_or str.pattern j 0) then rest else false

-- The byte under the pattern's end, as the table is asked.
abbrev pub last_byte : Bytes → YaraString → ℕ → ℕ
last_byte data_ str i =
    let last = get_or data_ (i + length str.pattern - 1) 0 in
    if folds_case str then lower last else last

-- The loop over the positions up to `last_pos`, with fuel.
unfoldable pub horspool : Bytes → YaraString → ℕ → ℕ → ℕ → List ℕ
unfolding matches_down shifts lower
horspool data_ str last_pos zero i = []
horspool data_ str last_pos (suc fuel) i =
    let match = matches_down data_ str i (length str.pattern) in
    let step = if match then 1 else shifts str (last_byte data_ str i) in
    let rest = horspool data_ str last_pos fuel (i + step) in
    if not (leb i last_pos) then [] else if match then i ∷ rest else rest

-- The comparison of two bytes under a mask.
abbrev pub same_masked : YaraString → ℕ → ℕ → ℕ → Bool
same_masked str d p m =
    if folds_case str && (m == 0xff)
    then bit_and (lower d) m == bit_and (lower p) m
    else bit_and d m == bit_and p m

-- The comparison at position i from the byte j on, of which so many are left.
unfoldable pub matches_up : Bytes → YaraString → ℕ → ℕ → ℕ → Bool
unfolding lower
matches_up data_ str i zero j = true
matches_up data_ str i (suc left) j =
    let rest = matches_up data_ str i left (j + 1) in
    let m = if ltb j (length str.mask) then get_or str.mask j 0 else 0xff in
    if same_masked str (get_or data_ (i + j) 0) (get_or str.pattern j 0) m then rest else false

-- The loop over all positions, of which so many are left.
unfoldable pub every_position : Bytes → YaraString → ℕ → ℕ → List ℕ
unfolding matches_up
every_position data_ str zero i = []
every_position data_ str (suc left) i =
    let rest = every_position data_ str left (i + 1) in
    if matches_up data_ str i (length str.pattern) 0 then i ∷ rest else rest

unfoldable pub find_pattern : Bytes → YaraString → List ℕ
unfolding horspool every_position has_wildcards
find_pattern data_ str =
    let last_pos = length data_ - length str.pattern in
    if is_empty str.pattern || ltb (length data_) (length str.pattern)
    then []
    else if leb 4 (length str.pattern) && not (has_wildcards str.mask)
    then horspool data_ str last_pos (length data_ + 1) 0
    else every_position data_ str (last_pos + 1) 0
