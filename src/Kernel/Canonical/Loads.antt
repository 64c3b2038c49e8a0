-- ===== src/Kernel/Canonical/Loads.antt =====
-- `json.loads`, by which `read_events` reads stored bytes back, on the texts that `jcs_dumps`
-- writes: there is no white space between tokens, no float, and no pair of surrogate escapes.
use second_brain_coordinatio.Prelude.{
  ℕ, zero, suc, ◌+◌, ◌-◌, ◌*◌, Text, codes, Bool, true, false, Option, none, some, [], ◌∷◌, ltb,
  leb, ◌==◌, ◌&&◌, if◌then◌else◌, length,
}
use second_brain_coordinatio.Prelude.Int.{ℤ, pos, negsuc}
use second_brain_coordinatio.Kernel.Canonical.Json.{
  Value, null, bool, int, str, arr, obj, Items, nil, cons, Fields, end, field, quote, backslash,
}

infixl 5 ◌>>=◌
abbrev pub ◌>>=◌ : {A B : Type 0} → Option A → (A → Option B) → Option B
none >>= f = none
some a >>= f = f a

-- Where a reader stands in a quoted text: in plain text, behind a backslash, or in the digits of
-- `\uXXXX`, with the digits that follow the next one and the value so far.
pub data Mode : Type 0 where
  plain escaped : Mode
  hex : ℕ → ℕ → Mode

pub data StringStep : Type 0 where
  finish reject : StringStep
  go : Mode → StringStep
  put : ℕ → StringStep

unfoldable pub unhex : ℕ → Option ℕ
unhex c =
    if leb b'0' c && leb c b'9'
    then some (c - b'0')
    else if leb b'a' c && leb c b'f'
    then some (c - 87)
    else if leb b'A' c && leb c b'F'
    then some (c - 55)
    else none

unfoldable pub unescape : ℕ → Option ℕ
unescape c =
    if c == quote
    then some quote
    else if c == backslash
    then some backslash
    else if c == b'/'
    then some b'/'
    else if c == b'b'
    then some 8
    else if c == b'f'
    then some 12
    else if c == b'n'
    then some 10
    else if c == b'r'
    then some 13
    else if c == b't'
    then some 9
    else none

abbrev hex_step : ℕ → ℕ → StringStep
hex_step zero v = put v
hex_step (suc k) v = go (hex k v)

unfoldable pub string_step : Mode → ℕ → StringStep
unfolding unhex unescape
string_step plain c =
    if c == quote
    then finish
    else if c == backslash
    then go escaped
    else if ltb c 0x20
    then reject
    else put c
string_step escaped c =
    if c == b'u' then go (hex 3 0) else elim (unescape c) [ none ↦ reject | some d ↦ put d ]
string_step (hex k v) c = elim (unhex c) [ none ↦ reject | some d ↦ hex_step k (v * 16 + d) ]

abbrev pub push : ℕ → Option (Text × Text) → Option (Text × Text)
push c none = none
push c (some (s, rest)) = some (c ∷ s, rest)

-- The text up to the closing quote, and what follows it.
unfoldable pub read_string : Mode → Text → Option (Text × Text)
unfolding string_step
read_string m [] = none
read_string m (c ∷ s) = elim (string_step m c) [
  | finish ↦ some ([], s)
  | reject ↦ none
  | go n ↦ read_string n s
  | put d ↦ push d (read_string plain s)
]

abbrev pub is_digit : ℕ → Bool
is_digit c = leb b'0' c && leb c b'9'

-- The digits at the head of a text, read onto `n`.
unfoldable pub scan : Text → ℕ → ℕ × Text
scan [] n = (n, [])
scan (c ∷ s) n = if is_digit c then scan s (n * 10 + (c - b'0')) else (n, c ∷ s)

-- `0|[1-9]\d*`
unfoldable pub scan_int : Text → Option (ℕ × Text)
unfolding scan
scan_int [] = none
scan_int (c ∷ s) =
    if is_digit c then (if c == b'0' then some (0, s) else some (scan s (c - b'0'))) else none

abbrev pub negate : ℕ → ℤ
negate zero = pos 0
negate (suc n) = negsuc n

unfoldable pub parse_number : Text → Option (Value × Text)
unfolding scan_int
parse_number [] = none
parse_number (c ∷ s) =
    if c == b'-'
    then (do r ← scan_int s; some (int (negate r.0), r.1))
    else (do r ← scan_int (c ∷ s); some (int (pos r.0), r.1))

-- The rest behind an expected literal.
unfoldable pub expect : Text → Text → Option Text
expect [] s = some s
expect (c ∷ l) [] = none
expect (c ∷ l) (d ∷ s) = let rest = expect l s in if c == d then rest else none

-- What the first character of a value says of it.
pub data Kind : Type 0 where
  a_text an_array an_object a_null a_true a_false a_number : Kind

unfoldable pub kind : ℕ → Kind
kind c =
    if c == quote
    then a_text
    else if c == b'['
    then an_array
    else if c == b'{'
    then an_object
    else if c == b'n'
    then a_null
    else if c == b't'
    then a_true
    else if c == b'f'
    then a_false
    else a_number

-- What stands behind an item or a field.
pub data Follow : Type 0 where
  more : Text → Follow
  closed : Text → Follow
  broken : Follow

unfoldable pub follow : ℕ → Text → Follow
follow close [] = broken
follow close (c ∷ s) = if c == b',' then more s else if c == close then closed s else broken

-- Whether a text begins with `close`, and the rest behind it.
unfoldable pub closes : ℕ → Text → Option Text
closes close [] = none
closes close (c ∷ s) = if c == close then some s else none

-- A key with its colon.
unfoldable pub parse_key : Text → Option (Text × Text)
unfolding expect read_string
parse_key s = do
  r ← expect (quote ∷ []) s
  k ← read_string plain r
  v ← expect (b':' ∷ []) k.1
  some (k.0, v)

unfoldable mutual
  unfolding kind follow closes expect read_string parse_number parse_key

  pub parse_value : ℕ → Text → Option (Value × Text)
  parse_value zero s = none
  parse_value (suc fuel) [] = none
  parse_value (suc fuel) (c ∷ s) = elim (kind c) [
    | a_text ↦ (do r ← read_string plain s; some (str r.0, r.1))
    | an_array ↦ elim (closes b']' s) [
      | some rest ↦ some (arr nil, rest)
      | none ↦ (do r ← parse_items fuel s; some (arr r.0, r.1))
    ]
    | an_object ↦ elim (closes b'}' s) [
      | some rest ↦ some (obj end, rest)
      | none ↦ (do r ← parse_fields fuel s; some (obj r.0, r.1))
    ]
    | a_null ↦ (do rest ← expect (codes "ull") s; some (null, rest))
    | a_true ↦ (do rest ← expect (codes "rue") s; some (bool true, rest))
    | a_false ↦ (do rest ← expect (codes "alse") s; some (bool false, rest))
    | a_number ↦ parse_number (c ∷ s)
  ]

  -- One or more items, and the closing bracket.
  pub parse_items : ℕ → Text → Option (Items × Text)
  parse_items zero s = none
  parse_items (suc fuel) s = do
    r ← parse_value fuel s
    elim (follow b']' r.1) [
      | broken ↦ none
      | closed rest ↦ some (cons r.0 nil, rest)
      | more rest ↦ (do t ← parse_items fuel rest; some (cons r.0 t.0, t.1))
    ]

  -- One or more fields, and the closing brace.
  pub parse_fields : ℕ → Text → Option (Fields × Text)
  parse_fields zero s = none
  parse_fields (suc fuel) s = do
    k ← parse_key s
    r ← parse_value fuel k.1
    elim (follow b'}' r.1) [
      | broken ↦ none
      | closed rest ↦ some (field k.0 r.0 end, rest)
      | more rest ↦ (do t ← parse_fields fuel rest; some (field k.0 r.0 t.0, t.1))
    ]

abbrev whole : Option (Value × Text) → Option Value
whole (some (v, [])) = some v
whole _ = none

-- Two rounds for each character are enough fuel.
unfoldable pub loads : Text → Option Value
unfolding parse_value
loads s = whole (parse_value (2 * length s + 2) s)
