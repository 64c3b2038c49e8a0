-- ===== src/Kernel/Canonical/Json.antt =====
-- canonical.py: `_jcs_escape`, `_jcs_number` on integers and `jcs_dumps`.
use second_brain_coordinatio.Prelude.{
  ℕ, zero, suc, ◌+◌, ◌/◌, ◌%◌, Text, codes, Bool, true, false, List, [], ◌∷◌, ◌++◌, ltb, ◌==◌, ◌&&◌,
  ◌||◌, if◌then◌else◌,
}
use second_brain_coordinatio.Prelude.Int.{ℤ, pos, negsuc}

-- A JSON value; the fields of an object stand in the order of the dict.
mutual
  pub data Value : Type 0 where
    null : Value
    bool : Bool → Value
    int : ℤ → Value
    str : Text → Value
    arr : Items → Value
    obj : Fields → Value

  pub data Items : Type 0 where
    nil : Items
    cons : Value → Items → Items

  pub data Fields : Type 0 where
    end : Fields
    field : Text → Value → Fields → Fields

abbrev pub text_of_repeat : ℕ → ℕ → Text
text_of_repeat zero c = []
text_of_repeat (suc n) c = c ∷ text_of_repeat n c

abbrev pub quote : ℕ
quote = b'"'

abbrev pub backslash : ℕ
backslash = b'\\'

-- A digit of `%04x`.
unfoldable pub hex_digit : ℕ → ℕ
hex_digit d = if ltb d 10 then d + b'0' else d + 87

-- What one round of the loop of `_jcs_escape` appends.
unfoldable pub escape_char : ℕ → Text
escape_char c =
    if c == quote
    then backslash ∷ quote ∷ []
    else if c == backslash
    then backslash ∷ backslash ∷ []
    else if c == 8
    then backslash ∷ b'b' ∷ []
    else if c == 12
    then backslash ∷ b'f' ∷ []
    else if c == 10
    then backslash ∷ b'n' ∷ []
    else if c == 13
    then backslash ∷ b'r' ∷ []
    else if c == 9
    then backslash ∷ b't' ∷ []
    else if ltb c 0x20
    then backslash ∷ b'u' ∷ b'0' ∷ b'0' ∷ hex_digit (c / 16) ∷ hex_digit (c % 16) ∷ []
    else c ∷ []

unfoldable pub jcs_escape : Text → Text
jcs_escape [] = []
jcs_escape (c ∷ s) = escape_char c ++ jcs_escape s

-- The decimal digits of `n` in front of `out`; more fuel than `n` is enough.
unfoldable pub emit : ℕ → ℕ → Text → Text
emit zero n out = out
emit (suc fuel) n out =
    let rest = emit fuel (n / 10) ((b'0' + n % 10) ∷ out) in
    if ltb n 10 then (b'0' + n) ∷ out else rest

-- `str(n)`
unfoldable pub jcs_number : ℤ → Text → Text
jcs_number (pos n) out = emit (suc n) n out
jcs_number (negsuc n) out = b'-' ∷ emit (suc (suc n)) (suc n) out

-- `k <= j`, in the order of code points, which is Python's order of texts
unfoldable pub text_le : Text → Text → Bool
text_le [] t = true
text_le (c ∷ s) [] = false
text_le (c ∷ s) (d ∷ t) = ltb c d || (c == d) && text_le s t

-- `sorted(value.items(), key=lambda kv: kv[0])`, a stable sort by the key
module _ {ℓ} {A : Type ℓ} where
  unfoldable pub insert_item : Text × A → List (Text × A) → List (Text × A)
  unfolding text_le
  insert_item e [] = e ∷ []
  insert_item e (f ∷ l) = if text_le e.0 f.0 then e ∷ f ∷ l else f ∷ insert_item e l

  unfoldable pub sort_items : List (Text × A) → List (Text × A)
  unfolding insert_item
  sort_items [] = []
  sort_items (e ∷ l) = insert_item e (sort_items l)

-- A quoted text in front of `out`.
unfoldable pub quoted : Text → Text → Text
unfolding jcs_escape
quoted s out = quote ∷ (jcs_escape s ++ quote ∷ out)

-- `",".join(...)` of the fields, each a key and the text of its value.
unfoldable pub join_fields : List (Text × Text) → Text → Text
unfolding quoted
join_fields [] out = out
join_fields ((k, v) ∷ []) out = quoted k (b':' ∷ (v ++ out))
join_fields ((k, v) ∷ f ∷ l) out = quoted k (b':' ∷ (v ++ b',' ∷ join_fields (f ∷ l) out))

-- `",".join(...)` of the items.
unfoldable pub join_items : List Text → Text → Text
join_items [] out = out
join_items (v ∷ []) out = v ++ out
join_items (v ∷ w ∷ l) out = v ++ b',' ∷ join_items (w ∷ l) out

unfoldable mutual
  pub jcs_dumps : Value → Text
  jcs_dumps null = codes "null"
  jcs_dumps (bool true) = codes "true"
  jcs_dumps (bool false) = codes "false"
  jcs_dumps (int n) = jcs_number n []
  jcs_dumps (str s) = quoted s []
  jcs_dumps (arr xs) = b'[' ∷ join_items (dumps_items xs) (b']' ∷ [])
  jcs_dumps (obj fs) = b'{' ∷ join_fields (sort_items (dumps_fields fs)) (b'}' ∷ [])

  -- `jcs_dumps` of each item
  pub dumps_items : Items → List Text
  dumps_items nil = []
  dumps_items (cons v xs) = jcs_dumps v ∷ dumps_items xs

  -- `jcs_dumps` of each value, beside its key
  pub dumps_fields : Fields → List (Text × Text)
  dumps_fields end = []
  dumps_fields (field k v fs) = (k, jcs_dumps v) ∷ dumps_fields fs
