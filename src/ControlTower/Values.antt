-- ===== src/ControlTower/Values.antt =====
-- Values that `yaml.safe_load` returns, as the modules of coordination/CONTROL-TOWER read them: a
-- mapping is a dict, and `get`, truth, `or` and `str` are Python's.
use second_brain_coordinatio.Prelude.{
  ℕ, Text, codes, Bool, true, false, Option, none, some, List, [], ◌∷◌, ltb, ◌==◌, if◌then◌else◌,
  not, text_eq, Dict, lookup, map,
}
use second_brain_coordinatio.Prelude.Int.{ℤ, pos, negsuc}
use second_brain_coordinatio.Kernel.Canonical.Json.{
  Value, null, bool, int, str, arr, obj, Items, nil, cons, Fields, end, field, jcs_number, text_le,
  jcs_dumps,
}

abbrev pub Mapping : Type 0
Mapping = Dict Value

-- `m.get(key)`, where None stands for a missing key.
unfoldable pub get : Mapping → Text → Value
unfolding lookup
get m key = elim (lookup key m) [ none ↦ null | some v ↦ v ]

-- `bool(v)`
unfoldable pub truthy : Value → Bool
truthy null = false
truthy (bool b) = b
truthy (int (pos n)) = not (n == 0)
truthy (int (negsuc n)) = true
truthy (str []) = false
truthy (str (c ∷ s)) = true
truthy (arr nil) = false
truthy (arr (cons v xs)) = true
truthy (obj end) = false
truthy (obj (field k v fs)) = true

-- `v is None`
unfoldable pub is_none : Value → Bool
is_none null = true
is_none _ = false

-- `v is True`
unfoldable pub is_true : Value → Bool
is_true (bool b) = b
is_true _ = false

-- `v is False`
unfoldable pub is_false : Value → Bool
is_false (bool b) = not b
is_false _ = false

-- `v == t` for a text
unfoldable pub is_text : Text → Value → Bool
is_text t (str s) = text_eq s t
is_text t _ = false

-- `v or w`
unfoldable pub or_else : Value → Value → Value
unfolding truthy
or_else v w = if truthy v then v else w

-- The dict of an object's fields.
unfoldable pub dict_of : Fields → Mapping
dict_of end = []
dict_of (field k v fs) = (k, v) ∷ dict_of fs

unfoldable pub fields_of : Mapping → Fields
fields_of [] = end
fields_of ((k, v) ∷ m) = field k v (fields_of m)

-- A dict as a value.
unfoldable pub obj_of : Mapping → Value
unfolding fields_of
obj_of m = obj (fields_of m)

-- `v if isinstance(v, dict)`
unfoldable pub mapping_of : Value → Option Mapping
unfolding dict_of
mapping_of (obj fs) = some (dict_of fs)
mapping_of _ = none

unfoldable pub list_of : Items → List Value
list_of nil = []
list_of (cons v xs) = v ∷ list_of xs

unfoldable pub items_of : List Value → Items
items_of [] = nil
items_of (v ∷ vs) = cons v (items_of vs)

-- A list of texts as a value.
unfoldable pub texts_value : List Text → Value
unfolding items_of
texts_value ts = arr (items_of (map str ts))

-- `str(n)` of a counter.
unfoldable pub number_text : ℕ → Text
unfolding jcs_number
number_text n = jcs_number (pos n) []

-- `repr` of a list or of a dict is a parameter; the rest of `str` is written out.
module _ (repr : Value → Text) where
  unfoldable pub str_of : Value → Text
  unfolding jcs_number
  str_of null = codes "None"
  str_of (bool true) = codes "True"
  str_of (bool false) = codes "False"
  str_of (int n) = jcs_number n []
  str_of (str s) = s
  str_of (arr xs) = repr (arr xs)
  str_of (obj fs) = repr (obj fs)

  -- `str(v or "")`
  unfoldable pub text_or_empty : Value → Text
  unfolding str_of truthy
  text_or_empty v = if truthy v then str_of v else []

-- `s < t`
unfoldable pub text_lt : Text → Text → Bool
unfolding text_le
text_lt s t = not (text_le t s)

-- `m < n`
unfoldable pub int_lt : ℤ → ℤ → Bool
int_lt (pos m) (pos n) = ltb m n
int_lt (pos m) (negsuc n) = false
int_lt (negsuc m) (pos n) = true
int_lt (negsuc m) (negsuc n) = ltb n m

-- A text put into a list without repetitions in ascending order.
unfoldable pub insert_text : Text → List Text → List Text
unfolding text_lt
insert_text t [] = t ∷ []
insert_text t (u ∷ us) =
    if text_eq t u then u ∷ us else if text_lt t u then t ∷ u ∷ us else u ∷ insert_text t us

-- `sorted(set(ts))`
unfoldable pub sorted_set : List Text → List Text
unfolding insert_text
sorted_set [] = []
sorted_set (t ∷ ts) = insert_text t (sorted_set ts)

-- `json.dumps(v, ensure_ascii=False, sort_keys=True, separators=(",", ":"))`, which escapes as
-- `jcs_dumps` does.
unfoldable pub canonical : Value → Text
unfolding jcs_dumps
canonical v = jcs_dumps v
