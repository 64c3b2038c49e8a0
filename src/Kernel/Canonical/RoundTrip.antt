-- ===== src/Kernel/Canonical/RoundTrip.antt =====
-- Canonical JSON read back: lemmas on `json.loads` applied to the output of `jcs_dumps`.
use mathlib.Core.Option.{some-injective}
use second_brain_coordinatio.Prelude.{
  ℕ, zero, suc, ◌+◌, ◌/◌, ◌%◌, Text, ◌≡◌, ◌↔◌, refl, sym, true, false, some, List, [], ◌∷◌, ◌++◌,
  arith, ◌∙◌, ap, append_assoc,
}
use second_brain_coordinatio.Prelude.Int.{ℤ, pos, negsuc}
use second_brain_coordinatio.Kernel.Canonical.Json.{
  Value, null, bool, int, str, arr, obj, Items, nil, cons, Fields, end, field, quote, quoted,
  jcs_number, jcs_escape, emit, sort_items, join_items, join_fields, jcs_dumps, dumps_items,
  dumps_fields,
}
use second_brain_coordinatio.Kernel.Canonical.Loads.{loads}
use second_brain_coordinatio.Kernel.Canonical.Raw.{raw, raw_items, raw_fields, loads-raw}
use second_brain_coordinatio.Kernel.Canonical.Order.{
  map_values, sort_items-map_values, sort_items_idem,
}

abbrev of_list : List (Text × Value) → Fields
of_list [] = end
of_list ((k, v) ∷ l) = field k v (of_list l)

-- A value with the fields of every object sorted by their keys: the value up to the order of
-- fields, which Python's comparison of dicts ignores.
unfoldable mutual
  pub canon : Value → Value
  canon null = null
  canon (bool b) = bool b
  canon (int n) = int n
  canon (str s) = str s
  canon (arr xs) = arr (canon_items xs)
  canon (obj fs) = obj (of_list (sort_items (canon_fields fs)))

  pub canon_items : Items → Items
  canon_items nil = nil
  canon_items (cons v xs) = cons (canon v) (canon_items xs)

  pub canon_fields : Fields → List (Text × Value)
  canon_fields end = []
  canon_fields (field k v fs) = (k, canon v) ∷ canon_fields fs

emit-append : (fuel n : ℕ) (a b : Text) → emit fuel n a ++ b ≡ emit fuel n (a ++ b)
unfolding emit
emit-append zero n a b = refl
emit-append (suc fuel) n a b = ground (arith, emit-append fuel (n / 10) ((b'0' + n % 10) ∷ a) b)

jcs_number-append : (n : ℤ) (a b : Text) → jcs_number n a ++ b ≡ jcs_number n (a ++ b)
unfolding jcs_number
jcs_number-append (pos n) a b = emit-append (suc n) n a b
jcs_number-append (negsuc n) a b = ap (λ s. b'-' ∷ s) (emit-append (suc (suc n)) (suc n) a b)

quoted-append : (s a b : Text) → quoted s a ++ b ≡ quoted s (a ++ b)
unfolding quoted
quoted-append s a b = ap (λ t. quote ∷ t) (append_assoc (jcs_escape s) (quote ∷ a) b)

mutual
  unfolding raw

  raw-append : (v : Value) (a b : Text) → raw v a ++ b ≡ raw v (a ++ b)
  raw-append null a b = refl
  raw-append (bool true) a b = refl
  raw-append (bool false) a b = refl
  raw-append (int n) a b = jcs_number-append n a b
  raw-append (str s) a b = quoted-append s a b
  raw-append (arr nil) a b = refl
  raw-append (arr (cons v xs)) a b =
      rw (raw-append v (raw_items xs a) b, raw_items-append xs a b) refl
  raw-append (obj end) a b = refl
  raw-append (obj (field k v fs)) a b =
      rw
        (
          quoted-append k (b':' ∷ raw v (raw_fields fs a)) b,
          raw-append v (raw_fields fs a) b,
          raw_fields-append fs a b,
        )
        refl

  raw_items-append : (xs : Items) (a b : Text) → raw_items xs a ++ b ≡ raw_items xs (a ++ b)
  raw_items-append nil a b = refl
  raw_items-append (cons v xs) a b =
      rw (raw-append v (raw_items xs a) b, raw_items-append xs a b) refl

  raw_fields-append : (fs : Fields) (a b : Text) → raw_fields fs a ++ b ≡ raw_fields fs (a ++ b)
  raw_fields-append end a b = refl
  raw_fields-append (field k v fs) a b =
      rw
        (
          quoted-append k (b':' ∷ raw v (raw_fields fs a)) b,
          raw-append v (raw_fields fs a) b,
          raw_fields-append fs a b,
        )
        refl

-- The text of one value, closed.
abbrev closed_text : Value → Text
closed_text v = raw v []

join_fields-raw_fields :
    (k : Text) (v : Value) (l : List (Text × Value))
    → join_fields (map_values closed_text ((k, v) ∷ l)) (b'}' ∷ [])
      ≡ quoted k (b':' ∷ raw v (raw_fields (of_list l) []))
unfolding raw join_fields
join_fields-raw_fields k v [] = rw (raw-append v [] (b'}' ∷ [])) refl
join_fields-raw_fields k v ((j, w) ∷ l) =
    rw
      (
        join_fields-raw_fields j w l,
        raw-append v [] (b',' ∷ quoted j (b':' ∷ raw w (raw_fields (of_list l) []))),
      )
      refl

join_fields-of_list :
    (l : List (Text × Value))
    → b'{' ∷ join_fields (map_values closed_text l) (b'}' ∷ []) ≡ raw (obj (of_list l)) []
unfolding raw join_fields
join_fields-of_list [] = refl
join_fields-of_list ((k, v) ∷ l) = ap (λ t. b'{' ∷ t) (join_fields-raw_fields k v l)

mutual
  unfolding jcs_dumps canon raw join_items

  jcs_dumps-raw : (v : Value) → jcs_dumps v ≡ raw (canon v) []
  jcs_dumps-raw null = refl
  jcs_dumps-raw (bool true) = refl
  jcs_dumps-raw (bool false) = refl
  jcs_dumps-raw (int n) = refl
  jcs_dumps-raw (str s) = refl
  jcs_dumps-raw (arr nil) = refl
  jcs_dumps-raw (arr (cons v xs)) =
      ap (λ t. b'[' ∷ t) (join_items-raw (jcs_dumps v) (canon v) xs (jcs_dumps-raw v))
  jcs_dumps-raw (obj fs) =
      rw (dumps_fields-raw fs, sort_items-map_values closed_text (canon_fields fs))
        (join_fields-of_list (sort_items (canon_fields fs)))

  join_items-raw :
      (t : Text) (w : Value) (xs : Items)
      → t ≡ raw w []
      → join_items (t ∷ dumps_items xs) (b']' ∷ []) ≡ raw w (raw_items (canon_items xs) [])
  join_items-raw t w nil e = rw (e, raw-append w [] (b']' ∷ [])) refl
  join_items-raw t w (cons x xs) e =
      rw
        (
          join_items-raw (jcs_dumps x) (canon x) xs (jcs_dumps-raw x),
          e,
          raw-append w [] (b',' ∷ raw (canon x) (raw_items (canon_items xs) [])),
        )
        refl

  dumps_fields-raw : (fs : Fields) → dumps_fields fs ≡ map_values closed_text (canon_fields fs)
  dumps_fields-raw end = refl
  dumps_fields-raw (field k v fs) = rw (jcs_dumps-raw v, dumps_fields-raw fs) refl

canon_fields-of_list : (l : List (Text × Value)) → canon_fields (of_list l) ≡ map_values canon l
unfolding canon
canon_fields-of_list [] = refl
canon_fields-of_list ((k, v) ∷ l) = ap (λ r. (k, canon v) ∷ r) (canon_fields-of_list l)

mutual
  unfolding canon

  pub canon_idem : (v : Value) → canon (canon v) ≡ canon v
  canon_idem null = refl
  canon_idem (bool b) = refl
  canon_idem (int n) = refl
  canon_idem (str s) = refl
  canon_idem (arr xs) = ap arr (canon_items_idem xs)
  canon_idem (obj fs) =
      ap (λ l. obj (of_list l))
        (ap sort_items (canon_fields-of_list (sort_items (canon_fields fs)))
          ∙ sort_items-map_values canon (sort_items (canon_fields fs))
          ∙ ap (map_values canon) (sort_items_idem (canon_fields fs))
          ∙ sym (sort_items-map_values canon (canon_fields fs))
          ∙ ap sort_items (canon_fields_idem fs))

  canon_items_idem : (xs : Items) → canon_items (canon_items xs) ≡ canon_items xs
  canon_items_idem nil = refl
  canon_items_idem (cons v xs) = rw (canon_idem v, canon_items_idem xs) refl

  canon_fields_idem : (fs : Fields) → map_values canon (canon_fields fs) ≡ canon_fields fs
  canon_fields_idem end = refl
  canon_fields_idem (field k v fs) = rw (canon_idem v, canon_fields_idem fs) refl

-- What `jcs_dumps` writes, the parser reads back as the same value with the fields of every
-- object in the order of their keys.
pub loads-jcs_dumps : (v : Value) → loads (jcs_dumps v) ≡ some (canon v)
loads-jcs_dumps v = rw (jcs_dumps-raw v) (loads-raw (canon v))

-- The text does not depend on the order in which the fields of an object stand.
pub jcs_dumps-canon : (v : Value) → jcs_dumps (canon v) ≡ jcs_dumps v
jcs_dumps-canon v = rw (jcs_dumps-raw (canon v), canon_idem v, jcs_dumps-raw v) refl

-- Two values have one canonical text exactly when they differ at most in the order of fields.
pub jcs_dumps-eq_iff : (v w : Value) → (jcs_dumps v ≡ jcs_dumps w) ↔ (canon v ≡ canon w)
jcs_dumps-eq_iff v w = (
  λ e.
      some-injective (canon v) (canon w) (sym (loads-jcs_dumps v) ∙ ap loads e ∙ loads-jcs_dumps w),
  λ e. sym (jcs_dumps-canon v) ∙ ap jcs_dumps e ∙ jcs_dumps-canon w,
)
