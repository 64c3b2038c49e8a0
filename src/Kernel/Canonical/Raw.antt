-- ===== src/Kernel/Canonical/Raw.antt =====
-- A JSON text with the fields in the order of the value, and its parsing.
use second_brain_coordinatio.Prelude.{
  ℕ, zero, suc, ◌+◌, ◌*◌, ◌/◌, ◌%◌, ◌≤◌, ◌<◌, Text, codes, ◌≡◌, refl, true, false, none, some, [],
  ◌∷◌, ◌++◌, arith, length, length-append,
}
use second_brain_coordinatio.Prelude.Int.{ℤ, pos, negsuc}
use second_brain_coordinatio.Kernel.Canonical.Json.{
  Value, null, bool, int, str, arr, obj, Items, nil, cons, Fields, end, field, quote, quoted,
  jcs_number, jcs_escape, emit,
}
use second_brain_coordinatio.Kernel.Canonical.Loads.{
  a_number, kind, closes, expect, parse_key, parse_value, parse_items, parse_fields, parse_number,
  loads,
}
use second_brain_coordinatio.Kernel.Canonical.Escape.{read_string-jcs_escape}
use second_brain_coordinatio.Kernel.Canonical.Number.{EndsNumber, parse_number-jcs_number}

unfoldable mutual
  -- The text of a value in front of `out`.
  pub raw : Value → Text → Text
  raw null out = codes "null" ++ out
  raw (bool true) out = codes "true" ++ out
  raw (bool false) out = codes "false" ++ out
  raw (int n) out = jcs_number n out
  raw (str s) out = quoted s out
  raw (arr nil) out = b'[' ∷ b']' ∷ out
  raw (arr (cons v xs)) out = b'[' ∷ raw v (raw_items xs out)
  raw (obj end) out = b'{' ∷ b'}' ∷ out
  raw (obj (field k v fs)) out = b'{' ∷ quoted k (b':' ∷ raw v (raw_fields fs out))

  -- The items that follow the first one, and the bracket.
  pub raw_items : Items → Text → Text
  raw_items nil out = b']' ∷ out
  raw_items (cons v xs) out = b',' ∷ raw v (raw_items xs out)

  -- The fields that follow the first one, and the brace.
  pub raw_fields : Fields → Text → Text
  raw_fields end out = b'}' ∷ out
  raw_fields (field k v fs) out = b',' ∷ quoted k (b':' ∷ raw v (raw_fields fs out))

-- The fuel that parsing takes.
unfoldable mutual
  pub weight : Value → ℕ
  weight null = 0
  weight (bool b) = 0
  weight (int n) = 0
  weight (str s) = 0
  weight (arr xs) = 1 + weight_items xs
  weight (obj fs) = 1 + weight_fields fs

  pub weight_items : Items → ℕ
  weight_items nil = 0
  weight_items (cons v xs) = 1 + weight v + weight_items xs

  pub weight_fields : Fields → ℕ
  weight_fields end = 0
  weight_fields (field k v fs) = 1 + weight v + weight_fields fs

raw_items-EndsNumber : (xs : Items) (out : Text) → EndsNumber (raw_items xs out)
unfolding raw
raw_items-EndsNumber nil out = refl
raw_items-EndsNumber (cons v xs) out = refl

raw_fields-EndsNumber : (fs : Fields) (out : Text) → EndsNumber (raw_fields fs out)
unfolding raw
raw_fields-EndsNumber end out = refl
raw_fields-EndsNumber (field k v fs) out = refl

-- No value begins with the bracket that closes a list.
closes-raw : (v : Value) (out : Text) → EndsNumber out → closes b']' (raw v out) ≡ none
unfolding raw closes quoted
closes-raw null out h = refl
closes-raw (bool true) out h = refl
closes-raw (bool false) out h = refl
closes-raw (int n) out h =
    let (c, s, e, k, ne, p) = parse_number-jcs_number n out h in rw (e, ne) refl
closes-raw (str s) out h = refl
closes-raw (arr nil) out h = refl
closes-raw (arr (cons v xs)) out h = refl
closes-raw (obj end) out h = refl
closes-raw (obj (field k v fs)) out h = refl

parse_key-quoted : (k rest : Text) → parse_key (quoted k (b':' ∷ rest)) ≡ some (k, rest)
unfolding parse_key quoted expect
parse_key-quoted k rest = rw (read_string-jcs_escape k (b':' ∷ rest)) refl

parse_number-raw :
    (fuel : ℕ) (n : ℤ) (out : Text)
    → EndsNumber out
    → parse_value (suc fuel) (jcs_number n out) ≡ some (int n, out)
unfolding parse_value
parse_number-raw fuel n out h =
    let (c, s, e, k, ne, p) = parse_number-jcs_number n out h in rw e (by_kind c s k p)
  where
    by_kind :
        (c : ℕ) (s : Text)
        → kind c ≡ a_number
        → parse_number (c ∷ s) ≡ some (int n, out)
        → parse_value (suc fuel) (c ∷ s) ≡ some (int n, out)
    by_kind c s k p = ground arith

parse_text-raw :
    (fuel : ℕ) (s out : Text) → parse_value (suc fuel) (quoted s out) ≡ some (str s, out)
unfolding parse_value kind quoted
parse_text-raw fuel s out = rw (read_string-jcs_escape s out) refl

parse_array-raw :
    (fuel : ℕ) (xs : Items) (s out : Text)
    → closes b']' s ≡ none
    → parse_items fuel s ≡ some (xs, out)
    → parse_value (suc fuel) (b'[' ∷ s) ≡ some (arr xs, out)
unfolding parse_value kind
parse_array-raw fuel xs s out h p = ground arith

parse_object-raw :
    (fuel : ℕ) (k : Text) (fs : Fields) (s out : Text)
    → parse_fields fuel (quoted k s) ≡ some (fs, out)
    → parse_value (suc fuel) (b'{' ∷ quoted k s) ≡ some (obj fs, out)
unfolding parse_value kind quoted closes
parse_object-raw fuel k fs s out p = rw p refl

mutual
  unfolding parse_value raw weight

  parse_value-raw :
      (v : Value) (fuel : ℕ) (out : Text)
      → weight v < fuel
      → EndsNumber out
      → parse_value fuel (raw v out) ≡ some (v, out)
  parse_value-raw null (suc fuel) out w h = refl
  parse_value-raw (bool true) (suc fuel) out w h = refl
  parse_value-raw (bool false) (suc fuel) out w h = refl
  parse_value-raw (int n) (suc fuel) out w h = parse_number-raw fuel n out h
  parse_value-raw (str s) (suc fuel) out w h = parse_text-raw fuel s out
  parse_value-raw (arr nil) (suc fuel) out w h = refl
  parse_value-raw (arr (cons v xs)) (suc fuel) out w h =
      parse_array-raw fuel (cons v xs) (raw v (raw_items xs out)) out
        (closes-raw v (raw_items xs out) (raw_items-EndsNumber xs out))
        (parse_items-raw v xs fuel out (omega arith))
  parse_value-raw (obj end) (suc fuel) out w h = refl
  parse_value-raw (obj (field k v fs)) (suc fuel) out w h =
      parse_object-raw fuel k (field k v fs) (b':' ∷ raw v (raw_fields fs out)) out
        (parse_fields-raw k v fs fuel out (omega arith))
  parse_value-raw null zero out w h = elim w [ ]
  parse_value-raw _ zero out w h = absurd (omega arith)

  parse_items-raw :
      (v : Value) (xs : Items) (fuel : ℕ) (out : Text)
      → 1 + weight v + weight_items xs < fuel
      → parse_items fuel (raw v (raw_items xs out)) ≡ some (cons v xs, out)
  parse_items-raw v nil (suc fuel) out w =
      rw (parse_value-raw v fuel (b']' ∷ out) (omega arith) refl) refl
  parse_items-raw v (cons x xs) (suc fuel) out w =
      rw
        (
          parse_value-raw v fuel (b',' ∷ raw x (raw_items xs out)) (omega arith) refl,
          parse_items-raw x xs fuel out (omega arith),
        )
        refl
  parse_items-raw v nil zero out w = absurd (omega arith)
  parse_items-raw v (cons x xs) zero out w = absurd (omega arith)

  parse_fields-raw :
      (k : Text) (v : Value) (fs : Fields) (fuel : ℕ) (out : Text)
      → 1 + weight v + weight_fields fs < fuel
      → parse_fields fuel (quoted k (b':' ∷ raw v (raw_fields fs out))) ≡ some (field k v fs, out)
  parse_fields-raw k v end (suc fuel) out w =
      rw
        (
          parse_key-quoted k (raw v (b'}' ∷ out)),
          parse_value-raw v fuel (b'}' ∷ out) (omega arith) refl,
        )
        refl
  parse_fields-raw k v (field j x fs) (suc fuel) out w =
      rw
        (
          parse_key-quoted k (raw v (raw_fields (field j x fs) out)),
          parse_value-raw v fuel (raw_fields (field j x fs) out) (omega arith) refl,
          parse_fields-raw j x fs fuel out (omega arith),
        )
        refl
  parse_fields-raw k v end zero out w = absurd (omega arith)
  parse_fields-raw k v (field j x fs) zero out w = absurd (omega arith)

-- Two rounds of fuel for each character are enough.
length-emit : (fuel n : ℕ) (out : Text) → length out ≤ length (emit fuel n out)
unfolding emit
length-emit zero n out = omega arith
length-emit (suc fuel) n out = ground (arith, length-emit fuel (n / 10) ((b'0' + n % 10) ∷ out))

length-jcs_number : (n : ℤ) (out : Text) → length out ≤ length (jcs_number n out)
unfolding jcs_number
length-jcs_number (pos n) out = length-emit (suc n) n out
length-jcs_number (negsuc n) out = omega (arith, length-emit (suc (suc n)) (suc n) out)

length-quoted : (s out : Text) → 2 + length out ≤ length (quoted s out)
unfolding quoted
length-quoted s out = omega (arith, length-append {0} (jcs_escape s) (quote ∷ out))

mutual
  unfolding raw weight

  weight-raw : (v : Value) (out : Text) → weight v + 2 * length out ≤ 2 * length (raw v out)
  weight-raw null out = omega arith
  weight-raw (bool true) out = omega arith
  weight-raw (bool false) out = omega arith
  weight-raw (int n) out = omega (arith, length-jcs_number n out)
  weight-raw (str s) out = omega (arith, length-quoted s out)
  weight-raw (arr nil) out = omega arith
  weight-raw (arr (cons v xs)) out =
      omega (arith, weight-raw v (raw_items xs out), weight_items-raw xs out)
  weight-raw (obj end) out = omega arith
  weight-raw (obj (field k v fs)) out = omega (
    arith,
    length-quoted k (b':' ∷ raw v (raw_fields fs out)),
    weight-raw v (raw_fields fs out),
    weight_fields-raw fs out,
  )

  weight_items-raw :
      (xs : Items) (out : Text) → weight_items xs + 2 * length out ≤ 2 * length (raw_items xs out)
  weight_items-raw nil out = omega arith
  weight_items-raw (cons v xs) out =
      omega (arith, weight-raw v (raw_items xs out), weight_items-raw xs out)

  weight_fields-raw :
      (fs : Fields) (out : Text)
      → weight_fields fs + 2 * length out ≤ 2 * length (raw_fields fs out)
  weight_fields-raw end out = omega arith
  weight_fields-raw (field k v fs) out = omega (
    arith,
    length-quoted k (b':' ∷ raw v (raw_fields fs out)),
    weight-raw v (raw_fields fs out),
    weight_fields-raw fs out,
  )

-- The text of any value is read back whole.
pub loads-raw : (v : Value) → loads (raw v []) ≡ some v
unfolding loads
loads-raw v =
    rw (parse_value-raw v (2 * length (raw v []) + 2) [] (omega (arith, weight-raw v [])) tt) refl
