-- ===== src/Kernel/Canonical/Number.antt =====
-- Reading back the decimal text of an integer.
use second_brain_coordinatio.Prelude.{
  ℕ, zero, suc, ◌+◌, ◌*◌, ◌/◌, ◌%◌, ◌<◌, Text, ◌≡◌, refl, true, false, some, [], ◌∷◌, arith, ltb,
  ◌==◌, ◌∙◌, ap, Bool-cases, inl, inr,
}
use second_brain_coordinatio.Prelude.Int.{ℤ, pos, negsuc}
use second_brain_coordinatio.Kernel.Canonical.Json.{int, emit, jcs_number}
use second_brain_coordinatio.Kernel.Canonical.Loads.{
  is_digit, scan, scan_int, parse_number, kind, a_number,
}

-- Text that a number may end before.
abbrev pub EndsNumber : Text → Type 0
EndsNumber [] = Unit
EndsNumber (c ∷ s) = is_digit c ≡ false

scan-digit : (d n : ℕ) (s : Text) → d < 10 → scan ((b'0' + d) ∷ s) n ≡ scan s (n * 10 + d)
unfolding scan
scan-digit d n s h = rw (is_digit_lem d h) (ap (scan s) (omega arith))
  where
    is_digit_lem : (d : ℕ) → d < 10 → is_digit (b'0' + d) ≡ true
    is_digit_lem d h = ground arith

scan_int-digit : (d : ℕ) (s : Text) → 0 < d → d < 10 → scan_int ((b'0' + d) ∷ s) ≡ some (scan s d)
unfolding scan_int
scan_int-digit d s p h = rw (is_digit_lem, not_zero) (ap (λ k. some (scan s k)) (omega arith))
  where
    is_digit_lem : is_digit (b'0' + d) ≡ true
    is_digit_lem = ground arith

    not_zero : ((b'0' + d) == b'0') ≡ false
    not_zero = ground arith

scan_int-emit :
    (fuel n : ℕ) (out : Text) → n < fuel → 0 < n → scan_int (emit fuel n out) ≡ some (scan out n)
unfolding emit
scan_int-emit zero n out h p = elim h [ ]
scan_int-emit (suc fuel) n out h p = elim (Bool-cases (ltb n 10)) [
  | inl small ↦ rw small (scan_int-digit n out p (ground arith))
  | inr large ↦ rw large (
      scan_int-emit fuel (n / 10) ((b'0' + n % 10) ∷ out) (ground arith) (ground arith)
      ∙ ap some (scan-digit (n % 10) (n / 10) out (omega arith) ∙ ap (scan out) (omega arith)))
]

scan-EndsNumber : (out : Text) (n : ℕ) → EndsNumber out → scan out n ≡ (n, out)
unfolding scan
scan-EndsNumber [] n h = refl
scan-EndsNumber (c ∷ s) n h = rw h refl

-- The digits of a number are read back, zero included.
scan_int-number :
    (n : ℕ) (out : Text) → EndsNumber out → scan_int (emit (suc n) n out) ≡ some (n, out)
scan_int-number zero out h = unfold emit scan_int in refl
scan_int-number (suc n) out h =
    scan_int-emit (suc (suc n)) (suc n) out (omega arith) (omega arith)
    ∙ ap some (scan-EndsNumber out (suc n) h)

-- A decimal text begins with a digit, so it has no sign.
head_of_emit :
    (fuel n : ℕ) (out : Text)
    → n < fuel
    → (c : ℕ) × (s : Text) × (emit fuel n out ≡ c ∷ s) × (is_digit c ≡ true)
unfolding emit
head_of_emit zero n out h = elim h [ ]
head_of_emit (suc fuel) n out h = elim (Bool-cases (ltb n 10)) [
  | inl small ↦ (b'0' + n, out, rw small refl, ground arith)
  | inr large ↦ rw large (head_of_emit fuel (n / 10) ((b'0' + n % 10) ∷ out) (ground arith))
]

pub kind-digit : (c : ℕ) → is_digit c ≡ true → kind c ≡ a_number
unfolding kind
kind-digit c h = ground arith

parse_number-unsigned :
    (c n : ℕ) (s out : Text)
    → is_digit c ≡ true
    → scan_int (c ∷ s) ≡ some (n, out)
    → parse_number (c ∷ s) ≡ some (int (pos n), out)
unfolding parse_number
parse_number-unsigned c n s out h e = rw (no_sign, e) refl
  where
    no_sign : (c == b'-') ≡ false
    no_sign = ground arith

-- The text of an integer has a first character that says so, and is read back.
pub parse_number-jcs_number :
    (n : ℤ) (out : Text)
    → EndsNumber out
    → (c : ℕ) × (s : Text) × (jcs_number n out ≡ c ∷ s)
      × (kind c ≡ a_number)
      × ((c == b']') ≡ false)
      × (parse_number (c ∷ s) ≡ some (int n, out))
unfolding jcs_number
parse_number-jcs_number (pos n) out h =
    let (c, s, e, d) = head_of_emit (suc n) n out (omega arith) in
    (
      c,
      s,
      e,
      kind-digit c d,
      ground arith,
      parse_number-unsigned c n s out d (rw (← e) (scan_int-number n out h)),
    )
parse_number-jcs_number (negsuc n) out h = (
  b'-',
  emit (suc (suc n)) (suc n) out,
  refl,
  unfold kind in refl,
  refl,
  unfold parse_number in rw (scan_int-number (suc n) out h) refl,
)
