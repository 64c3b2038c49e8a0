-- ===== src/Kernel/Canonical/Escape.antt =====
-- Reading back what `_jcs_escape` wrote.
use second_brain_coordinatio.Prelude.{
  ℕ, suc, ◌+◌, ◌*◌, ◌/◌, ◌%◌, ◌<◌, Text, ◌≡◌, refl, false, some, [], ◌∷◌, ◌++◌, arith, ltb, ◌==◌,
  append_assoc, ◌∙◌, ap, false,
}
use second_brain_coordinatio.Kernel.Canonical.Json.{
  quote, backslash, hex_digit, escape_char, jcs_escape,
}
use second_brain_coordinatio.Kernel.Canonical.Loads.{
  Mode, plain, hex, unhex, string_step, push, read_string, put, go,
}

unhex-hex_digit : (d : ℕ) → d < 16 → unhex (hex_digit d) ≡ some d
unfolding unhex hex_digit
unhex-hex_digit d h = ground arith

read_string-put :
    (m : Mode) (c d : ℕ) (s : Text)
    → string_step m c ≡ put d
    → read_string m (c ∷ s) ≡ push d (read_string plain s)
unfolding read_string
read_string-put m c d s h = rw (h, read_string) refl

read_string-go :
    (m n : Mode) (c : ℕ) (s : Text)
    → string_step m c ≡ go n
    → read_string m (c ∷ s) ≡ read_string n s
unfolding read_string
read_string-go m n c s h = rw (h, read_string) refl

string_step-hex_go :
    (k v d : ℕ) → d < 16 → string_step (hex (suc k) v) (hex_digit d) ≡ go (hex k (v * 16 + d))
unfolding string_step
string_step-hex_go k v d h = rw (unhex-hex_digit d h, string_step) refl

string_step-hex_put : (v d : ℕ) → d < 16 → string_step (hex 0 v) (hex_digit d) ≡ put (v * 16 + d)
unfolding string_step
string_step-hex_put v d h = rw (unhex-hex_digit d h, string_step) refl

-- The last two digits of an escaped control character.
read_string-hex :
    (a b : ℕ) (rest : Text)
    → a < 16
    → b < 16
    → read_string (hex 1 0) (hex_digit a ∷ hex_digit b ∷ rest)
      ≡ push (a * 16 + b) (read_string plain rest)
read_string-hex a b rest p q =
    read_string-go (hex 1 0) (hex 0 (0 * 16 + a)) (hex_digit a) (hex_digit b ∷ rest)
      (string_step-hex_go 0 0 a p)
    ∙ read_string-put (hex 0 (0 * 16 + a)) (hex_digit b) (a * 16 + b) rest
        (string_step-hex_put (0 * 16 + a) b q ∙ ap put (omega arith))

-- A character that needs no escape.
read_string-plain :
    (c : ℕ) (rest : Text)
    → (c == quote) ≡ false
    → (c == backslash) ≡ false
    → ltb c 0x20 ≡ false
    → read_string plain (c ∷ rest) ≡ push c (read_string plain rest)
read_string-plain c rest p q r = read_string-put plain c c rest step
  where
    step : string_step plain c ≡ put c
    step = unfold string_step in rw (p, q, r) refl

read_string-escape_char :
    (c : ℕ) (rest : Text)
    → read_string plain (escape_char c ++ rest) ≡ push c (read_string plain rest)
unfolding read_string escape_char
read_string-escape_char c rest =
    ground (arith, read_string-plain c rest, read_string-hex (c / 16) (c % 16) rest)

-- The reader undoes the escape, up to the closing quote.
pub read_string-jcs_escape :
    (s rest : Text) → read_string plain (jcs_escape s ++ quote ∷ rest) ≡ some (s, rest)
unfolding jcs_escape
read_string-jcs_escape [] rest = unfold read_string in refl
read_string-jcs_escape (c ∷ s) rest =
    rw
      (
        append_assoc (escape_char c) (jcs_escape s) (quote ∷ rest),
        read_string-escape_char c (jcs_escape s ++ quote ∷ rest),
        read_string-jcs_escape s rest,
      )
      refl
