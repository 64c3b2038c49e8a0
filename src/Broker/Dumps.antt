-- ===== src/Broker/Dumps.antt =====
-- `json.dumps(value, sort_keys=True, separators=(item, key))` with the default `ensure_ascii=True`.
use second_brain_coordinatio.Prelude.{
  ℕ, ◌+◌, ◌-◌, ◌/◌, ◌%◌, Text, codes, true, false, ◌||◌, List, [], ◌∷◌, ◌++◌, ltb, leb, ◌==◌,
  if◌then◌else◌,
}
use second_brain_coordinatio.Kernel.Canonical.Json.{
  Value, null, bool, int, str, arr, obj, Items, nil, cons, Fields, end, field, quote, backslash,
  hex_digit, jcs_number, sort_items,
}

-- `\uXXXX`
unfoldable pub unicode_escape : ℕ → Text
unfolding hex_digit
unicode_escape c =
    backslash
    ∷ b'u'
    ∷ hex_digit (c / 4096 % 16)
    ∷ hex_digit (c / 256 % 16)
    ∷ hex_digit (c / 16 % 16)
    ∷ hex_digit (c % 16)
    ∷ []

-- One character of a text; what lies beyond the basic plane is a pair of surrogates.
unfoldable pub ascii_char : ℕ → Text
unfolding unicode_escape
ascii_char c =
    if (c == quote) || (c == backslash)
    then backslash ∷ c ∷ []
    else if c == 10
    then backslash ∷ b'n' ∷ []
    else if c == 13
    then backslash ∷ b'r' ∷ []
    else if c == 9
    then backslash ∷ b't' ∷ []
    else if c == 12
    then backslash ∷ b'f' ∷ []
    else if c == 8
    then backslash ∷ b'b' ∷ []
    else if ltb c 32 || leb 127 c
    then (if ltb c 0x10000
        then unicode_escape c
        else unicode_escape (0xd800 + (c - 0x10000) / 1024)
          ++ unicode_escape (0xdc00 + (c - 0x10000) % 1024))
    else c ∷ []

unfoldable pub ascii_text : Text → Text
unfolding ascii_char
ascii_text [] = []
ascii_text (c ∷ s) = ascii_char c ++ ascii_text s

unfoldable pub ascii_quoted : Text → Text
unfolding ascii_text
ascii_quoted s = quote ∷ (ascii_text s ++ quote ∷ [])

-- `sep.join(ts)`
unfoldable pub join : Text → List Text → Text
join sep [] = []
join sep (t ∷ []) = t
join sep (t ∷ u ∷ ts) = t ++ sep ++ join sep (u ∷ ts)

module _ (item_sep key_sep : Text) where
  -- Each field as its key, the separator and its value.
  unfoldable pub dump_pairs : List (Text × Text) → List Text
  unfolding ascii_quoted
  dump_pairs [] = []
  dump_pairs ((k, v) ∷ fs) = (ascii_quoted k ++ key_sep ++ v) ∷ dump_pairs fs

  unfoldable mutual
    pub dumps : Value → Text
    dumps null = codes "null"
    dumps (bool true) = codes "true"
    dumps (bool false) = codes "false"
    dumps (int n) = jcs_number n []
    dumps (str s) = ascii_quoted s
    dumps (arr xs) = b'[' ∷ (join item_sep (list_texts xs) ++ b']' ∷ [])
    dumps (obj fs) = b'{' ∷ (join item_sep (dump_pairs (sort_items (field_texts fs))) ++ b'}' ∷ [])

    pub list_texts : Items → List Text
    list_texts nil = []
    list_texts (cons v xs) = dumps v ∷ list_texts xs

    pub field_texts : Fields → List (Text × Text)
    field_texts end = []
    field_texts (field k v fs) = (k, dumps v) ∷ field_texts fs
