-- ===== src/Broker/WritePaths/Grammar.antt =====
-- What an accepted write surface looks like, and when two of them overlap.
use second_brain_coordinatio.Prelude.{
  Text, codes, text_eq, text_eq_iff, Bool, false, not, ◌||◌, Option, none, some, List, [], ◌∷◌,
  ◌++◌, append-nil, ◌≡◌, refl, sym, Result, ok, err, ◌>>=◌, >>=-eq-ok, raise_if-ok, All, any,
  mem_text, starts_with, strip_suffix, strip_suffix_sound, arith,
}
use second_brain_coordinatio.Broker.WritePaths.{
  PathError, empty_path, edge_whitespace, control_characters, backslash_separator, absolute_path,
  repeated_separators, empty_root, strip, mem_char, contains, ends_with, split_segments, is_control,
  is_empty, check_segment, check_segments, tree_suffix, rooted, split_tree, join_tree,
  canonicalize_write_path_pattern, parse_write_pattern, write_surfaces_overlap,
}

join_tree-split_tree : (path : Text) → join_tree (split_tree path).0 (split_tree path).1 ≡ path
unfolding split_tree
join_tree-split_tree path =
    by_root (strip_suffix tree_suffix path) (λ root e. strip_suffix_sound tree_suffix path e)
  where
    by_root :
        (o : Option Text)
        → ((root : Text) → o ≡ some root → path ≡ root ++ tree_suffix)
        → join_tree (rooted path o).0 (rooted path o).1 ≡ path
    by_root none sound = append-nil path
    by_root (some root) sound = sym (sound root refl)

-- A segment that names neither its own folder nor the parent, and has no character that a pattern or
-- a drive would use.
pub record IsPlain (segment : Text) : Type 0 where
  pub named : mem_text segment ([] ∷ codes "." ∷ codes ".." ∷ []) ≡ false
  pub no_wildcard : any (λ c. mem_char c (codes "*?[]")) segment ≡ false
  pub no_stream : mem_char b':' segment ≡ false

check_segment-IsPlain : (s : Text) → check_segment s ≡ ok tt → IsPlain s
unfolding check_segment
check_segment-IsPlain s h =
    let (a, h) = raise_if-ok _ _ _ h in
    let (b, h) = raise_if-ok _ _ _ h in
    let (c, h) = raise_if-ok _ _ _ h in record { named = a; no_wildcard = b; no_stream = c }

check_segments-All : (ss : List Text) → check_segments ss ≡ ok tt → All IsPlain ss
unfolding check_segments
check_segments-All [] h = tt
check_segments-All (s ∷ ss) h =
    let (checked, one, rest) = >>=-eq-ok (check_segment s) (λ u. check_segments ss) h in
    (check_segment-IsPlain s one, check_segments-All ss rest)

-- An accepted surface is returned as it is. It has no backslash and does not start at the root, and
-- every segment of its root is plain.
pub canonicalize_sound :
    (path canonical : Text)
    → canonicalize_write_path_pattern path ≡ ok canonical
    → (canonical ≡ path)
      × (mem_char b'\\' path ≡ false)
      × (starts_with (codes "/") path ≡ false)
      × All IsPlain (split_segments (split_tree path).0)
unfolding canonicalize_write_path_pattern
canonicalize_sound path canonical h =
    let root = (split_tree path).0 in
    let (_, h) = raise_if-ok (is_empty path) empty_path _ h in
    let (_, h) = raise_if-ok (not (text_eq path (strip path))) edge_whitespace _ h in
    let (_, h) = raise_if-ok (any is_control path) control_characters _ h in
    let (no_backslash, h) = raise_if-ok (mem_char b'\\' path) backslash_separator _ h in
    let (relative, h) = raise_if-ok (starts_with (codes "/") path) absolute_path _ h in
    let (_, h) = raise_if-ok (contains (codes "//") path) repeated_separators _ h in
    let (_, h) = raise_if-ok (is_empty root || ends_with (codes "/") root) empty_root _ h in
    let (_, checked, same) =
      >>=-eq-ok (check_segments (split_segments root))
        (λ u. ok (join_tree root (split_tree path).1)) h in
    let returned = join_tree-split_tree path in
    (cc, no_backslash, relative, check_segments-All _ checked)

-- The answer on two parsed surfaces, in both orders.
overlap_swap :
    (l r : Result PathError (Text × Bool)) {answer : Bool}
    → (do
      x ← l
      y ← r
      ok (
          text_eq x.0 y.0
          || starts_with (x.0 ++ codes "/") y.0
          || starts_with (y.0 ++ codes "/") x.0))
      ≡ ok answer
    → (do
      y ← r
      x ← l
      ok (
          text_eq y.0 x.0
          || starts_with (y.0 ++ codes "/") x.0
          || starts_with (x.0 ++ codes "/") y.0))
      ≡ ok answer
overlap_swap (err e) r h = cc
overlap_swap (ok x) (err e) h = cc
overlap_swap (ok x) (ok y) h = ground (arith, text_eq_iff x.0 y.0, text_eq_iff y.0 x.0)

-- Where two surfaces are both valid, they overlap in one order exactly if they do in the other.
pub write_surfaces_overlap-sym :
    (nfc casefold : Text → Text) (left right : Text) (answer : Bool)
    → write_surfaces_overlap nfc casefold left right ≡ ok answer
    → write_surfaces_overlap nfc casefold right left ≡ ok answer
unfolding write_surfaces_overlap
write_surfaces_overlap-sym nfc casefold left right answer h =
    overlap_swap (parse_write_pattern nfc casefold left) (parse_write_pattern nfc casefold right) h
