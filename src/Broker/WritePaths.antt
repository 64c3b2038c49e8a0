-- ===== src/Broker/WritePaths.antt =====
-- coordination/EXECUTION/canonical_write_paths.py: the grammar of write surfaces, and the key under
-- which two spellings collide. The Unicode tables behind `unicodedata.normalize("NFC", ·)` and
-- `str.casefold` are parameters.
mod Grammar
mod Tests
use second_brain_coordinatio.Prelude.{
  ℕ, zero, suc, Text, codes, text_eq, Bool, true, false, not, ◌&&◌, ◌||◌, Option, none, some, List,
  [], ◌∷◌, ◌++◌, Result, ok, err, ◌>>=◌, ◌>>◌, raise_if, ltb, leb, ◌==◌, any, mem_text, starts_with,
  strip_suffix, if◌then◌else◌,
}

-- The reasons of a `CanonicalWritePathError`.
pub data PathError : Type 0 where
  empty_path edge_whitespace control_characters backslash_separator absolute_path : PathError
  repeated_separators empty_root dot_segment wildcard stream_segment trailing_segment : PathError
  empty_identity duplicate_surface equivalent_surface : PathError

-- `c.isspace()`
unfoldable pub is_space : ℕ → Bool
is_space c =
    (leb 9 c && leb c 13)
    || (leb 28 c && leb c 32)
    || (c == 133)
    || (c == 160)
    || (c == 5760)
    || (leb 8192 c && leb c 8202)
    || (c == 8232)
    || (c == 8233)
    || (c == 8239)
    || (c == 8287)
    || (c == 12288)

-- `s.lstrip()`
unfoldable pub lstrip : Text → Text
unfolding is_space
lstrip [] = []
lstrip (c ∷ s) = let rest = lstrip s in if is_space c then rest else c ∷ s

abbrev pub is_empty : Text → Bool
is_empty [] = true
is_empty (c ∷ s) = false

-- `s.rstrip()`
unfoldable pub rstrip : Text → Text
unfolding is_space
rstrip [] = []
rstrip (c ∷ s) = let rest = rstrip s in if is_space c && is_empty rest then [] else c ∷ rest

-- `s.strip()`
unfoldable pub strip : Text → Text
unfolding lstrip rstrip
strip s = lstrip (rstrip s)

-- `c in s` for one character
abbrev pub mem_char : ℕ → Text → Bool
mem_char c s = any (λ d. c == d) s

-- `p in s`
unfoldable pub contains : Text → Text → Bool
contains p [] = is_empty p
contains p (c ∷ s) = starts_with p (c ∷ s) || contains p s

-- `s.endswith(p)`
unfoldable pub ends_with : Text → Text → Bool
ends_with p [] = text_eq [] p
ends_with p (c ∷ s) = text_eq (c ∷ s) p || ends_with p s

-- `s.split("/")`
unfoldable pub split_segments : Text → List Text
split_segments [] = [] ∷ []
split_segments (c ∷ s) =
    let rest = split_segments s in
    if c == b'/' then [] ∷ rest else elim rest [ [] ↦ (c ∷ []) ∷ [] | t ∷ ts ↦ (c ∷ t) ∷ ts ]

abbrev pub is_control : ℕ → Bool
is_control c = ltb c 32 || (c == 127)

-- One round of the loop over the segments.
unfoldable pub check_segment : Text → Result PathError Unit
unfolding ends_with
check_segment segment = do
  raise_if (mem_text segment ([] ∷ codes "." ∷ codes ".." ∷ [])) dot_segment
  raise_if (any (λ c. mem_char c (codes "*?[]")) segment) wildcard
  raise_if (mem_char b':' segment) stream_segment
  raise_if (ends_with (codes " ") segment || ends_with (codes ".") segment) trailing_segment

unfoldable pub check_segments : List Text → Result PathError Unit
unfolding check_segment
check_segments [] = ok tt
check_segments (segment ∷ segments) = check_segment segment >> check_segments segments

abbrev pub tree_suffix : Text
tree_suffix = codes "/**"

abbrev pub rooted : Text → Option Text → Text × Bool
rooted path (some root) = (root, true)
rooted path none = (path, false)

-- The root of a pattern, and whether it is a tree.
unfoldable pub split_tree : Text → Text × Bool
split_tree path = rooted path (strip_suffix tree_suffix path)

-- `root + ("/**" if recursive else "")`
abbrev pub join_tree : Text → Bool → Text
join_tree root true = root ++ tree_suffix
join_tree root false = root ++ []

unfoldable pub canonicalize_write_path_pattern : Text → Result PathError Text
unfolding strip contains split_tree ends_with check_segments
canonicalize_write_path_pattern path =
    let (root, recursive) = split_tree path in
    do
      raise_if (is_empty path) empty_path
      raise_if (not (text_eq path (strip path))) edge_whitespace
      raise_if (any is_control path) control_characters
      raise_if (mem_char b'\\' path) backslash_separator
      raise_if (starts_with (codes "/") path) absolute_path
      raise_if (contains (codes "//") path) repeated_separators
      raise_if (is_empty root || ends_with (codes "/") root) empty_root
      check_segments (split_segments root)
      ok (join_tree root recursive)

-- `tuple(f(x) for x in xs)` where `f` may raise
abbrev pub each {ℓ} : {E A B : Type ℓ} → (A → Result E B) → List A → Result E (List B)
each f [] = ok []
each f (x ∷ xs) = do y ← f x; ys ← each f xs; ok (y ∷ ys)

-- `len(ts) != len(set(ts))`
abbrev pub has_repeat : List Text → Bool
has_repeat [] = false
has_repeat (t ∷ ts) = mem_text t ts || has_repeat ts

module _ (nfc casefold : Text → Text) where
  unfoldable pub write_surface_conflict_key : Text → Result PathError Text
  unfolding canonicalize_write_path_pattern split_tree
  write_surface_conflict_key path = do
    canonical ← canonicalize_write_path_pattern path
    raise_if (is_empty (casefold (nfc (split_tree canonical).0))) empty_identity
    ok (join_tree (casefold (nfc (split_tree canonical).0)) (split_tree canonical).1)

  unfoldable pub canonicalize_authorized_paths : List Text → Result PathError (List Text)
  unfolding canonicalize_write_path_pattern write_surface_conflict_key
  canonicalize_authorized_paths paths = do
    canonical ← each canonicalize_write_path_pattern paths
    raise_if (has_repeat canonical) duplicate_surface
    conflict_keys ← each write_surface_conflict_key canonical
    raise_if (has_repeat conflict_keys) equivalent_surface
    ok canonical

  unfoldable pub parse_write_pattern : Text → Result PathError (Text × Bool)
  unfolding write_surface_conflict_key split_tree
  parse_write_pattern path = do
    conflict_key ← write_surface_conflict_key path
    ok (split_tree conflict_key)

  -- broker.py: `_write_surfaces_overlap`
  unfoldable pub write_surfaces_overlap : Text → Text → Result PathError Bool
  unfolding parse_write_pattern
  write_surfaces_overlap left right = do
    l ← parse_write_pattern left
    r ← parse_write_pattern right
    ok (text_eq l.0 r.0 || starts_with (l.0 ++ codes "/") r.0 || starts_with (r.0 ++ codes "/") l.0)
