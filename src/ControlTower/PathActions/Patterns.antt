-- ===== src/ControlTower/PathActions/Patterns.antt =====
-- path_action_constraints.py: paths in one spelling, and the write patterns that cover a path.
use second_brain_coordinatio.Prelude.{
  Text, codes, Bool, true, false, none, some, [], ◌∷◌, ◌++◌, ◌==◌, ◌&&◌, ◌||◌, not, if◌then◌else◌,
  any, select, text_eq, starts_with, strip_suffix, slashes,
}
use second_brain_coordinatio.Broker.WritePaths.{strip, split_segments}
use second_brain_coordinatio.Broker.Models.{rstrip_slash}
use second_brain_coordinatio.Broker.Dumps.{join}

-- `while value.startswith("./"): value = value[2:]`
unfoldable pub drop_dot_slashes : Text → Text
drop_dot_slashes (c ∷ d ∷ s) =
    let rest = drop_dot_slashes s in if (c == b'.') && (d == b'/') then rest else c ∷ d ∷ s
drop_dot_slashes s = s

-- The segments that a `PurePosixPath` keeps.
abbrev pub kept : Text → Bool
kept segment = not (text_eq segment []) && not (text_eq segment (codes "."))

-- The root that it keeps: two slashes are one of its own.
unfoldable pub posix_root : Text → Text
posix_root path =
    if starts_with (codes "///") path
    then codes "/"
    else if starts_with (codes "//") path
    then codes "//"
    else if starts_with (codes "/") path
    then codes "/"
    else []

abbrev pub or_dot : Text → Text
or_dot [] = codes "."
or_dot (c ∷ s) = c ∷ s

-- `str(PurePosixPath(path))`
unfoldable pub posix_path : Text → Text
posix_path path = or_dot (posix_root path ++ join (codes "/") (select kept (split_segments path)))

unfoldable pub norm_path : Text → Text
norm_path value = posix_path (drop_dot_slashes (strip (slashes value)))

-- `any(token in text for token in ("*", "?", "[", "]"))`
unfoldable pub has_wildcard : Text → Bool
has_wildcard = any (λ c. any (λ d. c == d) (codes "*?[]"))

-- `fnmatch.fnmatchcase(path, pattern)` is a parameter, with the arguments in this order.
module _ (fnmatchcase : Text → Text → Bool) where
  -- The cases of `_pattern_covers_exact` on paths in one spelling.
  unfoldable pub covers_normal : Text → Text → Bool
  covers_normal pattern exact_path =
      if text_eq pattern exact_path then true else elim (strip_suffix (codes "/**") pattern) [
        | some base ↦
            text_eq exact_path (rstrip_slash base)
            || starts_with (rstrip_slash base ++ codes "/") exact_path
        | none ↦ if has_wildcard pattern then fnmatchcase exact_path pattern else false
      ]

  unfoldable pub pattern_covers_exact : Text → Text → Bool
  pattern_covers_exact pattern exact_path = covers_normal (norm_path pattern) (norm_path exact_path)
