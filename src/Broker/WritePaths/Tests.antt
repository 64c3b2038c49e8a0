-- ===== src/Broker/WritePaths/Tests.antt =====
-- Spellings of write surfaces.
use second_brain_coordinatio.Prelude.{
  Text, codes, Bool, true, false, ◌≡◌, refl, ok, err, All, starts_with,
}
use second_brain_coordinatio.Broker.WritePaths.{
  canonicalize_write_path_pattern, write_surfaces_overlap, split_segments, split_tree, mem_char,
  dot_segment,
}
use second_brain_coordinatio.Broker.WritePaths.Grammar.{
  IsPlain, canonicalize_sound, write_surfaces_overlap-sym,
}

tree_accepted : canonicalize_write_path_pattern (codes "src/gen/**") ≡ ok (codes "src/gen/**")
unfolding canonicalize_write_path_pattern second_brain_coordinatio.Prelude.strip_suffix
    split_segments
tree_accepted = refl

parent_refused : canonicalize_write_path_pattern (codes "src/../x") ≡ err dot_segment
unfolding canonicalize_write_path_pattern second_brain_coordinatio.Prelude.strip_suffix
    split_segments
parent_refused = refl

canonicalize_sound_example :
    (codes "src/gen/**" ≡ codes "src/gen/**")
    × (mem_char b'\\' (codes "src/gen/**") ≡ false)
    × (starts_with (codes "/") (codes "src/gen/**") ≡ false)
    × All IsPlain (split_segments (split_tree (codes "src/gen/**")).0)
canonicalize_sound_example =
    canonicalize_sound (codes "src/gen/**") (codes "src/gen/**") tree_accepted

abbrev same_text : Text → Text
same_text t = t

inside : write_surfaces_overlap same_text same_text (codes "src/**") (codes "src/a.py") ≡ ok true
unfolding write_surfaces_overlap second_brain_coordinatio.Prelude.strip_suffix split_segments
inside = refl

write_surfaces_overlap-sym_example :
    write_surfaces_overlap same_text same_text (codes "src/a.py") (codes "src/**") ≡ ok true
write_surfaces_overlap-sym_example =
    write_surfaces_overlap-sym same_text same_text (codes "src/**") (codes "src/a.py") true inside
