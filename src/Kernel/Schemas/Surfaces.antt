-- ===== src/Kernel/Schemas/Surfaces.antt =====
-- The write surfaces of the kernel and the protected ones: no path is covered by both.
use second_brain_coordinatio.Prelude.{Text, Bool, not, ◌||◌, none, some, starts_with, strip_suffix}
use second_brain_coordinatio.Kernel.Schemas.{tree_suffix}

-- What every path of a surface starts with.
abbrev stem : Text → Text
unfolding strip_suffix
stem surface = elim (strip_suffix tree_suffix surface) [ none ↦ surface | some base ↦ base ]

-- No stem of the one list is the start of one of the other.
abbrev apart : Text → Text → Bool
apart s t = not (starts_with (stem s) (stem t) || starts_with (stem t) (stem s))
