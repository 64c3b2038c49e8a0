-- ===== src/Prelude/Texts.antt =====
-- A Python `str` as the list of its code points, with the methods that the program calls.
use Prim.Native.Nat.{ℕ}
use Prim.Native.Char.{code}
use Prim.Native.String.{String}
use mathlib.Core.Path.{◌≡◌, refl}
use mathlib.Core.Logic.{◌↔◌}
use mathlib.Core.Bool.{Bool, true, false, ◌&&◌}
use mathlib.Core.List.{List, [], ◌∷◌, ◌++◌, map}
use native.Mathlib.Omega.{arith}
use mathlib.Core.Option.{Option, none, some}
use second_brain_coordinatio.Prelude.Tests.{◌==◌, if◌then◌else◌}
use second_brain_coordinatio.Prelude.Lists.{any}

abbrev pub Text : Type 0
Text = List ℕ

-- The text that a literal stands for.
abbrev pub codes : String → Text
codes String.[] = []
codes (String.◌∷◌ c s) = code c ∷ codes s

-- `s == t`
abbrev pub text_eq : Text → Text → Bool
text_eq [] [] = true
text_eq [] (d ∷ t) = false
text_eq (c ∷ s) [] = false
text_eq (c ∷ s) (d ∷ t) = (c == d) && text_eq s t

pub text_eq_refl : (s : Text) → text_eq s s ≡ true
text_eq_refl [] = refl
text_eq_refl (c ∷ s) = ground (arith, text_eq_refl s)

pub text_eq_sound : (s t : Text) → text_eq s t ≡ true → s ≡ t
text_eq_sound [] [] h = refl
text_eq_sound [] (d ∷ t) h = cc
text_eq_sound (c ∷ s) [] h = cc
text_eq_sound (c ∷ s) (d ∷ t) h = ground (arith, text_eq_sound s t)

pub text_eq_iff : (s t : Text) → (text_eq s t ≡ true) ↔ (s ≡ t)
text_eq_iff s t = (text_eq_sound s t, λ e. rw e (text_eq_refl t))

-- `t in ts` for a collection of texts
abbrev pub mem_text : Text → List Text → Bool
mem_text t = any (text_eq t)

-- `s.startswith(p)`
abbrev pub starts_with : Text → Text → Bool
starts_with [] s = true
starts_with (c ∷ p) [] = false
starts_with (c ∷ p) (d ∷ s) = (c == d) && starts_with p s

-- `s[:-len(suffix)]` if `s.endswith(suffix)`
unfoldable pub strip_suffix : Text → Text → Option Text
strip_suffix suffix [] = if text_eq [] suffix then some [] else none
strip_suffix suffix (c ∷ s) =
    let rest = strip_suffix suffix s in
    if text_eq (c ∷ s) suffix then some [] else elim rest [ none ↦ none | some t ↦ some (c ∷ t) ]

pub strip_suffix_sound :
    (suffix s : Text) {base : Text} → strip_suffix suffix s ≡ some base → s ≡ base ++ suffix
unfolding strip_suffix
strip_suffix_sound suffix [] h = ground (arith, text_eq_iff [] suffix)
strip_suffix_sound suffix (c ∷ s) h =
    by_rest (strip_suffix suffix s) (λ t e. strip_suffix_sound suffix s e) h
  where
    by_rest :
        {base : Text} (r : Option Text)
        → ((t : Text) → r ≡ some t → s ≡ t ++ suffix)
        → (if text_eq (c ∷ s) suffix
            then some []
            else elim r [ none ↦ none | some t ↦ some (c ∷ t) ])
          ≡ some base
        → c ∷ s ≡ base ++ suffix
    by_rest none ih h = ground (arith, text_eq_iff (c ∷ s) suffix)
    by_rest (some t) ih h = ground (arith, text_eq_iff (c ∷ s) suffix, ih t refl)

pub starts_with-append : (p s : Text) → starts_with p (p ++ s) ≡ true
starts_with-append [] s = refl
starts_with-append (c ∷ p) s = ground (arith, starts_with-append p s)

-- `s.replace("\\", "/")`
abbrev pub slashes : Text → Text
slashes = map (λ c. if c == b'\\' then b'/' else c)
