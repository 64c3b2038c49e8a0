-- ===== src/ControlTower/Lifecycle/Registry/Distinct.antt =====
-- Lists of texts without repetitions, and findings without errors.
use second_brain_coordinatio.Prelude.{
  Text, false, List, [], ◌∷◌, ◌++◌, ◌≡◌, ◌∙◌, refl, sym, arith, text_eq, text_eq_iff, mem_text,
  select, select-append, ◌||◌, not,
}
use second_brain_coordinatio.ControlTower.Lifecycle.Schema.{legacy_compatibility}

abbrev pub Distinct : List Text → Type 0
Distinct [] = Unit
Distinct (t ∷ ts) = (mem_text t ts ≡ false) × Distinct ts

pub mem_text-append :
    (t : Text) (ts us : List Text) → mem_text t (ts ++ us) ≡ (mem_text t ts || mem_text t us)
mem_text-append t [] us = refl
mem_text-append t (u ∷ ts) us = ground (arith, mem_text-append t ts us)

pub Distinct-snoc :
    (ts : List Text) (t : Text) → Distinct ts → mem_text t ts ≡ false → Distinct (ts ++ t ∷ [])
Distinct-snoc [] t h new = (refl, tt)
Distinct-snoc (u ∷ ts) t (h, hs) new = (
  mem_text-append u ts (t ∷ []) ∙ ground (arith, text_eq_iff u t, text_eq_iff t u),
  Distinct-snoc ts t hs (ground arith),
)

-- The findings that make an audit invalid.
abbrev pub errors : List Text → List Text
errors = select (λ item. not (text_eq item legacy_compatibility))

append-eq-nil : (ts us : List Text) → ts ++ us ≡ [] → (ts ≡ []) × (us ≡ [])
append-eq-nil [] us h = (refl, h)
append-eq-nil (t ∷ ts) us h = cc

pub errors-append :
    (ts us : List Text) → errors (ts ++ us) ≡ [] → (errors ts ≡ []) × (errors us ≡ [])
errors-append ts us h = append-eq-nil (errors ts) (errors us) (sym (select-append _ ts us) ∙ h)
