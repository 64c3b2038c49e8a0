-- ===== src/Kernel/Canonical/Order.antt =====
-- The stable sort of an object's fields by their keys.
use second_brain_coordinatio.Prelude.{
  Text, ◌≡◌, refl, true, false, List, [], ◌∷◌, arith, Bool-cases, inl, inr, ap,
}
use second_brain_coordinatio.Kernel.Canonical.Json.{text_le, insert_item, sort_items}

pub text_le_total : (s t : Text) → text_le s t ≡ false → text_le t s ≡ true
unfolding text_le
text_le_total [] t h = cc
text_le_total (c ∷ s) [] h = refl
text_le_total (c ∷ s) (d ∷ t) h = ground (arith, text_le_total s t)

-- Each value under a key, mapped.
abbrev pub map_values {ℓ κ} :
    {A : Type ℓ} {B : Type κ} → (A → B) → List (Text × A) → List (Text × B)
map_values f [] = []
map_values f ((k, a) ∷ l) = (k, f a) ∷ map_values f l

module _ {A B : Type 0} (f : A → B) where
  insert_item-map_values :
      (k : Text) (a : A) (l : List (Text × A))
      → insert_item (k, f a) (map_values f l) ≡ map_values f (insert_item (k, a) l)
  unfolding insert_item
  insert_item-map_values k a [] = refl
  insert_item-map_values k a ((j, b) ∷ l) = elim (Bool-cases (text_le k j)) [
    | inl le ↦ rw le refl
    | inr gt ↦ rw gt (ap (λ r. (j, f b) ∷ r) (insert_item-map_values k a l))
  ]

  -- Sorting looks at the keys alone.
  pub sort_items-map_values :
      (l : List (Text × A)) → sort_items (map_values f l) ≡ map_values f (sort_items l)
  unfolding sort_items
  sort_items-map_values [] = refl
  sort_items-map_values ((k, a) ∷ l) =
      rw (sort_items-map_values l) (insert_item-map_values k a (sort_items l))

module _ {A : Type 0} where
  -- The key is at most the first key of the list.
  abbrev AtMostHead : Text → List (Text × A) → Type 0
  AtMostHead k [] = Unit
  AtMostHead k (f ∷ l) = text_le k f.0 ≡ true

  abbrev pub IsSorted : List (Text × A) → Type 0
  IsSorted [] = Unit
  IsSorted (e ∷ l) = AtMostHead e.0 l × IsSorted l

  AtMostHead-insert_item :
      (k : Text) (e : Text × A) (l : List (Text × A))
      → text_le k e.0 ≡ true
      → AtMostHead k l
      → AtMostHead k (insert_item e l)
  unfolding insert_item
  AtMostHead-insert_item k e [] p h = p
  AtMostHead-insert_item k e (f ∷ l) p h = ground arith

  insert_item-IsSorted :
      (e : Text × A) (l : List (Text × A)) → IsSorted l → IsSorted (insert_item e l)
  unfolding insert_item
  insert_item-IsSorted e [] h = (tt, tt)
  insert_item-IsSorted e (f ∷ l) h = elim (Bool-cases (text_le e.0 f.0)) [
    | inl le ↦ rw le (le, h)
    | inr gt ↦ rw gt (
      AtMostHead-insert_item f.0 e l (text_le_total e.0 f.0 gt) h.0,
      insert_item-IsSorted e l h.1,
    )
  ]

  pub sort_items-IsSorted : (l : List (Text × A)) → IsSorted (sort_items l)
  unfolding sort_items
  sort_items-IsSorted [] = tt
  sort_items-IsSorted (e ∷ l) = insert_item-IsSorted e (sort_items l) (sort_items-IsSorted l)

  insert_item-AtMostHead :
      (e : Text × A) (l : List (Text × A)) → AtMostHead e.0 l → insert_item e l ≡ e ∷ l
  unfolding insert_item
  insert_item-AtMostHead e [] h = refl
  insert_item-AtMostHead e (f ∷ l) h = rw h refl

  pub sort_items-eq_of_IsSorted : (l : List (Text × A)) → IsSorted l → sort_items l ≡ l
  unfolding sort_items
  sort_items-eq_of_IsSorted [] h = refl
  sort_items-eq_of_IsSorted (e ∷ l) h =
      rw (sort_items-eq_of_IsSorted l h.1) (insert_item-AtMostHead e l h.0)

  pub sort_items_idem : (l : List (Text × A)) → sort_items (sort_items l) ≡ sort_items l
  sort_items_idem l = sort_items-eq_of_IsSorted (sort_items l) (sort_items-IsSorted l)
