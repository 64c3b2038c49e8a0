-- ===== src/ControlTower/Lifecycle/Evidence/Strongest.antt =====
-- The order of the evidence: the event that `max` returns is of the highest priority.
use second_brain_coordinatio.Prelude.{
  Text, true, false, List, [], ◌∷◌, ◌++◌, ◌≡◌, refl, arith, Bool-cases, inl, inr, text_eq,
  text_eq_sound, if◌then◌else◌, ◌⊎◌,
}
use second_brain_coordinatio.Prelude.Int.{pos, negsuc}
use second_brain_coordinatio.Kernel.Canonical.Json.{Value}
use second_brain_coordinatio.ControlTower.Values.{Mapping, int_lt}
use second_brain_coordinatio.ControlTower.Lifecycle.States.{
  advisory_event_priority, engineering_stop,
}
use second_brain_coordinatio.ControlTower.Lifecycle.Evidence.{
  SortKey, key_lt, kind_of, event_sort_key, strongest,
}

-- The greater of two keys has at least the priority of the other.
key_lt-priority : (a b : SortKey) → key_lt a b ≡ true → int_lt b.0 a.0 ≡ false
unfolding key_lt int_lt
key_lt-priority (pos p, s, u) (pos q, t, v) h = ground arith
key_lt-priority (pos p, s, u) (negsuc q, t, v) h = ground arith
key_lt-priority (negsuc p, s, u) (pos q, t, v) h = ground arith
key_lt-priority (negsuc p, s, u) (negsuc q, t, v) h = ground arith

not-key_lt-priority : (a b : SortKey) → key_lt a b ≡ false → int_lt a.0 b.0 ≡ false
unfolding key_lt
not-key_lt-priority a b h = ground arith

module _ (repr : Value → Text) where
  -- `event["kind"]` is ENGINEERING_STOP.
  abbrev pub IsStop : Mapping → Type 0
  IsStop event = text_eq (kind_of repr event) engineering_stop ≡ true

  priority_of_stop : (event : Mapping) → IsStop event → (event_sort_key repr event).0 ≡ pos 40
  unfolding event_sort_key advisory_event_priority
  priority_of_stop event h =
      rw (text_eq_sound (kind_of repr event) engineering_stop h, event_sort_key) refl

  IsStop-of_priority :
      (event : Mapping) → int_lt (event_sort_key repr event).0 (pos 40) ≡ false → IsStop event
  unfolding event_sort_key advisory_event_priority int_lt
  IsStop-of_priority event h = ground arith

  greater-IsStop :
      (best event : Mapping)
      → IsStop best ⊎ IsStop event
      → IsStop
          (if key_lt (event_sort_key repr best) (event_sort_key repr event) then event else best)
  greater-IsStop best event h =
      elim (Bool-cases (key_lt (event_sort_key repr best) (event_sort_key repr event))) [
        | inl lt ↦ rw lt (elim h [
          | inl b ↦
              IsStop-of_priority event (rw (← priority_of_stop best b) (key_lt-priority _ _ lt))
          | inr e ↦ e
        ])
        | inr ge ↦ rw ge (elim h [
          | inl b ↦ b
          | inr e ↦
              IsStop-of_priority best (rw (← priority_of_stop event e) (not-key_lt-priority _ _ ge))
        ])
      ]

  -- Where one of the events is a stop, so is the strongest one.
  pub strongest_first-IsStop :
      (events : List Mapping) (best : Mapping) → IsStop best → IsStop (strongest repr best events)
  unfolding strongest
  strongest_first-IsStop [] best h = h
  strongest_first-IsStop (event ∷ events) best h =
      strongest_first-IsStop events _ (greater-IsStop best event (inl h))

  pub strongest-IsStop :
      (before : List Mapping) (best stop : Mapping) (after : List Mapping)
      → IsStop stop
      → IsStop (strongest repr best (before ++ stop ∷ after))
  unfolding strongest
  strongest-IsStop [] best stop after h =
      strongest_first-IsStop after _ (greater-IsStop best stop (inr h))
  strongest-IsStop (event ∷ before) best stop after h = strongest-IsStop before _ stop after h
