-- ===== src/Kernel/Ledger/Rows.antt =====
-- The table of events: what a query selects, its order, and reading a stored event back.
use second_brain_coordinatio.Prelude.{
  ℕ, suc, ◌+◌, ◌≤◌, Text, text_eq, ◌≡◌, refl, Bool, true, false, some, List, [], ◌∷◌, ◌++◌, ok,
  select, any, length, map, arith, ◌==◌, leb, ap, Bool-cases, inl, inr,
}
use second_brain_coordinatio.Kernel.Canonical.{envelope, event_hash}
use second_brain_coordinatio.Kernel.Canonical.Json.{sort_items}
use second_brain_coordinatio.Kernel.Canonical.Loads.{loads}
use second_brain_coordinatio.Kernel.Canonical.RoundTrip.{
  canon, canon_idem, loads-jcs_dumps, jcs_dumps-eq_iff,
}
use second_brain_coordinatio.Kernel.Verifier.{EventRecord, covered}
use second_brain_coordinatio.Kernel.Tables.{
  EventRow, row_of, event_json, event_of_json, insert_row, sort_rows, same_key, of_mission,
  read_rows,
}

module _ {A : Type 0} (p : A → Bool) where
  pub select-append : (xs ys : List A) → select p (xs ++ ys) ≡ select p xs ++ select p ys
  select-append [] ys = refl
  select-append (x ∷ xs) ys = elim (Bool-cases (p x)) [
    | inl h ↦ rw h (ap (λ r. x ∷ r) (select-append xs ys))
    | inr h ↦ rw h (select-append xs ys)
  ]

-- A test on the key is a test on the number, among the rows of the mission.
pub any-same_key :
    (m : Text) (n : ℕ) (rows : List EventRow)
    → any (same_key m n) rows ≡ any (λ r. r.state_seq == n) (select (of_mission m) rows)
any-same_key m n [] = refl
any-same_key m n (r ∷ rows) = elim (Bool-cases (text_eq r.mission_id m)) [
  | inl h ↦ rw (h, any-same_key m n rows) refl
  | inr h ↦ rw (h, any-same_key m n rows) refl
]

-- The rows are numbered from `k` upwards.
abbrev pub NumberedFrom : ℕ → List EventRecord → Type 0
NumberedFrom k [] = Unit
NumberedFrom k (e ∷ es) = (e.state_seq ≡ k) × NumberedFrom (suc k) es

pub NumberedFrom-append :
    (k : ℕ) (es : List EventRecord) (e : EventRecord)
    → NumberedFrom k es
    → e.state_seq ≡ k + length es
    → NumberedFrom k (es ++ e ∷ [])
NumberedFrom-append k [] e h q = (omega arith, tt)
NumberedFrom-append k (x ∷ es) e h q = (h.0, NumberedFrom-append (suc k) es e h.1 (omega arith))

-- Numbered rows already stand in the order of the query.
insert_row-NumberedFrom :
    (k : ℕ) (e : EventRecord) (es : List EventRecord)
    → NumberedFrom k (e ∷ es)
    → insert_row (row_of e) (map row_of es) ≡ map row_of (e ∷ es)
unfolding insert_row row_of
insert_row-NumberedFrom k e [] h = refl
insert_row-NumberedFrom k e (f ∷ es) h = rw in_order refl
  where
    in_order : leb e.state_seq f.state_seq ≡ true
    in_order = ground arith

pub sort_rows-NumberedFrom :
    (k : ℕ) (es : List EventRecord) → NumberedFrom k es → sort_rows (map row_of es) ≡ map row_of es
unfolding sort_rows
sort_rows-NumberedFrom k [] h = refl
sort_rows-NumberedFrom k (e ∷ es) h =
    rw (sort_rows-NumberedFrom (suc k) es h.1) (insert_row-NumberedFrom k e es h)

-- No row has the next number.
pub any-NumberedFrom :
    (k n : ℕ) (es : List EventRecord)
    → NumberedFrom k es
    → k + length es ≤ n
    → any (λ r. r.state_seq == n) (map row_of es) ≡ false
unfolding row_of
any-NumberedFrom k n [] h q = refl
any-NumberedFrom k n (e ∷ es) h q =
    rw (differs, any-NumberedFrom (suc k) n es h.1 (omega arith)) refl
  where
    differs : (e.state_seq == n) ≡ false
    differs = ground arith

-- An event as it comes back from its stored text.
unfoldable pub reread : EventRecord → EventRecord
reread e = record e { payload = canon e.payload; digests = canon e.digests }

event_of_json-canon :
    (e : EventRecord) → event_of_json (some (canon (event_json e))) ≡ ok (reread e)
unfolding event_of_json event_json canon reread sort_items
event_of_json-canon e = refl

pub event_of_json-row_of :
    (e : EventRecord) → event_of_json (loads (row_of e).canonical_bytes) ≡ ok (reread e)
unfolding row_of
event_of_json-row_of e = rw (loads-jcs_dumps (event_json e)) (event_of_json-canon e)

pub read_rows-row_of : (es : List EventRecord) → read_rows (map row_of es) ≡ ok (map reread es)
unfolding read_rows
read_rows-row_of [] = refl
read_rows-row_of (e ∷ es) = rw (event_of_json-row_of e, read_rows-row_of es) refl

canon-envelope-reread :
    (previous : Text) (e : EventRecord)
    → canon (envelope previous (covered (reread e))) ≡ canon (envelope previous (covered e))
unfolding canon envelope reread sort_items
canon-envelope-reread previous e = rw (canon_idem e.payload, canon_idem e.digests) refl

-- The hash does not see the order of fields.
pub event_hash-reread :
    (sha256 : Text → Text) (previous : Text) (e : EventRecord)
    → event_hash sha256 previous (covered (reread e)) ≡ event_hash sha256 previous (covered e)
unfolding event_hash
event_hash-reread sha256 previous e = ap sha256 (
    (jcs_dumps-eq_iff (envelope previous (covered (reread e))) (envelope previous (covered e))).1
      (canon-envelope-reread previous e))
