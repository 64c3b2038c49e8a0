-- ===== src/Kernel/Lease/Tests.antt =====
-- Two executors on one collision domain.
use second_brain_coordinatio.Prelude.{
  ℕ, ◌+◌, ◌≤◌, ◌↔◌, Text, codes, Bool, true, false, not, none, some, List, [], ◌∷◌, ◌≡◌, ◌≢◌, refl,
  ok, err, is_ok, arith,
}
use second_brain_coordinatio.Kernel.Lease.{
  LeaseStatus, RuntimeLease, LeaseManager, fetch, find_id, find_domain, new_lease, grant, fence,
  acquire, release, is_fenced, assert_can_emit_effects, fenced_out, new_manager, with_status,
  retire,
}
use second_brain_coordinatio.Kernel.Lease.Invariant.{Op, acquire_lease, run, run_exclusive}
use second_brain_coordinatio.Kernel.Lease.Laws.{acquire-acquire, acquire_replaces, release_ends}

abbrev first_lease : RuntimeLease
first_lease = new_lease 10 5 (codes "l1") (codes "m") (codes "ada") (codes "dom")

abbrev second_lease : RuntimeLease
second_lease = new_lease 20 5 (codes "l2") (codes "m") (codes "bob") (codes "dom")

abbrev leased : LeaseManager
leased = (grant 10 (codes "l1") (codes "m") (codes "ada") (codes "dom") (new_manager 5)).1

abbrev replaced : LeaseManager
replaced =
    (grant 20 (codes "l2") (codes "m") (codes "bob") (codes "dom") (fence 0 first_lease leased)).1

held_domain : find_domain (codes "dom") leased ≡ some (0, first_lease)
unfolding second_brain_coordinatio.Prelude.lookup grant second_brain_coordinatio.Prelude.insert
    new_manager fetch
held_domain = refl

held_id : find_id (codes "l1") leased ≡ some (0, first_lease)
unfolding second_brain_coordinatio.Prelude.lookup grant second_brain_coordinatio.Prelude.insert
    new_manager fetch
held_id = refl

others : codes "ada" ≢ codes "bob"
others e = ground arith

ids : codes "l2" ≢ codes "l1"
ids e = ground arith

-- The lease of 10 to 15 keeps the other executor out at 12, and no longer at 15.
acquire-acquire_example :
    (is_ok (acquire 12 (codes "l2") (codes "m") (codes "bob") (codes "dom") leased) ≡ true)
    ↔ (10 + 5 ≤ 12)
unfolding acquire second_brain_coordinatio.Prelude.lookup new_manager
acquire-acquire_example =
    acquire-acquire 10 12 (codes "l1") (codes "l2") (codes "m") (codes "m") (codes "ada")
      (codes "bob") (codes "dom") (new_manager 5) (0, leased) refl others refl

takes_over :
    acquire 20 (codes "l2") (codes "m") (codes "bob") (codes "dom") leased ≡ ok (1, replaced)
unfolding acquire second_brain_coordinatio.Prelude.lookup second_brain_coordinatio.Prelude.insert
    new_manager fetch
takes_over = refl

acquire_replaces_example :
    (is_fenced (codes "l1") replaced ≡ true)
    × (assert_can_emit_effects (codes "l1") replaced ≡ err (fenced_out (codes "l1")))
    × (assert_can_emit_effects (codes "l2") replaced ≡ ok tt)
acquire_replaces_example =
    acquire_replaces 20 (codes "l2") (codes "m") (codes "bob") (codes "dom") leased 0 first_lease
      (1, replaced) held_domain held_id refl others ids takes_over

-- The first lease, released after it was fenced.
abbrev let_go : LeaseManager
let_go = retire LeaseStatus.released 0 (with_status LeaseStatus.fenced first_lease) replaced

lets_go : release (codes "l1") replaced ≡ ok let_go
unfolding release second_brain_coordinatio.Prelude.lookup grant
    second_brain_coordinatio.Prelude.insert fence new_manager fetch
lets_go = refl

release_ends_example :
    (assert_can_emit_effects (codes "l1") let_go ≡ err (fenced_out (codes "l1")))
    × (is_fenced (codes "l1") let_go ≡ false)
release_ends_example = release_ends (codes "l1") replaced let_go lets_go

abbrev takeover : List Op
takeover =
    acquire_lease 10 (codes "l1") (codes "m") (codes "ada") (codes "dom")
    ∷ acquire_lease 20 (codes "l2") (codes "m") (codes "bob") (codes "dom")
    ∷ []

taken : fetch 1 (run takeover (new_manager 5)).heap ≡ some second_lease
unfolding fetch run acquire second_brain_coordinatio.Prelude.lookup new_manager
    second_brain_coordinatio.Prelude.insert
taken = refl

run_exclusive_example : ◌≡◌ {A = ℕ} 1 1
run_exclusive_example =
    run_exclusive 5 takeover 1 1 {x = second_lease} {y = second_lease} taken taken refl refl refl
