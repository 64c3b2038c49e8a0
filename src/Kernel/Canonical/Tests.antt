-- ===== src/Kernel/Canonical/Tests.antt =====
-- Runs of `jcs_dumps` on two dicts with the same fields.
use second_brain_coordinatio.Prelude.{codes, ◌≡◌, ◌↔◌, refl, some}
use second_brain_coordinatio.Prelude.Int.{negsuc}
use second_brain_coordinatio.Kernel.Canonical.Json.{
  Value, null, int, str, arr, obj, nil, cons, end, field, jcs_dumps,
}
use second_brain_coordinatio.Kernel.Canonical.Loads.{loads}
use second_brain_coordinatio.Kernel.Canonical.RoundTrip.{canon, loads-jcs_dumps, jcs_dumps-eq_iff}

abbrev first_order : Value
first_order = obj (
    field (codes "b") (int (negsuc 11))
      (field (codes "a") (arr (cons null (cons (str (codes "x\"y")) nil))) end))

abbrev second_order : Value
second_order = obj (
    field (codes "a") (arr (cons null (cons (str (codes "x\"y")) nil)))
      (field (codes "b") (int (negsuc 11)) end))

written : jcs_dumps first_order ≡ codes "{\"a\":[null,\"x\\\"y\"],\"b\":-12}"
unfolding jcs_dumps second_brain_coordinatio.Kernel.Canonical.Json.join_fields
    second_brain_coordinatio.Kernel.Canonical.Json.sort_items
    second_brain_coordinatio.Kernel.Canonical.Json.escape_char
    second_brain_coordinatio.Kernel.Canonical.Json.join_items
    second_brain_coordinatio.Kernel.Canonical.Json.jcs_number
    second_brain_coordinatio.Kernel.Canonical.Json.emit
written = refl

loads-jcs_dumps_example : loads (jcs_dumps first_order) ≡ some (canon first_order)
loads-jcs_dumps_example = loads-jcs_dumps first_order

jcs_dumps-eq_iff_example :
    (jcs_dumps first_order ≡ jcs_dumps second_order) ↔ (canon first_order ≡ canon second_order)
jcs_dumps-eq_iff_example = jcs_dumps-eq_iff first_order second_order
