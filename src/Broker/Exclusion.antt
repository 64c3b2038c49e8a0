-- ===== src/Broker/Exclusion.antt =====
-- Active leases on one exclusive resource: what no change of rows can break.
mod Capacity
mod Claims
mod Calls
mod Runs
mod Room
mod Tests
use second_brain_coordinatio.Prelude.{
  ℕ, Text, text_eq, text_eq_iff, Bool, true, false, not, ◌&&◌, ◌||◌, Option, none, some, List, [],
  ◌∷◌, ◌++◌, map, ◌≡◌, refl, sym, ap, ◌∙◌, arith, All, All-map, All-weaken, All-snoc, Bool-cases,
  inl, inr, lookup, Dict, if◌then◌else◌,
}
use second_brain_coordinatio.Broker.Models.{ResourceType, type_value, same_type, ResourceClaim}
use second_brain_coordinatio.Broker.Store.{
  LeaseRow, is_active_status, Connection, fence_row, expire_stale_leases,
}
use second_brain_coordinatio.Broker.Store.Expiry.{run_out, fence_executions-leases}
use second_brain_coordinatio.Broker.Rules.{always_exclusive, same_resource}

abbrev type_values : Dict ResourceType
type_values =
    (
      type_value ResourceType.rdc_process_mutation_channel,
      ResourceType.rdc_process_mutation_channel,
    )
    ∷ (type_value ResourceType.workbuddy_daemon, ResourceType.workbuddy_daemon)
    ∷ (type_value ResourceType.workbuddy_agent_session, ResourceType.workbuddy_agent_session)
    ∷ (type_value ResourceType.workbuddy_one_time_runner, ResourceType.workbuddy_one_time_runner)
    ∷ (type_value ResourceType.codex_session, ResourceType.codex_session)
    ∷ (type_value ResourceType.local_port, ResourceType.local_port)
    ∷ (type_value ResourceType.exclusive_local_runtime, ResourceType.exclusive_local_runtime)
    ∷ []

abbrev listed_type : Option ResourceType → Bool
listed_type none = false
listed_type (some t) = true

-- Whether a type is always exclusive can be read from its value.
always_exclusive-lookup :
    (t : ResourceType) → always_exclusive t ≡ listed_type (lookup (type_value t) type_values)
unfolding lookup
always_exclusive-lookup ResourceType.host = refl
always_exclusive-lookup ResourceType.rdc_process_mutation_channel = refl
always_exclusive-lookup ResourceType.workbuddy_daemon = refl
always_exclusive-lookup ResourceType.workbuddy_agent_session = refl
always_exclusive-lookup ResourceType.workbuddy_one_time_runner = refl
always_exclusive-lookup ResourceType.codex_session = refl
always_exclusive-lookup ResourceType.local_port = refl
always_exclusive-lookup ResourceType.worktree = refl
always_exclusive-lookup ResourceType.branch = refl
always_exclusive-lookup ResourceType.collision_domain = refl
always_exclusive-lookup ResourceType.write_surface = refl
always_exclusive-lookup ResourceType.cpu_light = refl
always_exclusive-lookup ResourceType.cpu_heavy = refl
always_exclusive-lookup ResourceType.gpu_local = refl
always_exclusive-lookup ResourceType.market_data_provider = refl
always_exclusive-lookup ResourceType.exclusive_local_runtime = refl

pub always_exclusive-same_type :
    (t u : ResourceType) → type_value t ≡ type_value u → always_exclusive t ≡ always_exclusive u
always_exclusive-same_type t u same =
    always_exclusive-lookup t
    ∙ ap (λ v. listed_type (lookup v type_values)) same
    ∙ sym (always_exclusive-lookup u)

-- Two rows that are not both active leases on one exclusive resource.
abbrev pub Rivals : LeaseRow → LeaseRow → Type 0
Rivals r s =
    always_exclusive r.resource_type ≡ true
    → is_active_status r.status ≡ true
    → is_active_status s.status ≡ true
    → same_resource r.resource_type r.resource_id s ≡ false

-- No exclusive resource has two active leases.
abbrev pub IsExclusive : List LeaseRow → Type 0
IsExclusive [] = Unit
IsExclusive (r ∷ rs) = All (Rivals r) rs × IsExclusive rs

-- A row that is not an active lease on the exclusive resource of a claim.
abbrev pub Free : ResourceClaim → LeaseRow → Type 0
Free c r =
    always_exclusive c.resource_type ≡ true
    → is_active_status r.status ≡ true
    → same_resource c.resource_type c.resource_id r ≡ false

-- A change of rows that activates no lease, moves none to another resource, and keeps its units.
pub record Calms (f : LeaseRow → LeaseRow) : Type 0 where
  pub same_type_of : (r : LeaseRow) → (f r).resource_type ≡ r.resource_type
  pub same_id_of : (r : LeaseRow) → (f r).resource_id ≡ r.resource_id
  pub same_units_of : (r : LeaseRow) → (f r).units ≡ r.units
  pub active_before :
      (r : LeaseRow) → is_active_status (f r).status ≡ true → is_active_status r.status ≡ true

pub Free-map :
    (c : ResourceClaim) (f : LeaseRow → LeaseRow) (rows : List LeaseRow)
    → Calms f
    → All (Free c) rows
    → All (Free c) (map f rows)
Free-map c f rows calm h = All-map (Free c) f rows (
    All-weaken
      (λ r free exclusive live.
        rw (calm.same_type_of r, calm.same_id_of r) (free exclusive (calm.active_before r live)))
      rows h)

pub IsExclusive-map :
    (f : LeaseRow → LeaseRow) (rows : List LeaseRow)
    → Calms f
    → IsExclusive rows
    → IsExclusive (map f rows)
IsExclusive-map f [] calm h = tt
IsExclusive-map f (r ∷ rs) calm (h, hs) = (
  All-map (Rivals (f r)) f rs (
      All-weaken
        (λ s rival exclusive live other.
          rw (calm.same_type_of s, calm.same_id_of s, calm.same_type_of r, calm.same_id_of r)
            (rival (rw (calm.same_type_of r) at exclusive) (calm.active_before r live)
              (calm.active_before s other)))
        rs h),
  IsExclusive-map f rs calm hs,
)

pub IsExclusive-snoc :
    (rows : List LeaseRow) (r : LeaseRow)
    → IsExclusive rows
    → All (λ s. Rivals s r) rows
    → IsExclusive (rows ++ r ∷ [])
IsExclusive-snoc [] r h a = (tt, tt)
IsExclusive-snoc (s ∷ rows) r (h, hs) (a, rest) =
    (All-snoc (Rivals s) rows h a, IsExclusive-snoc rows r hs rest)

pub fence_row-Calms : (now : ℕ) (ids : List Text) → Calms (fence_row now ids)
unfolding fence_row
fence_row-Calms now ids = record {
  same_type_of = λ r. ground arith;
  same_id_of = λ r. ground arith;
  same_units_of = λ r. ground arith;
  active_before = λ r h. ground arith;
}

-- What every calm change keeps of the leases, an expiry keeps.
pub expire_stale_leases-keeps {ℓ} :
    (P : List LeaseRow → Type ℓ) (clock : ℕ → ℕ) (con : Connection)
    → ((f : LeaseRow → LeaseRow) (rows : List LeaseRow) → Calms f → P rows → P (map f rows))
    → P con.db.resource_leases
    → P (expire_stale_leases clock con).db.resource_leases
unfolding expire_stale_leases
expire_stale_leases-keeps P clock con kept h =
    rw (fence_executions-leases clock (clock con.reads) (run_out clock con) _)
      (kept _ con.db.resource_leases (fence_row-Calms (clock con.reads) (run_out clock con)) h)
