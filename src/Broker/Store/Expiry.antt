-- ===== src/Broker/Store/Expiry.antt =====
-- What `_expire_stale_leases` leaves behind.
use second_brain_coordinatio.Prelude.{
  ℕ, ◌<◌, Text, text_eq, text_eq_iff, text_eq_refl, mem_text, All-weaken, All-map, All-both,
  All-intro, ◌∙◌, true, false, List, [], ◌∷◌, map, ◌≡◌, refl, arith, All, select,
}
use second_brain_coordinatio.Broker.Store.{
  ExecutionRow, LeaseRow, Connection, is_active_execution, is_active_status, is_stale, distinct,
  expired_executions, fence_row, fence_execution, fence_one, fence_executions, expire_stale_leases,
}

-- The executions with a lease that has run out by the first reading of the clock.
abbrev pub run_out : (ℕ → ℕ) → Connection → List Text
run_out clock con = expired_executions (clock con.reads) con.db.resource_leases

mem_text-distinct : (t : Text) (ts : List Text) → mem_text t (distinct ts) ≡ mem_text t ts
unfolding distinct
mem_text-distinct t [] = refl
mem_text-distinct t (u ∷ ts) =
    ground (arith, mem_text-distinct t ts, mem_text-distinct u ts, text_eq_iff t u)

stale-listed :
    (now : ℕ) (ids : List Text) (rows : List LeaseRow)
    → ((t : Text)
        → mem_text t (map LeaseRow.execution_id (select (is_stale now) rows)) ≡ true
        → mem_text t ids ≡ true)
    → All (λ r. is_stale now r ≡ true → mem_text r.execution_id ids ≡ true) rows
stale-listed now ids [] sub = tt
stale-listed now ids (r ∷ rs) sub = (
  λ stale. sub r.execution_id (rw stale (ground (arith, text_eq_refl r.execution_id))),
  stale-listed now ids rs (λ t m. sub t (ground arith)),
)

-- A lease that has run out belongs to an execution that is expired.
stale-expired :
    (now : ℕ) (rows : List LeaseRow)
    → All
        (λ r. is_stale now r ≡ true → mem_text r.execution_id (expired_executions now rows) ≡ true)
        rows
unfolding expired_executions
stale-expired now rows =
    stale-listed now (expired_executions now rows) rows
      (λ t m. mem_text-distinct t (map LeaseRow.execution_id (select (is_stale now) rows)) ∙ m)

-- A lease that is active after the expiry has not run out, and its execution is not expired.
abbrev pub IsLive : ℕ → List Text → LeaseRow → Type 0
IsLive now ids r =
    is_active_status r.status ≡ true
    → (now < r.expires_at_ms) × (mem_text r.execution_id ids ≡ false)

-- An execution that is active after the expiry is not expired.
abbrev pub IsKept : List Text → ExecutionRow → Type 0
IsKept ids e = is_active_execution e.status ≡ true → mem_text e.execution_id ids ≡ false

-- A fenced row is live if a lease that has run out is one of the executions.
fence_row-IsLive :
    (now : ℕ) (ids : List Text) (r : LeaseRow)
    → (is_stale now r ≡ true → mem_text r.execution_id ids ≡ true)
    → IsLive now ids (fence_row now ids r)
unfolding fence_row
fence_row-IsLive now ids r h = (λ active. ground arith)

fence_one-leases :
    (clock : ℕ → ℕ) (now : ℕ) (id : Text) (con : Connection)
    → (fence_one clock now id con).db.resource_leases ≡ con.db.resource_leases
unfolding fence_one
fence_one-leases clock now id con = ground arith

pub fence_one-executions :
    (clock : ℕ → ℕ) (now : ℕ) (id : Text) (con : Connection)
    → (fence_one clock now id con).db.executions ≡ map (fence_execution now id) con.db.executions
unfolding fence_one
fence_one-executions clock now id con = ground arith

pub fence_executions-leases :
    (clock : ℕ → ℕ) (now : ℕ) (ids : List Text) (con : Connection)
    → (fence_executions clock now ids con).db.resource_leases ≡ con.db.resource_leases
unfolding fence_executions
fence_executions-leases clock now [] con = refl
fence_executions-leases clock now (id ∷ ids) con =
    fence_executions-leases clock now ids _ ∙ fence_one-leases clock now id con

-- What holds of the rows, and is kept when a row is fenced, holds after the loop.
pub fence_executions-All :
    (P : ExecutionRow → Type 0) (clock : ℕ → ℕ) (now : ℕ) (ids : List Text) (con : Connection)
    → ((id : Text) (e : ExecutionRow) → P e → P (fence_execution now id e))
    → All P con.db.executions
    → All P (fence_executions clock now ids con).db.executions
unfolding fence_executions
fence_executions-All P clock now [] con kept h = h
fence_executions-All P clock now (id ∷ ids) con kept h =
    fence_executions-All P clock now ids _ kept (
      rw (fence_one-executions clock now id con) (
        All-map P (fence_execution now id) con.db.executions
          (All-weaken (kept id) con.db.executions h)))

fence_executions-IsKept :
    (clock : ℕ → ℕ) (now : ℕ) (ids : List Text) (con : Connection)
    → All (IsKept ids) (fence_executions clock now ids con).db.executions
unfolding fence_executions fence_execution
fence_executions-IsKept clock now [] con = All-intro (λ e active. refl) con.db.executions
fence_executions-IsKept clock now (id ∷ ids) con =
    All-weaken (λ e (off, kept). both e off kept) _
      (All-both Off (IsKept ids) _
        (fence_executions-All Off clock now ids (fence_one clock now id con) fence-Off (
          rw (fence_one-executions clock now id con) (
            All-map Off (fence_execution now id) con.db.executions
              (All-intro fence-self con.db.executions))))
        (fence_executions-IsKept clock now ids (fence_one clock now id con)))
  where
    Off : ExecutionRow → Type 0
    Off e = is_active_execution e.status ≡ true → text_eq e.execution_id id ≡ false

    fence-Off : (j : Text) (e : ExecutionRow) → Off e → Off (fence_execution now j e)
    fence-Off j e off = ground arith

    fence-self : (e : ExecutionRow) → Off (fence_execution now id e)
    fence-self e = ground arith

    both : (e : ExecutionRow) → Off e → IsKept ids e → IsKept (id ∷ ids) e
    both e off kept active = ground arith

-- After the expiry no lease is active that has run out, and an execution of which one lease ran out
-- is not active and has no active lease.
pub expire_stale_leases-atomic :
    (clock : ℕ → ℕ) (con : Connection)
    → All
        (IsLive (clock con.reads) (run_out clock con))
        (expire_stale_leases clock con).db.resource_leases
      × All (IsKept (run_out clock con)) (expire_stale_leases clock con).db.executions
unfolding expire_stale_leases
expire_stale_leases-atomic clock con = (
  rw (fence_executions-leases clock (clock con.reads) (run_out clock con) _) (
      All-map (IsLive (clock con.reads) (run_out clock con))
        (fence_row (clock con.reads) (run_out clock con)) con.db.resource_leases
        (All-weaken (fence_row-IsLive (clock con.reads) (run_out clock con)) con.db.resource_leases
          (stale-expired (clock con.reads) con.db.resource_leases))),
  fence_executions-IsKept clock (clock con.reads) (run_out clock con) _,
)
