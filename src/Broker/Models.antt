-- ===== src/Broker/Models.antt =====
-- tools/host_execution_broker/models.py: the enums, claims and their merging, requests, leases,
-- workers, receipts, and the classification of progress. `sha256` is the hexadecimal digest of a
-- text.
use second_brain_coordinatio.Prelude.{
  ℕ, Text, codes, text_eq, Bool, true, false, ◌&&◌, ◌||◌, Option, List, [], ◌∷◌, ◌++◌, Result, ok,
  err, ◌>>=◌, ◌>>◌, raise_if, ltb, leb, ◌==◌, starts_with, if◌then◌else◌,
}
use second_brain_coordinatio.Broker.WritePaths.{
  PathError, is_empty, strip, canonicalize_write_path_pattern,
}

pub data DecisionOutcome : Type 0 where
  admit wait join_existing block_conflict reroute : DecisionOutcome

pub data ResourceMode : Type 0 where
  read write : ResourceMode

pub data ResourceType : Type 0 where
  host rdc_process_mutation_channel workbuddy_daemon workbuddy_agent_session : ResourceType
  workbuddy_one_time_runner codex_session local_port worktree branch collision_domain : ResourceType
  write_surface cpu_light cpu_heavy gpu_local market_data_provider : ResourceType
  exclusive_local_runtime : ResourceType

-- `ResourceType.value`
abbrev pub type_value : ResourceType → Text
type_value ResourceType.host = codes "HOST"
type_value ResourceType.rdc_process_mutation_channel = codes "RDC_PROCESS_MUTATION_CHANNEL"
type_value ResourceType.workbuddy_daemon = codes "WORKBUDDY_DAEMON"
type_value ResourceType.workbuddy_agent_session = codes "WORKBUDDY_AGENT_SESSION"
type_value ResourceType.workbuddy_one_time_runner = codes "WORKBUDDY_ONE_TIME_RUNNER"
type_value ResourceType.codex_session = codes "CODEX_SESSION"
type_value ResourceType.local_port = codes "LOCAL_PORT"
type_value ResourceType.worktree = codes "WORKTREE"
type_value ResourceType.branch = codes "BRANCH"
type_value ResourceType.collision_domain = codes "COLLISION_DOMAIN"
type_value ResourceType.write_surface = codes "WRITE_SURFACE"
type_value ResourceType.cpu_light = codes "CPU_LIGHT"
type_value ResourceType.cpu_heavy = codes "CPU_HEAVY"
type_value ResourceType.gpu_local = codes "GPU_LOCAL"
type_value ResourceType.market_data_provider = codes "MARKET_DATA_PROVIDER"
type_value ResourceType.exclusive_local_runtime = codes "EXCLUSIVE_LOCAL_RUNTIME"

abbrev pub same_type : ResourceType → ResourceType → Bool
same_type s t = text_eq (type_value s) (type_value t)

pub data AuthorityState : Type 0 where
  current unknown stale revoked : AuthorityState

-- `OUTCOME_UNKNOWN` and its alias are one member.
pub data ProgressState : Type 0 where
  authorized_not_started starting running idle_expected stalled waiting_review : ProgressState
  waiting_canonicalization checkpointing resuming worker_failure outcome_unknown : ProgressState
  complete : ProgressState

pub data TransportState : Type 0 where
  fine outcome_unknown worker_failure : TransportState

-- What raises a `ValueError`.
pub data ModelError : Type 0 where
  empty_resource_id units_below_one empty_identity_field epoch_or_attempt bad_commit_sha :
      ModelError
  read_only_surfaces empty_conflict_identity bad_worker_numbers stall_not_positive : ModelError
  non_canonical_surface : PathError → ModelError

pub record ResourceClaim : Type 0 where
  pub resource_type : ResourceType
  pub resource_id : Text
  pub mode : ResourceMode
  pub units : ℕ
  pub exclusive : Bool

-- An error of the path grammar, raised again.
abbrev pub surface_error : {A : Type 0} → Result PathError A → Result ModelError A
surface_error (ok a) = ok a
surface_error (err e) = err (non_canonical_surface e)

abbrev pub is_write_surface : ResourceType → Bool
is_write_surface ResourceType.write_surface = true
is_write_surface _ = false

-- `ResourceClaim(...)` with its `__post_init__`
unfoldable pub new_claim : ResourceClaim → Result ModelError ResourceClaim
unfolding strip canonicalize_write_path_pattern
new_claim c = do
  raise_if (is_empty (strip c.resource_id)) empty_resource_id
  raise_if (ltb c.units 1) units_below_one
  if is_write_surface c.resource_type
      then (do checked ← surface_error (canonicalize_write_path_pattern c.resource_id); ok c)
      else ok c

-- `ResourceClaim.key`
unfoldable pub claim_key : ResourceClaim → Text
claim_key c = type_value c.resource_type ++ b':' ∷ c.resource_id

pub record ExecutionRequest : Type 0 where
  pub project_id : Text
  pub task_id : Text
  pub route_epoch : ℕ
  pub mission_id : Text
  pub milestone_id : Text
  pub episode_id : Text
  pub attempt : ℕ
  pub role : Text
  pub branch : Text
  pub worktree : Text
  pub collision_domain : Text
  pub carrier : Text
  pub model : Text
  pub canonical_main_sha : Text
  pub authority_receipt_digest : Text
  pub authority_state : AuthorityState
  pub resource_claims : List ResourceClaim
  pub write_surfaces : List Text
  pub repo_write : Bool
  pub owner_window : Option Text

-- `[0-9a-f]`
abbrev pub is_hex : ℕ → Bool
is_hex c = leb b'0' c && leb c b'9' || leb b'a' c && leb c b'f'

abbrev pub blank : Text → Bool
blank t = is_empty (strip t)

-- The tuple `required` of `ExecutionRequest.__post_init__`.
abbrev pub required_fields : ExecutionRequest → List Text
required_fields r =
    r.project_id ∷ r.task_id ∷ r.mission_id ∷ r.milestone_id ∷ r.episode_id ∷ r.role ∷ r.branch
    ∷ r.worktree ∷ r.collision_domain ∷ r.carrier ∷ r.model ∷ r.canonical_main_sha
    ∷ r.authority_receipt_digest ∷ []

-- `max(a, b)`
abbrev pub maximum : ℕ → ℕ → ℕ
maximum a b = if ltb a b then b else a

abbrev pub strongest : ResourceMode → ResourceMode → ResourceMode
strongest ResourceMode.write m = ResourceMode.write
strongest ResourceMode.read m = m

abbrev pub access_mode : Bool → ResourceMode
access_mode true = ResourceMode.write
access_mode false = ResourceMode.read

-- The loop `while "//" in s`: each run of separators ends as one.
unfoldable pub single_slashes : Text → Text
single_slashes [] = []
single_slashes (c ∷ s) =
    let rest = single_slashes s in
    if (c == b'/') && starts_with (codes "/") rest then rest else c ∷ rest

-- `s.rstrip("/")`
unfoldable pub rstrip_slash : Text → Text
rstrip_slash [] = []
rstrip_slash (c ∷ s) =
    let rest = rstrip_slash s in if (c == b'/') && is_empty rest then [] else c ∷ rest

-- `_WINDOWS_CASE_INSENSITIVE_HOST_RESOURCE_TYPES`
abbrev pub case_insensitive : ResourceType → Bool
case_insensitive ResourceType.worktree = true
case_insensitive ResourceType.branch = true
case_insensitive ResourceType.workbuddy_daemon = true
case_insensitive _ = false

abbrev pub is_worktree : ResourceType → Bool
is_worktree ResourceType.worktree = true
is_worktree _ = false

-- The claims that a dict holds, by type and resource id; a key that is new goes to the end.
unfoldable pub merge_claim : ResourceClaim → List ResourceClaim → List ResourceClaim
merge_claim c [] = c ∷ []
merge_claim c (p ∷ ps) =
    let rest = merge_claim c ps in
    if same_type p.resource_type c.resource_type && text_eq p.resource_id c.resource_id
    then record c {
      mode = strongest p.mode c.mode;
      units = maximum p.units c.units;
      exclusive = p.exclusive || c.exclusive;
    }
      ∷ ps
    else p ∷ rest
