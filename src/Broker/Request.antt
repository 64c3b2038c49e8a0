-- ===== src/Broker/Request.antt =====
-- tools/host_execution_broker/models.py: `ExecutionRequest`, its keys and its claims. The Unicode
-- tables behind NFC and `casefold`, and `sha256(...).hexdigest()`, are parameters.
pub mod Distinct
mod Tests
use second_brain_coordinatio.Prelude.{
  ℕ, zero, suc, ◌-◌, Text, codes, text_eq, Bool, true, false, not, ◌&&◌, ◌||◌, List, [], ◌∷◌, ◌++◌,
  map, Result, ok, ◌>>=◌, ◌>>◌, raise_if, ltb, leb, ◌==◌, any, all, length, slashes, if◌then◌else◌,
}
use second_brain_coordinatio.Prelude.Int.{pos}
use second_brain_coordinatio.Kernel.Canonical.Json.{
  Value, int, str, obj, end, field, jcs_number, text_le,
}
use second_brain_coordinatio.Broker.Dumps.{dumps}
use second_brain_coordinatio.Broker.WritePaths.{
  is_empty, strip, canonicalize_authorized_paths, each,
}
use second_brain_coordinatio.Broker.Models.{
  ResourceMode, ResourceType, type_value, ResourceClaim, new_claim, ExecutionRequest, ModelError,
  empty_identity_field, epoch_or_attempt, bad_commit_sha, read_only_surfaces,
  empty_conflict_identity, surface_error, required_fields, blank, is_hex, access_mode,
  single_slashes, rstrip_slash, case_insensitive, is_worktree, merge_claim,
}

-- `s[:n]`
unfoldable pub prefix : ℕ → Text → Text
prefix zero s = []
prefix (suc n) [] = []
prefix (suc n) (c ∷ s) = c ∷ prefix n s

-- `s[n:]`
unfoldable pub suffix : ℕ → Text → Text
suffix zero s = s
suffix (suc n) [] = []
suffix (suc n) (c ∷ s) = suffix n s

-- `s.upper()` of hexadecimal digits
abbrev pub upper : Text → Text
upper = map (λ c. if leb b'a' c && leb c b'z' then c - 32 else c)

-- `c <= d` in the order of `(resource_type.value, resource_id)`
unfoldable pub claim_le : ResourceClaim → ResourceClaim → Bool
unfolding text_le
claim_le c d =
    if text_eq (type_value c.resource_type) (type_value d.resource_type)
    then text_le c.resource_id d.resource_id
    else text_le (type_value c.resource_type) (type_value d.resource_type)

unfoldable pub insert_claim : ResourceClaim → List ResourceClaim → List ResourceClaim
unfolding claim_le
insert_claim c [] = c ∷ []
insert_claim c (d ∷ ds) = if claim_le c d then c ∷ d ∷ ds else d ∷ insert_claim c ds

-- `sorted(...)` of the claims
unfoldable pub sort_claims : List ResourceClaim → List ResourceClaim
unfolding insert_claim
sort_claims [] = []
sort_claims (c ∷ cs) = insert_claim c (sort_claims cs)

module _ (nfc casefold : Text → Text) where
  -- `ExecutionRequest(...)` with its `__post_init__`
  unfoldable pub new_request : ExecutionRequest → Result ModelError ExecutionRequest
  unfolding strip canonicalize_authorized_paths
  new_request r = do
    raise_if (any blank (required_fields r)) empty_identity_field
    raise_if (ltb r.route_epoch 1 || ltb r.attempt 1) epoch_or_attempt
    raise_if (not ((length r.canonical_main_sha == 40) && all is_hex r.canonical_main_sha))
        bad_commit_sha
    surfaces ← surface_error (canonicalize_authorized_paths nfc casefold r.write_surfaces)
    raise_if (not r.repo_write && not (length surfaces == 0)) read_only_surfaces
    ok (record r { write_surfaces = surfaces })

  -- The text before `casefold`, for a path or another name.
  unfoldable pub conflict_text : Text → Bool → Text
  unfolding strip single_slashes rstrip_slash
  conflict_text value path_like =
      if path_like
      then rstrip_slash (single_slashes (slashes (nfc (strip value))))
      else nfc (strip value)

  -- `_windows_conflict_key`
  unfoldable pub windows_conflict_key : Text → Bool → Result ModelError Text
  unfolding conflict_text
  windows_conflict_key value path_like = do
    raise_if (is_empty (conflict_text value path_like)) empty_conflict_identity
    ok (casefold (conflict_text value path_like))

  -- `_normalize_claim_resource_id`
  unfoldable pub normalize_claim_resource_id : ResourceType → Text → Result ModelError Text
  unfolding windows_conflict_key
  normalize_claim_resource_id t resource_id =
      if not (case_insensitive t)
      then ok resource_id
      else windows_conflict_key resource_id (is_worktree t)

  -- A claim with the normalized id; the constructor checks it again if the id has changed.
  unfoldable pub normalize_claim : ResourceClaim → Result ModelError ResourceClaim
  unfolding normalize_claim_resource_id new_claim
  normalize_claim c = do
    resource_id ← normalize_claim_resource_id c.resource_type c.resource_id
    if text_eq resource_id c.resource_id
        then ok c
        else new_claim (record c { resource_id = resource_id })

  -- The list `implicit` of `all_claims`.
  unfoldable pub implicit_claims : ExecutionRequest → Result ModelError (List ResourceClaim)
  unfolding windows_conflict_key new_claim
  implicit_claims r = do
    branch_key ← windows_conflict_key r.branch false
    branch_claim ← new_claim (record {
      resource_type = ResourceType.branch;
      resource_id = branch_key;
      mode = access_mode r.repo_write;
      units = 1;
      exclusive = false;
    })
    worktree_key ← windows_conflict_key r.worktree true
    worktree_claim ← new_claim (record {
      resource_type = ResourceType.worktree;
      resource_id = worktree_key;
      mode = access_mode r.repo_write;
      units = 1;
      exclusive = false;
    })
    domain_claim ← new_claim (record {
      resource_type = ResourceType.collision_domain;
      resource_id = r.collision_domain;
      mode = access_mode r.repo_write;
      units = 1;
      exclusive = false;
    })
    surface_claims ←
        each
          (λ s. new_claim (record {
            resource_type = ResourceType.write_surface;
            resource_id = s;
            mode = ResourceMode.write;
            units = 1;
            exclusive = false;
          }))
          (if r.repo_write then r.write_surfaces else [])
    ok (branch_claim ∷ worktree_claim ∷ domain_claim ∷ surface_claims)

  -- The loop of `all_claims` over the claims.
  unfoldable pub merge_claims :
      List ResourceClaim → List ResourceClaim → Result ModelError (List ResourceClaim)
  unfolding normalize_claim merge_claim
  merge_claims [] by_key = ok by_key
  merge_claims (c ∷ cs) by_key = do n ← normalize_claim c; merge_claims cs (merge_claim n by_key)

  unfoldable pub all_claims : ExecutionRequest → Result ModelError (List ResourceClaim)
  unfolding implicit_claims merge_claims sort_claims
  all_claims r = do
    implicit ← implicit_claims r
    by_key ← merge_claims (implicit ++ r.resource_claims) []
    ok (sort_claims by_key)

module _ (sha256 : Text → Text) where
  -- `idempotency_key`
  unfoldable pub idempotency_key : ExecutionRequest → Text
  idempotency_key r = sha256 (
      r.project_id
      ++ 0
        ∷ (r.task_id
            ++ 0
              ∷ jcs_number (pos r.route_epoch)
                  (0 ∷ (r.episode_id ++ 0 ∷ jcs_number (pos r.attempt) []))))

  -- The dict `material`.
  unfoldable pub identity_material : ExecutionRequest → Value
  identity_material r = obj (
      field (codes "project_id") (str r.project_id) (
        field (codes "task_id") (str r.task_id) (
          field (codes "route_epoch") (int (pos r.route_epoch)) (
            field (codes "mission_id") (str r.mission_id) (
              field (codes "milestone_id") (str r.milestone_id) (
                field (codes "episode_id") (str r.episode_id) (
                  field (codes "attempt") (int (pos r.attempt))
                    (field (codes "role") (str r.role) end))))))))

  unfoldable pub execution_identity : ExecutionRequest → Text
  unfolding identity_material dumps
  execution_identity r = sha256 (dumps (codes ",") (codes ":") (identity_material r))

  unfoldable pub broker_key : ExecutionRequest → Text
  unfolding execution_identity prefix
  broker_key r = codes "HX" ++ upper (prefix 16 (execution_identity r))
