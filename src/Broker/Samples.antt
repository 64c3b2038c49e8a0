-- ===== src/Broker/Samples.antt =====
-- A request, its claims, and tables that the tests of the broker share.
use second_brain_coordinatio.Prelude.{
  ℕ, zero, suc, ◌+◌, Text, codes, true, false, none, List, [], ◌∷◌,
}
use second_brain_coordinatio.Broker.Models.{
  ResourceMode, ResourceType, AuthorityState, ResourceClaim, ExecutionRequest,
}
use second_brain_coordinatio.Broker.Store.{
  ExecutionStatus, RowStatus, ExecutionRow, LeaseRow, Connection,
}
use second_brain_coordinatio.Broker.Rules.{HostExecutionBroker, LeaseBinding, default_capacity}

abbrev pub same_text : Text → Text
same_text t = t

-- A text from its end, which stands for a hash that tells short texts apart.
abbrev backwards_onto : Text → Text → Text
backwards_onto [] out = out
backwards_onto (c ∷ s) out = backwards_onto s (c ∷ out)

abbrev pub backwards : Text → Text
backwards s = backwards_onto s []

-- The draw number `n` is a text of `n` letters.
abbrev pub draws : ℕ → Text
draws zero = []
draws (suc n) = b'a' ∷ draws n

-- A clock that shows 100 at first.
abbrev pub ticking : ℕ → ℕ
ticking n = 100 + n

abbrev pub sample_broker : HostExecutionBroker
sample_broker = record { capacities = default_capacity; lease_ttl_ms = 30000 }

abbrev pub sample_request : ExecutionRequest
sample_request = record {
  project_id = codes "P";
  task_id = codes "T";
  route_epoch = 1;
  mission_id = codes "M";
  milestone_id = codes "S";
  episode_id = codes "E";
  attempt = 1;
  role = codes "author";
  branch = codes "main";
  worktree = codes "C:/w";
  collision_domain = codes "dom";
  carrier = codes "carrier";
  model = codes "model";
  canonical_main_sha = codes "0123456789012345678901234567890123456789";
  authority_receipt_digest = codes "digest";
  authority_state = AuthorityState.current;
  resource_claims = [];
  write_surfaces = codes "src/**" ∷ [];
  repo_write = true;
  owner_window = none;
}

abbrev pub daemon_claim : ResourceClaim
daemon_claim = record {
  resource_type = ResourceType.workbuddy_daemon;
  resource_id = codes "Daemon";
  mode = ResourceMode.write;
  units = 1;
  exclusive = false;
}

-- A reader that wants the daemon, under a task id.
abbrev pub daemon_request : Text → ExecutionRequest
daemon_request task = record sample_request {
  task_id = task;
  resource_claims = daemon_claim ∷ [];
  write_surfaces = [];
  repo_write = false;
}

abbrev pub cpu_claim : ResourceClaim
cpu_claim = record {
  resource_type = ResourceType.cpu_heavy;
  resource_id = codes "cpu";
  mode = ResourceMode.read;
  units = 1;
  exclusive = false;
}

abbrev pub cpu_lease : Text → ℕ → LeaseRow
cpu_lease id expires = record {
  lease_id = id;
  execution_id = codes "EX-1";
  resource_type = ResourceType.cpu_heavy;
  resource_id = codes "cpu";
  mode = ResourceMode.read;
  units = 1;
  generation = 1;
  fencing_token = codes "F-1";
  status = RowStatus.active;
  acquired_at_ms = 10;
  expires_at_ms = expires;
  released_at_ms = none;
}

abbrev pub sample_execution : ExecutionRow
sample_execution = record {
  execution_id = codes "EX-1";
  idempotency_key = codes "key";
  request = sample_request;
  broker_key = codes "HX1";
  status = ExecutionStatus.running;
  created_at_ms = 10;
  updated_at_ms = 10;
  terminal_state = none;
}

-- One execution with the leases of a list.
abbrev pub with_leases : List LeaseRow → Connection
with_leases rows = record {
  db = record {
    executions = sample_execution ∷ [];
    resource_leases = rows;
    process_receipts = [];
    events = [];
  };
  reads = 0;
}

abbrev pub sample_binding : LeaseBinding
sample_binding = record {
  lease_id = codes "L1";
  execution_id = codes "EX-1";
  holder = codes "EX-1";
  resource_type = ResourceType.cpu_heavy;
  resource_id = codes "cpu";
  mode = ResourceMode.read;
  generation = 1;
  fencing_token = codes "F-1";
  issued_at_ms = 10;
  expires_at_ms = 500;
  state = RowStatus.active;
}
