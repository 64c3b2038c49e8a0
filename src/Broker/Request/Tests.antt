-- ===== src/Broker/Request/Tests.antt =====
-- The claims of a request that reads and wants the daemon under a spelling of its own.
use second_brain_coordinatio.Prelude.{codes, List, [], ◌∷◌, ◌≡◌, refl, Result, ok, err, map}
use second_brain_coordinatio.Broker.Models.{ModelError, ResourceClaim, claim_key}
use second_brain_coordinatio.Broker.Request.{all_claims}
use second_brain_coordinatio.Broker.Samples.{same_text, daemon_request}

-- The claims that are returned, or none.
abbrev returned : Result ModelError (List ResourceClaim) → List ResourceClaim
returned (ok claims) = claims
returned (err e) = []

abbrev daemon_claims : List ResourceClaim
daemon_claims = returned (all_claims same_text same_text (daemon_request (codes "T")))

sorted_keys :
    map claim_key daemon_claims
    ≡ codes "BRANCH:main"
      ∷ codes "COLLISION_DOMAIN:dom"
      ∷ codes "WORKBUDDY_DAEMON:Daemon"
      ∷ codes "WORKTREE:C:/w"
      ∷ []
unfolding all_claims claim_key
sorted_keys = refl

returns : all_claims same_text same_text (daemon_request (codes "T")) ≡ ok daemon_claims
unfolding all_claims
returns = refl
