-- ===== src/Kernel/Canonical.antt =====
-- tools/durable_mission_kernel/canonical.py: canonical JSON and the hash of an event envelope.
-- A float has no counterpart in `Value`: the kernel carries scaled integers.
pub mod Json
pub mod Loads
mod Escape
mod Number
mod Raw
mod Order
pub mod RoundTrip
mod Tests
use second_brain_coordinatio.Prelude.{ℕ, Text, codes, [], ◌∷◌}
use second_brain_coordinatio.Prelude.Int.{pos}
use second_brain_coordinatio.Kernel.Canonical.Json.{
  Value, str, int, obj, Fields, end, field, jcs_dumps, text_of_repeat,
}

-- `GENESIS_PREVIOUS_HASH`: sixty-four zeros
unfoldable pub genesis_previous_hash : Text
genesis_previous_hash = text_of_repeat 64 b'0'

-- The arguments of `event_hash` that follow the previous hash.
pub record Envelope : Type 0 where
  pub mission_id : Text
  pub run_id : Text
  pub state_seq : ℕ
  pub event_type : Text
  pub actor : Text
  pub timestamp_iso : Text
  pub payload : Value
  pub digests : Value

-- The dict that is hashed.
unfoldable pub envelope : Text → Envelope → Value
envelope previous e = obj (
    field (codes "mission_id") (str e.mission_id) (
      field (codes "run_id") (str e.run_id) (
        field (codes "state_seq") (int (pos e.state_seq)) (
          field (codes "event_type") (str e.event_type) (
            field (codes "previous_event_hash") (str previous) (
              field (codes "actor") (str e.actor) (
                field (codes "timestamp_iso") (str e.timestamp_iso)
                  (field (codes "payload") e.payload (field (codes "digests") e.digests end)))))))))

-- `sha256` stands for `hashlib.sha256(text.encode("utf-8")).hexdigest()`, on texts without lone
-- surrogates, for which `encode` raises.
module _ (sha256 : Text → Text) where
  unfoldable pub event_hash : Text → Envelope → Text
  event_hash previous e = sha256 (jcs_dumps (envelope previous e))

  unfoldable pub payload_digest : Value → Text
  payload_digest payload = sha256 (jcs_dumps payload)
