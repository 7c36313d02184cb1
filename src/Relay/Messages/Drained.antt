-- ===== src/Relay/Messages/Drained.antt =====
-- relay/relay.py: `_drain_existing_messages` takes the oldest message first.
use sms_gateway_v.Relay.State.{Relay}
