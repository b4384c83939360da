-- ===== src/Ingress/Tests.antt =====
-- Three messages, two of them refused.
use cns_server.Base.{◌+◌, ◌<◌, ◌≡◌, refl, true, false, List, [], ◌∷◌, arith}
use cns_server.Ingress.{DeviceIngress, size_max}
use cns_server.Ingress.Counts.{Message, run_messages, reported_count, refused, run_messages_counts}

abbrev fresh : DeviceIngress
fresh = record {
  last_emissions = [];
  rejected_count = 0;
  rejected_bytes = 0;
  is_enabled = true;
  has_diagnostic = true;
}

abbrev messages : List Message
messages =
    record { now = 1; payload_bytes = 10; is_accepted = false }
    ∷ record { now = 2; payload_bytes = 20; is_accepted = true }
    ∷ record { now = 3; payload_bytes = 30; is_accepted = false }
    ∷ []

room : 0 + refused 30 messages < size_max
unfolding refused
room = ground arith

run_messages_counts_example :
    reported_count 30 messages fresh + (run_messages 30 messages fresh).rejected_count
    ≡ 0 + refused 30 messages
run_messages_counts_example = run_messages_counts 30 messages fresh refl room
