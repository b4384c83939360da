-- ===== src/StateEvent.antt =====
-- core/state_event/state_event.hpp: why a device's state was published.

pub data ChangeReason : Type 0 where
  registration_online registration_offline telemetry activity_timeout : ChangeReason
  database_recovered snapshot_replay : ChangeReason
