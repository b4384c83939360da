-- ===== src/Command/Tests.antt =====
-- Commands, sources and targets at concrete inputs.
use cns_server.Base.{
  ℕ, ◌≡◌, ◌≢◌, ◌↔◌, ◌⊎◌, refl, String, true, List, [], ◌∷◌, ◌++◌, none, some, ok, In,
}
use cns_server.Protocol.{cns_box}
use cns_server.Device.{DeviceRecord}
use cns_server.Registry.Tests.{directory, directory-IsConsistent}
use cns_server.Command.{
  CommandStatus, pending, dispatched, in_progress, succeeded, is_terminal, can_transition, device,
  control_center, device_label_target, SourceConfigRequest, SourceControlRequest, emergency_stop,
}
use cns_server.Command.{control, command_type_text, parse_command_type}
use cns_server.Command.Validation.{is_uuid_v4_shape, format_uuid_v4}
use cns_server.Command.Names.{parse_command_type_exact}
use cns_server.Command.Lifecycle.{IsHistory, history_exact}
use cns_server.Command.Router.{
  CommandSource, ResolvedTarget, resolve_config_target, resolve_control_target, load_catalog,
  find_source,
}
use cns_server.Command.Routing.{
  IsAddressed, described, resolve_config_target_exact, resolve_control_target_exact,
}
use cns_server.Command.Catalog.{IsProper, load_catalog_exact}

abbrev states : List CommandStatus
states = dispatched ∷ in_progress ∷ in_progress ∷ succeeded ∷ []

states-IsHistory : IsHistory pending states
unfolding can_transition
states-IsHistory = (refl, (refl, (refl, (refl, tt))))

history_exact_example :
    ((In in_progress states ⊎ In succeeded states)
      → (rest : List CommandStatus) × (states ≡ dispatched ∷ rest) × (In dispatched rest → ⊥))
    × (In pending states → ⊥)
    × ((t : CommandStatus) (ys zs : List CommandStatus)
        → states ≡ ys ++ t ∷ zs
        → is_terminal t ≡ true
        → zs ≡ [])
history_exact_example = history_exact states states-IsHistory

abbrev source_a : CommandSource
source_a = record { source_id = "a"; kind = device; device_id = some "a"; is_enabled = true }

abbrev center : CommandSource
center = record { source_id = "center"; kind = control_center; device_id = none; is_enabled = true }

abbrev to_l2 : SourceConfigRequest ℕ
to_l2 = record {
  request_id = "r1";
  target = device_label_target "L2";
  parameters = record {
    telemetry_publish_interval_ms = some 500;
    heartbeat_interval_ms = none;
    mqtt_reconnect_delay_s = none;
    mqtt_reconnect_delay_max_s = none;
  };
  comparison_payload = 1;
}

abbrev stop_l2 : SourceControlRequest ℕ
stop_l2 = record {
  request_id = "r2";
  target = device_label_target "L2";
  command = emergency_stop;
  parameters = record { pwm_us = none };
  comparison_payload = 2;
}

abbrev target_b : ResolvedTarget
target_b = record { device_id = "b"; school_name = "north"; dcdw_label = some "L2" }

resolve_config_target_exact_example :
    (resolve_config_target source_a to_l2 directory ≡ ok target_b) ↔ (
      (r : DeviceRecord ℕ) × IsAddressed directory directory-IsConsistent source_a
        (device_label_target "L2")
        r
      × (target_b ≡ described r))
resolve_config_target_exact_example =
    resolve_config_target_exact directory directory-IsConsistent source_a to_l2 target_b

resolve_control_target_exact_example :
    (resolve_control_target source_a stop_l2 directory ≡ ok target_b) ↔ (
      (r : DeviceRecord ℕ) × IsAddressed directory directory-IsConsistent source_a
        (device_label_target "L2")
        r
      × (target_b ≡ described r)
      × (r.device_type ≡ cns_box))
resolve_control_target_exact_example =
    resolve_control_target_exact directory directory-IsConsistent source_a stop_l2 target_b

load_catalog_exact_example :
    let after = load_catalog [] (source_a ∷ center ∷ []) in
    ((after.1 ≢ none) × (after.0 ≡ []))
    ⊎ ((after.1 ≡ none)
        × ((id : String) (s : CommandSource)
            → (find_source after.0 id ≡ some s)
              ↔ (In s (source_a ∷ center ∷ []) × (s.source_id ≡ id)))
        × ((s : CommandSource) → In s (source_a ∷ center ∷ []) → IsProper s))
load_catalog_exact_example = load_catalog_exact [] (source_a ∷ center ∷ [])

parse_command_type_exact_example :
    (parse_command_type "control" ≡ ok control)
    ↔ (◌≡◌ {A = String} "control" (command_type_text control))
parse_command_type_exact_example = parse_command_type_exact "control" control

formats :
    is_uuid_v4_shape (
      format_uuid_v4
        (255 ∷ 1 ∷ 2 ∷ 3 ∷ 4 ∷ 5 ∷ 246 ∷ 7 ∷ 200 ∷ 9 ∷ 10 ∷ 11 ∷ 12 ∷ 13 ∷ 14 ∷ 255 ∷ []))
    ≡ true
unfolding is_uuid_v4_shape format_uuid_v4
formats = refl
