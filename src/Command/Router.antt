-- ===== src/Command/Router.antt =====
-- core/command/command_router.cpp: the catalog of command sources, and the device that a request
-- of a source is for.
use Prim.Native.String.{◌++◌ as str_append}
use cns_server.Base.{
  String, Bool, true, false, List, [], ◌∷◌, Option, none, some, ◌==◌, if◌then◌else◌, is_some,
  Expected, ok, unexpected, string_eq,
}
use cns_server.Base.Map.{Map, find, insert, contains}
use cns_server.Protocol.{flight_controller, device_type_eq}
use cns_server.Device.{DeviceRecord, DeviceRegistry, status_beq, online}
use cns_server.Registry.{
  find_device, find_by_school_and_label, find_by_school_name_and_label,
  is_school_name_and_label_ambiguous,
}
use cns_server.Command.{
  SourceKind, device, RequestTarget, device_label_target, school_label_target, device_target,
  ProtocolError, SourceConfigRequest, SourceControlRequest,
}

pub record CommandSource : Type 0 where
  pub source_id : String
  pub kind : SourceKind
  pub device_id : Option String
  pub is_enabled : Bool

pub record ResolvedTarget : Type 0 where
  pub device_id : String
  pub school_name : String
  pub dcdw_label : Option String

abbrev pub is_device : SourceKind → Bool
is_device device = true
is_device _ = false

abbrev device_source_error : String → Option String → Option String
device_source_error source_id none = some "设备来源缺少关联设备"
device_source_error source_id (some d) = if d == source_id then none else some "设备来源标识必须等于关联设备标识"

-- The tests of Load on one source.
unfoldable pub source_error : CommandSource → Option String
source_error s =
    if s.source_id == ""
    then some "命令来源标识不能为空"
    else if is_device s.kind
    then device_source_error s.source_id s.device_id
    else if is_some s.device_id
    then some "非设备来源不得关联设备"
    else none

-- The loop of Load over `loaded`: the first source that does not fit ends it.
unfoldable pub load_sources :
    Map String CommandSource → List CommandSource → Expected String (Map String CommandSource)
unfolding source_error
load_sources loaded [] = ok loaded
load_sources loaded (s ∷ sources) =
    let rest = load_sources (insert s.source_id s loaded) sources in
    elim (source_error s) [
      | some message ↦ unexpected message
      | none ↦
          if contains s.source_id loaded
          then unexpected (str_append "命令来源标识重复: " s.source_id)
          else rest
    ]

-- SourceCatalog::Load. The catalog is replaced when every source fits, and kept otherwise.
unfoldable pub load_catalog :
    Map String CommandSource → List CommandSource → Map String CommandSource × Option String
unfolding load_sources
load_catalog catalog sources = elim (load_sources [] sources) [
  | ok loaded ↦ (loaded, none)
  | unexpected message ↦ (catalog, some message)
]

-- SourceCatalog::Find
unfoldable pub find_source : Map String CommandSource → String → Option CommandSource
find_source catalog source_id = find source_id catalog

abbrev pub invalid_device_source : ProtocolError
invalid_device_source = record { code = "invalid_target"; message = "设备来源只能使用同校角色号寻址" }

abbrev pub permission_denied : ProtocolError
permission_denied = record { code = "permission_denied"; message = "来源设备不在设备目录中" }

abbrev pub source_offline : ProtocolError
source_offline = record { code = "source_device_offline"; message = "来源设备当前离线" }

abbrev pub ambiguous : ProtocolError
ambiguous = record { code = "target_ambiguous"; message = "学校名和角色号对应多个设备" }

abbrev pub invalid_form : ProtocolError
invalid_form = record { code = "invalid_target"; message = "命令来源不能使用该目标形式" }

abbrev pub target_not_found : ProtocolError
target_not_found = record { code = "target_not_found"; message = "目标设备不存在" }

abbrev pub unsupported_device_type : ProtocolError
unsupported_device_type = record {
  code = "unsupported_device_type";
  message = "真实飞控当前只接收遥测与 Remote ID，不支持主控箱私有控制命令";
}

module _ {J : Type 0} where
  -- Resolve, and the test for a null target before it.
  abbrev pub resolve : Option (DeviceRecord J) → Expected ProtocolError ResolvedTarget
  resolve none = unexpected target_not_found
  resolve (some r) =
      ok
        (record { device_id = r.device_id; school_name = r.school_name; dcdw_label = r.dcdw_label })

  abbrev pub from_source_device :
      Option (DeviceRecord J) → String → DeviceRegistry J → Expected ProtocolError ResolvedTarget
  from_source_device none label devices = unexpected permission_denied
  from_source_device (some source_device) label devices =
      if status_beq source_device.status online
      then resolve (find_by_school_and_label devices source_device.school_id label)
      else unexpected source_offline

  -- The branch for a device that is a source itself.
  abbrev pub resolve_for_device :
      Option String → RequestTarget → DeviceRegistry J → Expected ProtocolError ResolvedTarget
  resolve_for_device (some id) (device_label_target label) devices =
      from_source_device (find_device devices id) label devices
  resolve_for_device _ _ devices = unexpected invalid_device_source

  -- The branches for the other sources.
  abbrev pub resolve_for_operator :
      RequestTarget → DeviceRegistry J → Expected ProtocolError ResolvedTarget
  resolve_for_operator (device_target id) devices = resolve (find_device devices id)
  resolve_for_operator (school_label_target school label) devices =
      if is_school_name_and_label_ambiguous devices school label
      then unexpected ambiguous
      else resolve (find_by_school_name_and_label devices school label)
  resolve_for_operator (device_label_target label) devices = unexpected invalid_form

  unfoldable pub resolve_config_target :
      CommandSource
      → SourceConfigRequest J
      → DeviceRegistry J
      → Expected ProtocolError ResolvedTarget
  resolve_config_target source request devices =
      if is_device source.kind
      then resolve_for_device source.device_id request.target devices
      else resolve_for_operator request.target devices

  abbrev pub is_flight_controller : Option (DeviceRecord J) → Bool
  is_flight_controller none = false
  is_flight_controller (some r) = r.device_type == flight_controller

  -- The request that ResolveControlTarget passes on.
  abbrev pub as_config_request : SourceControlRequest J → SourceConfigRequest J
  as_config_request request = record {
    request_id = request.request_id;
    target = request.target;
    parameters = record {
      telemetry_publish_interval_ms = none;
      heartbeat_interval_ms = none;
      mqtt_reconnect_delay_s = none;
      mqtt_reconnect_delay_max_s = none;
    };
    comparison_payload = request.comparison_payload;
  }

  unfoldable pub resolve_control_target :
      CommandSource
      → SourceControlRequest J
      → DeviceRegistry J
      → Expected ProtocolError ResolvedTarget
  unfolding resolve_config_target
  resolve_control_target source request devices =
      elim (resolve_config_target source (as_config_request request) devices) [
        | unexpected e ↦ unexpected e
        | ok t ↦
            if is_flight_controller (find_device devices t.device_id)
            then unexpected unsupported_device_type
            else ok t
      ]
