-- ===== src/Registry/Listing.antt =====
-- core/device/device_registry.cpp: the listings sorted by device id. Ids are compared as texts.
use Prim.Native.String.{compare}
use Prim.Native.Nat.{Ordering}
use cns_server.Base.{String, Bool, true, false, List, [], ◌∷◌, if◌then◌else◌, collect, string_eq}
use cns_server.Base.Map.{values}
use cns_server.Device.{DeviceRecord, DeviceRegistry, online, status_beq}

abbrev id_less : String → String → Bool
id_less a b = elim (compare a b) [ Ordering.lt ↦ true | _ ↦ false ]

module _ {J : Type 0} where
  unfoldable pub insert_by_id : DeviceRecord J → List (DeviceRecord J) → List (DeviceRecord J)
  insert_by_id r [] = r ∷ []
  insert_by_id r (x ∷ xs) =
      let rest = insert_by_id r xs in
      if id_less x.device_id r.device_id then x ∷ rest else r ∷ x ∷ xs

  -- std::ranges::sort, by device id
  unfoldable pub sort_by_id : List (DeviceRecord J) → List (DeviceRecord J)
  unfolding insert_by_id
  sort_by_id [] = []
  sort_by_id (x ∷ xs) = insert_by_id x (sort_by_id xs)

  -- ListOnlineDevices
  unfoldable pub list_online_devices : DeviceRegistry J → List (DeviceRecord J)
  unfolding sort_by_id
  list_online_devices d =
      sort_by_id (collect (λ r. status_beq r.status online) (λ r. r) (values d.records))

  -- ListDevices
  unfoldable pub list_devices : DeviceRegistry J → List (DeviceRecord J)
  unfolding sort_by_id
  list_devices d = sort_by_id (values d.records)
