-- ===== src/Registry/Runs.antt =====
-- The directory after a load and any sequence of operations.
use mathlib.Core.Path.{subst}
use cns_server.Base.{
  ℕ, ◌≡◌, refl, String, List, [], ◌∷◌, ℕ_eq, string_eq, option_eq, Expected, ok, unexpected,
}
use cns_server.Base.Map.{find}
use cns_server.Protocol.{Registration, Telemetry, device_type_eq}
use cns_server.Device.{DeviceRecord, DeviceRegistry, role_key_eq, named_role_key_eq, Error}
use cns_server.Device.Index.{count}
use cns_server.Registry.{
  apply_registration, apply_telemetry, expire_inactive, add_provisioned, empty_registry, load_from,
  load,
}
use cns_server.Registry.Invariant.{IsConsistent}
use cns_server.Registry.Preserve.{
  Leaves, apply_registration-IsConsistent, apply_telemetry-IsConsistent,
  expire_inactive-IsConsistent, add_provisioned-IsConsistent,
}

-- What the rest of the service asks of the directory.
pub data Request (J : Type 0) : Type 0 where
  registers : Registration J → ℕ → Request J
  reports : String → Telemetry J → ℕ → Request J
  expires : ℕ → ℕ → Request J
  provisions : DeviceRecord J → Request J

module _ {J : Type 0} where
  load_from-IsConsistent :
      (d : DeviceRegistry J) (rs : List (DeviceRecord J))
      → IsConsistent d
      → Leaves IsConsistent (λ d'. d') (load_from d rs)
  unfolding load_from
  load_from-IsConsistent d [] v = v
  load_from-IsConsistent d (r ∷ rs) v =
      next (add_provisioned d r) (add_provisioned-IsConsistent d r v)
        (λ d'. load_from-IsConsistent d' rs)
    where
      next :
          (x : Expected Error (DeviceRegistry J))
          → Leaves IsConsistent (λ d'. d') x
          → ((d' : DeviceRegistry J)
              → IsConsistent d'
              → Leaves IsConsistent (λ d'. d') (load_from d' rs))
          → Leaves IsConsistent
              (λ d'. d')
              (elim x [ unexpected e ↦ unexpected e | ok d' ↦ load_from d' rs ])
      next (ok d') w k = k d' w
      next (unexpected e) w k = tt

  empty_registry-IsConsistent : IsConsistent (empty_registry {J = J})
  unfolding find count
  empty_registry-IsConsistent = record {
    unique = tt;
    keyed = λ id r e. cc;
    roles_exact = λ key id. refl;
    names_exact = λ key id. refl;
  }

  abbrev after :
      {A : Type 0} → DeviceRegistry J → (A → DeviceRegistry J) → Expected Error A → DeviceRegistry J
  after d state (ok a) = state a
  after d state (unexpected e) = d

  unfoldable pub step : DeviceRegistry J → Request J → DeviceRegistry J
  step d (registers reg t) = after d (λ p. p.0) (apply_registration d reg t)
  step d (reports id m t) = after d (λ p. p.0) (apply_telemetry d id m t)
  step d (expires now timeout) = (expire_inactive d now timeout).0
  step d (provisions r) = after d (λ d'. d') (add_provisioned d r)

  unfoldable pub run : DeviceRegistry J → List (Request J) → DeviceRegistry J
  run d [] = d
  run d (q ∷ qs) = run (step d q) qs

  Leaves-after :
      {A : Type 0} (d : DeviceRegistry J) (P : DeviceRegistry J → Type 0)
      (state : A → DeviceRegistry J) (x : Expected Error A)
      → P d
      → Leaves P state x
      → P (after d state x)
  Leaves-after d P state (ok a) p l = l
  Leaves-after d P state (unexpected e) p l = p

  step-IsConsistent :
      (d : DeviceRegistry J) (q : Request J) → IsConsistent d → IsConsistent (step d q)
  unfolding step
  step-IsConsistent d (registers reg t) v =
      Leaves-after d IsConsistent (λ p. p.0) (apply_registration d reg t) v
        (apply_registration-IsConsistent d reg t v)
  step-IsConsistent d (reports id m t) v =
      Leaves-after d IsConsistent (λ p. p.0) (apply_telemetry d id m t) v
        (apply_telemetry-IsConsistent d id m t v)
  step-IsConsistent d (expires now timeout) v = expire_inactive-IsConsistent d now timeout v
  step-IsConsistent d (provisions r) v =
      Leaves-after d IsConsistent (λ d'. d') (add_provisioned d r) v
        (add_provisioned-IsConsistent d r v)

  run_keeps :
      (d : DeviceRegistry J) (qs : List (Request J)) → IsConsistent d → IsConsistent (run d qs)
  unfolding run
  run_keeps d [] v = v
  run_keeps d (q ∷ qs) v = run_keeps (step d q) qs (step-IsConsistent d q v)

  load-IsConsistent :
      (d d' : DeviceRegistry J) (rs : List (DeviceRecord J)) → load d rs ≡ ok d' → IsConsistent d'
  unfolding load
  load-IsConsistent d d' rs e =
      subst (Leaves IsConsistent (λ x. x)) e
        (load_from-IsConsistent empty_registry rs empty_registry-IsConsistent)

  -- After a load that succeeds and any sequence of registrations, telemetry, expirations and
  -- provisionings, refused or not: no device id stands twice, each record stands under its own id,
  -- the index by school number and label names exactly the devices that have the role, and the
  -- index by school name and label lists exactly the devices that have the name, each once.
  pub run-load-IsConsistent :
      (d d' : DeviceRegistry J) (rs : List (DeviceRecord J)) (qs : List (Request J))
      → load d rs ≡ ok d'
      → IsConsistent (run d' qs)
  run-load-IsConsistent d d' rs qs e = run_keeps d' qs (load-IsConsistent d d' rs e)
