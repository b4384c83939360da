-- ===== src/Command/Routing.antt =====
-- core/command/command_router.cpp: which devices a request of a source reaches.
use mathlib.Core.Path.{subst}
use cns_server.Base.{
  if_true, if_false, ◌≡◌, ◌↔◌, refl, sym, ◌∙◌, String, Bool, true, false, Option, none, some, arith,
  inl, inr, ok, Option-cases, Bool-cases, ℕ,
}
use cns_server.Protocol.{cns_box, device_type_eq}
use cns_server.Device.{DeviceRecord, DeviceRegistry, online, status_beq}
use cns_server.Registry.{
  find_device, find_by_school_and_label, find_by_school_name_and_label,
  is_school_name_and_label_ambiguous,
}
use cns_server.Registry.Invariant.{IsConsistent, find_self}
use cns_server.Registry.Lookup.{
  HasRole, IsOnly, IsShared, find_by_school_and_label_exact, find_by_school_name_and_label_exact,
}
use cns_server.Command.{
  RequestTarget, device_label_target, school_label_target, device_target, SourceConfigRequest,
  SourceControlRequest,
}
use cns_server.Command.Router.{
  CommandSource, ResolvedTarget, is_device, resolve, resolve_for_device, resolve_for_operator,
  from_source_device, resolve_config_target, resolve_control_target, as_config_request,
}

abbrev pub described : {J : Type 0} → DeviceRecord J → ResolvedTarget
described r = record {
  device_id = r.device_id;
  school_name = r.school_name;
  dcdw_label = r.dcdw_label;
}

module _ {J : Type 0} (d : DeviceRegistry J) (v : IsConsistent d) (source : CommandSource) where
  -- The source is an online device of the directory, in the school.
  abbrev pub IsOnlineAt : ℕ → Type 0
  IsOnlineAt school =
      (id : String) × (s : DeviceRecord J) × (source.device_id ≡ some id)
      × (find_device d id ≡ some s)
      × (s.status ≡ online)
      × (s.school_id ≡ school)

  -- The device that a target means for the source.
  abbrev pub IsAddressed : RequestTarget → DeviceRecord J → Type 0
  IsAddressed (device_label_target label) r =
      (is_device source.kind ≡ true) × IsOnlineAt r.school_id × HasRole d v r r.school_id label
  IsAddressed (school_label_target school label) r =
      (is_device source.kind ≡ false) × IsOnly d v school label r
  IsAddressed (device_target id) r = (is_device source.kind ≡ false) × (find_device d id ≡ some r)

  Reaches : RequestTarget → ResolvedTarget → Type 0
  Reaches target t = (r : DeviceRecord J) × IsAddressed target r × (t ≡ described r)

  offline_source :
      (s s' : DeviceRecord J) → s' ≡ s → s'.status ≡ online → status_beq s.status online ≡ false → ⊥
  offline_source s s' p on off = let on_too : s.status ≡ online = cc in ground arith

  resolved :
      (o : Option (DeviceRecord J)) (t : ResolvedTarget)
      → (resolve o ≡ ok t) ↔ ((r : DeviceRecord J) × (o ≡ some r) × (t ≡ described r))
  resolved none t = (λ h. ground arith, λ h. ground arith)
  resolved (some r) t = (λ h. (r, refl, cc), λ (s, p, q). cc)

  module _ (label : String) (t : ResolvedTarget) where
    -- The branch for a device, on what the directory has for it.
    from_source :
        (id : String) (o : Option (DeviceRecord J))
        → source.device_id ≡ some id
        → find_device d id ≡ o
        → is_device source.kind ≡ true
        → (from_source_device o label d ≡ ok t) ↔ Reaches (device_label_target label) t
    unfolding Reaches
    from_source id none i e k = (λ h. ground arith, λ (r, (_, (id', s, i', e', _, _), _), _). cc)
    from_source id (some s) i e k = elim (Bool-cases (status_beq s.status online)) [
      | inl on ↦
          subst (λ x. (x ≡ ok t) ↔ Reaches (device_label_target label) t) (sym (if_true _ _ on))
            (
              λ h.
                  let (r, p, q) = (resolved (find_by_school_and_label d s.school_id label) t).0 h in
                  let (here, at, l) =
                    (find_by_school_and_label_exact d v s.school_id label r).0 p in
                  (r, (k, (id, s, i, e, ground arith, sym at), (here, refl, l)), q),
              λ (r, (_, (id', s', i', e', _, at), (here, _, l)), q).
                  let same : s' ≡ s = cc in
                  (resolved (find_by_school_and_label d s.school_id label) t).1 (
                    r,
                    (find_by_school_and_label_exact d v s.school_id label r).1 (here, (cc), l),
                    q,
                  ),
            )
      | inr off ↦
          subst (λ x. (x ≡ ok t) ↔ Reaches (device_label_target label) t) (sym (if_false _ _ off))
            (
              λ h. absurd (ground arith),
              λ (r, (_, (id', s', i', e', on, at), _), q). absurd (offline_source s s' (cc) on off),
            )
    ]

    from_device :
        (id : Option String)
        → source.device_id ≡ id
        → is_device source.kind ≡ true
        → (resolve_for_device id (device_label_target label) d ≡ ok t)
          ↔ Reaches (device_label_target label) t
    unfolding Reaches
    from_device none i k = (λ h. ground arith, λ (r, (_, (id', s, i', _, _, _), _), _). cc)
    from_device (some id) i k = from_source id (find_device d id) i refl k

  from_operator :
      (target : RequestTarget) (t : ResolvedTarget)
      → is_device source.kind ≡ false
      → (resolve_for_operator target d ≡ ok t) ↔ Reaches target t
  unfolding Reaches
  from_operator (device_label_target label) t k = (λ h. ground arith, λ h. ground arith)
  from_operator (device_target id) t k = (
    λ h. let (r, p, q) = (resolved (find_device d id) t).0 h in (r, (k, p), q),
    λ (r, (_, p), q). (resolved (find_device d id) t).1 (r, p, q),
  )
  from_operator (school_label_target school label) t k = elim (Bool-cases shared) [
    | inl e ↦
        subst (λ x. (x ≡ ok t) ↔ Reaches (school_label_target school label) t) (sym (if_true _ _ e))
          (
            λ h. absurd (ground arith),
            λ (r, (_, only), q).
                let (a, b, p, q, ne) = by_name.1.0 e in absurd (ne (only.1 a p ∙ sym (only.1 b q))),
          )
    | inr e ↦
        subst (λ x. (x ≡ ok t) ↔ Reaches (school_label_target school label) t)
          (sym (if_false _ _ e))
          (
            λ h. let (r, p, q) = (resolved found t).0 h in (r, (k, (by_name.0 r).0 p), q),
            λ (r, (_, only), q). (resolved found t).1 (r, (by_name.0 r).1 only, q),
          )
  ]
    where
      shared : Bool
      shared = is_school_name_and_label_ambiguous d school label

      found : Option (DeviceRecord J)
      found = find_by_school_name_and_label d school label

      by_name :
          ((r : DeviceRecord J) → (found ≡ some r) ↔ IsOnly d v school label r)
          × ((shared ≡ true) ↔ IsShared d v school label)
      by_name = find_by_school_name_and_label_exact d v school label

  module _ (request : SourceConfigRequest J) where
    -- On a consistent directory, a configuration request of a source resolves to a target exactly
    -- when the target describes a device the request means for this source: an online device
    -- reaches the device with the label in its own school and nothing else; another source reaches
    -- a device by its id, or by a school name and label that this device alone has.
    pub resolve_config_target_exact :
        (t : ResolvedTarget)
        → (resolve_config_target source request d ≡ ok t)
          ↔ ((r : DeviceRecord J) × IsAddressed request.target r × (t ≡ described r))
    unfolding resolve_config_target Reaches
    resolve_config_target_exact t = elim (Bool-cases (is_device source.kind)) [
      | inl k ↦
          subst (λ x. (x ≡ ok t) ↔ Reaches request.target t) (sym (if_true _ _ k))
            (of_device request.target k)
      | inr k ↦
          subst (λ x. (x ≡ ok t) ↔ Reaches request.target t) (sym (if_false _ _ k))
            (from_operator request.target t k)
    ]
      where
        of_device :
            (target : RequestTarget)
            → is_device source.kind ≡ true
            → (resolve_for_device source.device_id target d ≡ ok t) ↔ Reaches target t
        of_device (device_label_target label) k = from_device label t source.device_id refl k
        of_device (device_target id) k = elim (Option-cases source.device_id) [
          | inl i ↦ (λ h. absurd (cc), λ (r, (k', _), _). absurd (ground arith))
          | inr (o, i) ↦ (λ h. absurd (cc), λ (r, (k', _), _). absurd (ground arith))
        ]
        of_device (school_label_target school label) k = elim (Option-cases source.device_id) [
          | inl i ↦ (λ h. absurd (cc), λ (r, (k', _), _). absurd (ground arith))
          | inr (o, i) ↦ (λ h. absurd (cc), λ (r, (k', _), _). absurd (ground arith))
        ]

  module _ (request : SourceControlRequest J) where
    controlled :
        (t : ResolvedTarget) (r : DeviceRecord J)
        → find_device d t.device_id ≡ some r
        → resolve_config_target source (as_config_request request) d ≡ ok t
        → (resolve_control_target source request d ≡ ok t) ↔ (r.device_type ≡ cns_box)
    unfolding resolve_control_target
    controlled t r here e = ground arith

    addressed_here :
        (target : RequestTarget) (r : DeviceRecord J)
        → IsAddressed target r
        → find_device d r.device_id ≡ some r
    unfolding find_device
    addressed_here (device_label_target label) r (_, _, (here, _, _)) = here
    addressed_here (school_label_target school label) r (_, ((here, _, _), _)) = here
    addressed_here (device_target id) r (_, here) = find_self d id r v here

    was_resolved :
        (t : ResolvedTarget)
        → resolve_control_target source request d ≡ ok t
        → resolve_config_target source (as_config_request request) d ≡ ok t
    unfolding resolve_control_target
    was_resolved t h = ground arith

    -- On a consistent directory, a control request of a source resolves to a target exactly when a
    -- configuration request with this target would, and the device is a control box, not a flight
    -- controller.
    pub resolve_control_target_exact :
        (t : ResolvedTarget)
        → (resolve_control_target source request d ≡ ok t) ↔ (
            (r : DeviceRecord J) × IsAddressed request.target r
            × (t ≡ described r)
            × (r.device_type ≡ cns_box))
    unfolding resolve_control_target
    resolve_control_target_exact t = (
      λ h.
          let (r, a, p) = config.0 (was_resolved t h) in
          let here = addressed_here request.target r a in
          (r, a, p, (controlled t r (cc) (was_resolved t h)).0 h),
      λ (r, a, p, box).
          let here = addressed_here request.target r a in
          (controlled t r (cc) (config.1 (r, a, p))).1 box,
    )
      where
        config :
            (resolve_config_target source (as_config_request request) d ≡ ok t)
            ↔ ((r : DeviceRecord J) × IsAddressed request.target r × (t ≡ described r))
        config = resolve_config_target_exact (as_config_request request) t
