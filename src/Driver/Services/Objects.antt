-- ===== src/Driver/Services/Objects.antt =====
-- The objects that plugin/pkg/driver/flannel_driver.go keeps for services: what a call of one of
-- their methods changes.
use flannel_network_plugin.Prelude.{
  ◌≡◌, refl, Bool, true, false, List, [], ◌∷◌, string_eq, nat_eq, nat_beq, nat_beq_iff,
  if◌then◌else◌, ap, ◌∙◌,
}
use flannel_network_plugin.Common.Service.{
  Service, Event, initialized, vips_changed, networks_changed, endpoint_mode_changed,
  container_added, container_removed, Call, calls_set_networks, calls_set_endpoint_mode, step,
}
use flannel_network_plugin.ServiceLb.Management.{Parts, ServiceRef, set_at}
use flannel_network_plugin.Driver.{
  Flannels, Driver, on_initialized, on_service_event, on_service_events, with_result, call_service,
}
use flannel_network_plugin.Driver.Services.{ServiceInfo, update_service}

module _ (parts : Parts) (flannels : Flannels parts) where
  open parts use {texts, lo, ip_eq}

  abbrev pub D : Type 0
  D = Driver parts flannels

  -- The handlers of the driver change neither the objects nor which service has which.
  abbrev SameObjects : D → D → Type 0
  SameObjects d1 d =
      (d1.services ≡ d.services)
      × (d1.next_object ≡ d.next_object)
      × (d1.world.objects ≡ d.world.objects)

  on_service_event-SameObjects :
      (s : ServiceRef) (event : Event texts.Ip) (d : D)
      → SameObjects (on_service_event parts flannels s event d) d
  unfolding on_service_event on_initialized
  on_service_event-SameObjects s initialized d = (refl, refl, refl)
  on_service_event-SameObjects s vips_changed d = (refl, refl, refl)
  on_service_event-SameObjects s networks_changed d = (refl, refl, refl)
  on_service_event-SameObjects s endpoint_mode_changed d = (refl, refl, refl)
  on_service_event-SameObjects s (container_added c) d = (refl, refl, refl)
  on_service_event-SameObjects s (container_removed c) d = (refl, refl, refl)

  on_service_events-SameObjects :
      (s : ServiceRef) (events : List (Event texts.Ip)) (d : D)
      → SameObjects (on_service_events parts flannels s events d) d
  unfolding on_service_events
  on_service_events-SameObjects s [] d = (refl, refl, refl)
  on_service_events-SameObjects s (event ∷ events) d =
      let d1 = on_service_event parts flannels s event d in
      let later = on_service_events-SameObjects s events d1 in
      let now = on_service_event-SameObjects s event d in
      (later.0 ∙ now.0, later.1 ∙ now.1, later.2 ∙ now.2)

  abbrev stepped : Call texts.Ip → Service texts.Ip → Service texts.Ip
  stepped call s = (step ⦃ip = ip_eq⦄ lo call s).0

  -- A method changes its object.
  call_service_lem :
      (s : ServiceRef) (call : Call texts.Ip) (d : D)
      → let d1 = call_service parts flannels s call d in
        (d1.services ≡ d.services)
        × (d1.next_object ≡ d.next_object)
        × (d1.world.objects ≡ set_at parts s (stepped call (d.world.objects s)) d.world.objects)
  unfolding call_service with_result
  call_service_lem s call d =
      let result = step ⦃ip = ip_eq⦄ lo call (d.world.objects s) in
      on_service_events-SameObjects s result.1 (with_result parts flannels s result d)

  abbrev pub updated : ServiceInfo texts.Ip → Service texts.Ip → Service texts.Ip
  updated info s =
      stepped (calls_set_networks info.networks info.ipam_vips)
        (stepped (calls_set_endpoint_mode info.endpoint_mode) s)

  pub update_service_lem :
      (info : ServiceInfo texts.Ip) (s : ServiceRef) (d : D)
      → let d1 = update_service parts flannels info (s, d) in
        (d1.services ≡ d.services)
        × (d1.next_object ≡ d.next_object)
        × ((r : ServiceRef)
            → d1.world.objects r
              ≡ set_at parts s (updated info (d.world.objects s)) d.world.objects r)
  unfolding update_service
  update_service_lem info s d =
      let mode_call = calls_set_endpoint_mode info.endpoint_mode in
      let networks_call = calls_set_networks info.networks info.ipam_vips in
      let first_mode = call_service_lem s mode_call d in
      let then_networks =
        call_service_lem s networks_call (call_service parts flannels s mode_call d) in
      (
        then_networks.0 ∙ first_mode.0,
        then_networks.1 ∙ first_mode.1,
        λ r.
            ap (λ objects. objects r) then_networks.2
            ∙ ap (λ objects. set_at parts s (stepped networks_call (objects s)) objects r)
                first_mode.2
            ∙ rw ((nat_beq_iff s s).1 refl) (both r (nat_beq s r)),
      )
    where
      both :
          (r : ServiceRef) (same : Bool)
          → (if same
              then updated info (d.world.objects s)
              else if same
              then stepped (calls_set_endpoint_mode info.endpoint_mode) (d.world.objects s)
              else d.world.objects r)
            ≡ (if same then updated info (d.world.objects s) else d.world.objects r)
      both r true = refl
      both r false = refl
