-- ===== src/Driver/Services/Followed.antt =====
-- The service objects of plugin/pkg/driver/flannel_driver.go follow the data from Docker.
use flannel_network_plugin.Prelude.{
  ◌≡◌, refl, false, some, List, [], ◌∷◌, String, string_eq, nat_eq, nat_beq, nat_beq_iff, ◌==◌,
  ==_refl, inl, inr, Option-cases, ap, ◌∙◌, arith, All,
}
use flannel_network_plugin.Prelude.Dict.{lookup, lookup-insert}
use flannel_network_plugin.Common.Service.{Service, step, set_networks, set_endpoint_mode}
use flannel_network_plugin.ServiceLb.Management.{Parts, ServiceRef, set_at}
use flannel_network_plugin.Driver.{Flannels, create_service, get_or_add_service}
use flannel_network_plugin.Driver.Services.{ServiceInfo, handle_service, handle_services_added}
use flannel_network_plugin.Driver.Services.Objects.{D, updated, update_service_lem}
use flannel_network_plugin.Driver.Services.Owned.{
  IsOwned, get_or_add_service_other, handle_service-IsOwned,
}

module _ (parts : Parts) (flannels : Flannels parts) where
  open parts use {texts, lo, ip_eq}

  -- What the data says of a service.
  abbrev pub Follows : ServiceInfo texts.Ip → Service texts.Ip → Type 0
  Follows info s =
      (s.endpoint_mode ≡ info.endpoint_mode)
      × (s.networks ≡ info.networks)
      × (s.ipam_vips ≡ info.ipam_vips)

  -- The service of the data has an object, and the object has what the data says.
  abbrev pub IsFollowed : D parts flannels → ServiceInfo texts.Ip → Type 0
  IsFollowed d info =
      (s : ServiceRef) × (lookup info.id d.services ≡ some s) × Follows info (d.world.objects s)

  updated-Follows :
      (info : ServiceInfo texts.Ip) (s : Service texts.Ip)
      → Follows info (updated parts flannels info s)
  unfolding step set_networks set_endpoint_mode
  updated-Follows info s = (refl, refl, refl)

  get_or_add_service_lem :
      (id name : String) (d : D parts flannels)
      → let (s, d1) = get_or_add_service parts flannels id name d in lookup id d1.services ≡ some s
  unfolding get_or_add_service create_service
  get_or_add_service_lem id name d = elim (Option-cases (lookup id d.services)) [
    | inl new ↦
        rw (new, get_or_add_service)
          (lookup-insert id id d.next_object d.services ∙ rw (==_refl id) refl)
    | inr (s, there) ↦ rw (there, get_or_add_service) there
  ]

  with_updated :
      (info : ServiceInfo texts.Ip) (before after : Service texts.Ip)
      → after ≡ updated parts flannels info before
      → Follows info after
  with_updated info before after e =
      let follows = updated-Follows info before in
      (
        ap (λ s. s.endpoint_mode) e ∙ follows.0,
        ap (λ s. s.networks) e ∙ follows.1,
        ap (λ s. s.ipam_vips) e ∙ follows.2,
      )

  -- One round of `handleServicesAdded` makes the service's object follow the data.
  handle_service-IsFollowed :
      (info : ServiceInfo texts.Ip) (d : D parts flannels)
      → IsFollowed (handle_service parts flannels info d) info
  unfolding handle_service
  handle_service-IsFollowed info d =
      let (s, d1) = get_or_add_service parts flannels info.id info.name d in
      let after = update_service_lem parts flannels info s d1 in
      (
        s,
        ap (lookup info.id) after.0 ∙ get_or_add_service_lem info.id info.name d,
        with_updated info (d1.world.objects s) _ (after.2 s ∙ rw ((nat_beq_iff s s).1 refl) refl),
      )

  unaffected :
      (s r : ServiceRef) (x : Service texts.Ip) (f : ServiceRef → Service texts.Ip)
      → nat_beq s r ≡ false
      → set_at parts s x f r ≡ f r
  unaffected s r x f ne = rw (ne) refl

  -- A service that follows its data goes on to do so while other services are handled.
  handle_service-other :
      (info other : ServiceInfo texts.Ip) (d : D parts flannels)
      → IsOwned parts flannels d
      → (info.id == other.id) ≡ false
      → IsFollowed d other
      → IsFollowed (handle_service parts flannels info d) other
  unfolding handle_service
  handle_service-other info other d owned ne (r, there, follows) =
      let (s, d1) = get_or_add_service parts flannels info.id info.name d in
      let after = update_service_lem parts flannels info s d1 in
      let same =
        get_or_add_service_other parts flannels info.id info.name other.id d r owned ne there in
      let object =
        after.2 r
        ∙ unaffected s r (updated parts flannels info (d1.world.objects s)) d1.world.objects same.2
        ∙ same.1 in
      (
        r,
        ap (lookup other.id) after.0 ∙ same.0,
        (
          ap (λ s. s.endpoint_mode) object ∙ follows.0,
          ap (λ s. s.networks) object ∙ follows.1,
          ap (λ s. s.ipam_vips) object ∙ follows.2,
        ),
      )

  -- The identifiers of a list of data are all different, as those of the keys of a map are.
  abbrev pub Differ : List (ServiceInfo texts.Ip) → Type 0
  Differ [] = Unit
  Differ (info ∷ more) = All (λ other. (info.id == other.id) ≡ false) more × Differ more

  kept :
      (added : List (ServiceInfo texts.Ip)) (other : ServiceInfo texts.Ip) (d : D parts flannels)
      → IsOwned parts flannels d
      → All (λ info. (other.id == info.id) ≡ false) added
      → IsFollowed d other
      → IsFollowed (handle_services_added parts flannels added d) other
  unfolding handle_services_added
  kept [] other d owned ne followed = followed
  kept (info ∷ added) other d owned ne followed =
      kept added other (handle_service parts flannels info d)
        (handle_service-IsOwned parts flannels info d owned) ne.1
        (handle_service-other info other d owned (swapped ne.0) followed)
    where
      swapped : (other.id == info.id) ≡ false → (info.id == other.id) ≡ false
      swapped ne =
          ground (arith, ne, string_eq.beq_iff other.id info.id, string_eq.beq_iff info.id other.id)

  -- After services have been added, each of them has an object with the endpoint mode, the
  -- networks and the IPAM VIPs that the data names, if their identifiers differ and no two
  -- services shared an object before.
  pub handle_services_added-IsFollowed :
      (added : List (ServiceInfo texts.Ip)) (d : D parts flannels)
      → IsOwned parts flannels d
      → Differ added
      → All (IsFollowed (handle_services_added parts flannels added d)) added
  unfolding handle_services_added
  handle_services_added-IsFollowed [] d owned differ = tt
  handle_services_added-IsFollowed (info ∷ added) d owned differ = (
    kept added info (handle_service parts flannels info d)
        (handle_service-IsOwned parts flannels info d owned) differ.0
        (handle_service-IsFollowed info d),
    handle_services_added-IsFollowed added (handle_service parts flannels info d)
        (handle_service-IsOwned parts flannels info d owned) differ.1,
  )

  -- No two services come to share an object, whatever services are added.
  handle_services_added-IsOwned :
      (added : List (ServiceInfo texts.Ip)) (d : D parts flannels)
      → IsOwned parts flannels d
      → IsOwned parts flannels (handle_services_added parts flannels added d)
  unfolding handle_services_added
  handle_services_added-IsOwned [] d owned = owned
  handle_services_added-IsOwned (info ∷ added) d owned =
      handle_services_added-IsOwned added (handle_service parts flannels info d)
        (handle_service-IsOwned parts flannels info d owned)
