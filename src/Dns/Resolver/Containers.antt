-- ===== src/Dns/Resolver/Containers.antt =====
-- What adding and removing a container does to the names of plugin/pkg/dns/resolver.go.
use flannel_network_plugin.Prelude.{
  ◌≡◌, refl, ap, ◌∙◌, Bool, false, not, List, [], ◌∷◌, ◌++◌, String, string_eq, ◌==◌, if◌then◌else◌,
  ltb, length, arith, contains, filter, contains-append, Bool-cases, inl, inr, ==_refl,
}
use flannel_network_plugin.Prelude.Dict.{Dict, lookup, insert, remove, lookup-insert, lookup-remove}
use flannel_network_plugin.External.Lo.{Lo}
use flannel_network_plugin.Common.Service.{ContainerInfo}
use flannel_network_plugin.Dns.Resolver.{
  ContainerDnsNameData, Resolver, or_none, entries, add_to_map, remove_from_map, data_of, add_names,
  add_networks, remove_names, remove_networks, add_container, remove_container,
}

-- All the names of a container.
abbrev pub all_names : Dict String (List String) → List String
all_names [] = []
all_names ((network_id, dns_names) ∷ more) = dns_names ++ all_names more

module _ {A : Type 0} where
  -- What is recorded under a name.
  abbrev pub items : String → Dict String (List A) → List A
  items d m = or_none (lookup d m)

  items-add_to_map :
      (m : Dict String (List A)) (key d : String) (item : A)
      → items d (add_to_map m key item) ≡ (if key == d then items d m ++ (item ∷ []) else items d m)
  unfolding add_to_map
  items-add_to_map m key d item =
      ground (arith, lookup-insert key d (items key m ++ (item ∷ [])) m, string_eq.beq_iff key d)

  filter_lem : (lo : Lo) (p : A → Bool) (xs : List A) → lo.filter A p xs ≡ filter p xs
  filter_lem lo p [] = lo.filter_nil A p
  filter_lem lo p (x ∷ xs) = lo.filter_cons A p x xs ∙ ground (arith, filter_lem lo p xs)

  items-stored :
      (key d : String) (xs : List A) (m : Dict String (List A))
      → items d (if ltb 0 (length xs) then insert key xs m else remove key m)
        ≡ (if key == d then xs else items d m)
  items-stored key d [] m = ground (arith, lookup-remove key d m)
  items-stored key d (x ∷ xs) m = ground (arith, lookup-insert key d (x ∷ xs) m)

  items-remove_from_map :
      (lo : Lo) (m : Dict String (List A)) (key d : String) (predicate : A → Bool)
      → items d (remove_from_map lo m key predicate)
        ≡ (if key == d then filter (λ item. not (predicate item)) (items d m) else items d m)
  unfolding remove_from_map
  items-remove_from_map lo m key d predicate =
      let kept = filter (λ item. not (predicate item)) (items key m) in
      rw (filter_lem lo (λ item. not (predicate item)) (items key m)) (
        items-stored key d kept m ∙ elim (Bool-cases (key == d)) [
          | inl same ↦ rw ((string_eq.beq_iff key d).0 same) refl
          | inr other ↦ ground (arith, other)
        ])

module _ {Ip : Type 0} (lo : Lo) (c : ContainerInfo Ip) where
  -- The data of other containers than `c`.
  abbrev pub others : List (ContainerDnsNameData Ip) → List (ContainerDnsNameData Ip)
  others = filter (λ item. not (item.container_id == c.id))

  others-others : (xs : List (ContainerDnsNameData Ip)) → others (others xs) ≡ others xs
  others-others [] = refl
  others-others (x ∷ xs) = ground (arith, others-others xs)

  items-remove_names :
      (names : List String) (m : Dict String (List (ContainerDnsNameData Ip))) (d : String)
      → items d (remove_names lo c names m)
        ≡ (if contains d names then others (items d m) else items d m)
  unfolding remove_names contains
  items-remove_names [] m d = refl
  items-remove_names (name ∷ names) m d =
      let more = remove_from_map lo m name (λ item. item.container_id == c.id) in
      items-remove_names names more d
      ∙ ground (
        arith,
        items-remove_from_map lo m name d (λ item. item.container_id == c.id),
        others-others (items d m),
      )

  items-remove_networks :
      (networks : Dict String (List String)) (m : Dict String (List (ContainerDnsNameData Ip)))
      (d : String)
      → items d (remove_networks lo c networks m)
        ≡ (if contains d (all_names networks) then others (items d m) else items d m)
  unfolding remove_networks contains
  items-remove_networks [] m d = refl
  items-remove_networks ((network_id, names) ∷ more) m d =
      items-remove_networks more (remove_names lo c names m) d
      ∙ ground (
        arith,
        items-remove_names names m d,
        others-others (items d m),
        contains-append d names (all_names more),
      )

  -- What an addition leaves under a name for the other containers, and for a name not its own.
  Added :
      String
      → List String
      → Dict String (List (ContainerDnsNameData Ip))
      → Dict String (List (ContainerDnsNameData Ip))
      → Type 0
  Added d names m m' =
      (others (items d m') ≡ others (items d m))
      × (contains d names ≡ false → items d m' ≡ items d m)

  others-new :
      (network_id : String) (xs : List (ContainerDnsNameData Ip))
      → others (xs ++ (data_of lo c network_id ∷ [])) ≡ others xs
  unfolding data_of
  others-new network_id [] = ground (arith, ==_refl c.id)
  others-new network_id (x ∷ xs) = ground (arith, others-new network_id xs)

  add_to_map-Added :
      (network_id name d : String) (m : Dict String (List (ContainerDnsNameData Ip)))
      → Added d (name ∷ []) m (add_to_map m name (data_of lo c network_id))
  unfolding Added data_of contains
  add_to_map-Added network_id name d m =
      let added = items-add_to_map m name d (data_of lo c network_id) in
      elim (Bool-cases (name == d)) [
        | inl same ↦ (
          ap others (added ∙ ground (arith, same)) ∙ others-new network_id (items d m),
          λ absent. ground (arith, same, absent),
        )
        | inr other ↦
            (ap others (added ∙ ground (arith, other)), λ absent. added ∙ ground (arith, other))
      ]

  Added-append :
      (d : String) (before after : List String)
      (m m1 m2 : Dict String (List (ContainerDnsNameData Ip)))
      → Added d before m m1
      → Added d after m1 m2
      → Added d (before ++ after) m m2
  unfolding Added
  Added-append d before after m m1 m2 a b = (
    b.0 ∙ a.0,
    λ absent.
        b.1 (ground (arith, absent, contains-append d before after))
        ∙ a.1 (ground (arith, absent, contains-append d before after)),
  )

  add_names-Added :
      (network_id d : String) (names : List String)
      (m : Dict String (List (ContainerDnsNameData Ip)))
      → Added d names m (add_names lo c network_id names m)
  unfolding Added add_names
  add_names-Added network_id d [] m = (refl, λ absent. refl)
  add_names-Added network_id d (name ∷ names) m =
      let more = add_to_map m name (data_of lo c network_id) in
      Added-append d (name ∷ []) names m more _ (add_to_map-Added network_id name d m)
        (add_names-Added network_id d names more)

  add_networks-Added :
      (networks : Dict String (List String)) (d : String)
      (m : Dict String (List (ContainerDnsNameData Ip)))
      → Added d (all_names networks) m (add_networks lo c networks m)
  unfolding Added add_networks
  add_networks-Added [] d m = (refl, λ absent. refl)
  add_networks-Added ((network_id, names) ∷ more) d m =
      let next = add_names lo c network_id names m in
      Added-append d names (all_names more) m next _ (add_names-Added network_id d names m)
        (add_networks-Added more d next)

  -- Where no data of the container is recorded under any name: after it has been added and removed
  -- again, what is recorded under each name is what was recorded before.
  pub remove_container-add_container :
      {Ref : Type 0} (r : Resolver Ref Ip)
      → ((d : String) → others (items d r.container_data) ≡ items d r.container_data)
      → (d : String)
      → items d (remove_container lo c (add_container lo c r)).container_data
        ≡ items d r.container_data
  unfolding remove_container add_container Added
  remove_container-add_container r fresh d =
      let networks = entries c.dns_names in
      let m = add_networks lo c networks r.container_data in
      let added = add_networks-Added networks d r.container_data in
      items-remove_networks networks m d ∙ elim (Bool-cases (contains d (all_names networks))) [
        | inl own ↦ ground (arith, own, added.0, fresh d)
        | inr foreign ↦ ground (arith, foreign, added.1 foreign)
      ]
