-- ===== src/Dns/Resolver/Lookup.antt =====
-- plugin/pkg/dns/resolver.go: how a name is resolved. `lo.UniqBy` and `lo.Shuffle` are arguments, and
-- the text of an address, nil or not. `sort.Slice` sorts fewer than twelve networks by insertion.
use flannel_network_plugin.Prelude.{
  ℕ, zero, suc, ◌+◌, ◌-◌, Bool, true, false, ◌&&◌, Option, none, some, List, [], ◌∷◌, ◌++◌, map,
  String, string_eq, ◌==◌, if◌then◌else◌, ltb, length,
}
use flannel_network_plugin.Prelude.Dict.{Dict, lookup}
use flannel_network_plugin.External.Texts.{split_dots, join_dots, trim_suffix_dot, text_less}
use flannel_network_plugin.Common.Service.{ContainerInfo, Service, mode_vip, mode_dnsrr}
use flannel_network_plugin.Dns.Resolver.{Resolver, ContainerDnsNameData, entries}

-- `dns.A` with its header.
pub record ARecord (Ip : Type 0) : Type 0 where
  pub name : String
  pub ttl : ℕ
  pub address : Option Ip

abbrev or_empty : Option String → String
or_empty none = ""
or_empty (some name) = name

-- `xs[i]`, `xs[:n]` and `xs[n:]`, where the source stays in range.
abbrev nth : ℕ → List String → String
nth i [] = ""
nth zero (x ∷ xs) = x
nth (suc i) (x ∷ xs) = nth i xs

abbrev first_parts : ℕ → List String → List String
first_parts n [] = []
first_parts zero (x ∷ xs) = []
first_parts (suc n) (x ∷ xs) = x ∷ first_parts n xs

abbrev last_parts : ℕ → List String → List String
last_parts n [] = []
last_parts zero (x ∷ xs) = x ∷ xs
last_parts (suc n) (x ∷ xs) = last_parts n xs

-- One round of the insertion: the element at position `j`, and those before it from the last on.
sink : (ℕ → ℕ → Bool) → ℕ → String → List String → List String
sink less j x [] = x ∷ []
sink less j x (y ∷ ys) =
    let rest = sink less (j - 1) x ys in if less j (j - 1) then y ∷ rest else x ∷ y ∷ ys

insert_from : (ℕ → ℕ → Bool) → ℕ → List String → List String → List String
unfolding sink
insert_from less i [] before = before
insert_from less i (x ∷ xs) before = insert_from less (i + 1) xs (sink less i x before)

abbrev reversed : List String → List String → List String
reversed [] acc = acc
reversed (x ∷ xs) acc = reversed xs (x ∷ acc)

unfoldable pub sort_slice : (ℕ → ℕ → Bool) → List String → List String
unfolding insert_from
sort_slice less xs = reversed (insert_from less 0 xs []) []

module _ {Ip : Type 0} where
  unfoldable pub filter_ips_by_network : Dict String Ip → String → List (Option Ip)
  filter_ips_by_network [] valid_network_id = []
  filter_ips_by_network ((network_id, ip) ∷ ips) valid_network_id =
      let rest = filter_ips_by_network ips valid_network_id in
      if valid_network_id == network_id then some ip ∷ rest else rest

  containers_ips : Dict String (ContainerInfo Ip) → String → List (Option Ip)
  containers_ips [] valid_network_id = []
  containers_ips ((id, container) ∷ containers) valid_network_id =
      filter_ips_by_network (entries container.ips) valid_network_id
      ++ containers_ips containers valid_network_id

  matching : List (ContainerDnsNameData Ip) → String → List (Option Ip)
  matching [] valid_network_id = []
  matching (item ∷ items) valid_network_id =
      let rest = matching items valid_network_id in
      if valid_network_id == item.network_id then item.ip ∷ rest else rest

module _ {Ref Ip : Type 0} (info : Ref → Service Ip) (r : Resolver Ref Ip) where
  service_ips : Option Ref → String → List (Option Ip)
  unfolding containers_ips
  service_ips none valid_network_id = []
  service_ips (some service) valid_network_id =
      let s = info service in
      if s.endpoint_mode == mode_vip
      then filter_ips_by_network (entries s.vips) valid_network_id
      else if s.endpoint_mode == mode_dnsrr
      then containers_ips s.containers valid_network_id
      else []

  unfoldable pub resolve_service_name : String → String → List (Option Ip)
  unfolding service_ips
  resolve_service_name requested_name valid_network_id =
      service_ips (lookup requested_name r.service_data) valid_network_id

  container_ips : Option (List (ContainerDnsNameData Ip)) → String → List (Option Ip)
  unfolding matching
  container_ips none valid_network_id = []
  container_ips (some dns_name_data) valid_network_id = matching dns_name_data valid_network_id

  unfoldable pub resolve_container_name : String → String → List (Option Ip)
  unfolding container_ips
  resolve_container_name requested_name valid_network_id =
      container_ips (lookup requested_name r.container_data) valid_network_id

  is_valid : Option String → String → Bool
  is_valid none valid_network_id = false
  is_valid (some network_id) valid_network_id = valid_network_id == network_id

  -- `resolveName`
  unfoldable pub resolve_in_network : String → String → String → List (Option Ip)
  unfolding is_valid
  resolve_in_network requested_name requested_network_name valid_network_id =
      if (if requested_network_name == ""
        then true
        else is_valid (lookup requested_network_name r.network_name_to_id) valid_network_id)
      then resolve_service_name requested_name valid_network_id
        ++ resolve_container_name requested_name valid_network_id
      else []

  -- The inner loop of `ResolveName`.
  in_networks : String → String → List String → List (Option Ip) → List (Option Ip)
  in_networks requested_name requested_network_name [] result = result
  in_networks requested_name requested_network_name (network_id ∷ network_ids) result =
      let more = result ++ resolve_in_network requested_name requested_network_name network_id in
      let rest = in_networks requested_name requested_network_name network_ids more in
      if r.docker_compatibility_mode && ltb 0 (length more) then more else rest

  -- The outer loop, from `i` on for `n` more rounds.
  in_levels : List String → List String → ℕ → ℕ → List (Option Ip)
  unfolding in_networks
  in_levels query_parts network_ids i zero = []
  in_levels query_parts network_ids i (suc n) =
      let count = length query_parts - i in
      let result =
        in_networks (join_dots (first_parts count query_parts))
          (join_dots (last_parts count query_parts)) network_ids [] in
      let rest = in_levels query_parts network_ids (i + 1) n in
      if ltb 0 (length result) then result else rest

  -- The networks in the order in which they are asked: the comparison is of the networks that stand
  -- at two positions of the list before the sorting.
  unfoldable pub sorted_network_ids : List String → List String
  sorted_network_ids valid_network_ids =
      sort_slice
        (λ i j.
          text_less (or_empty (lookup (nth i valid_network_ids) r.network_id_to_name))
            (or_empty (lookup (nth j valid_network_ids) r.network_id_to_name)))
        valid_network_ids

  -- The addresses found by `ResolveName`, before they are made unique.
  unfoldable pub found_ips : String → List String → List (Option Ip)
  unfolding in_levels
  found_ips query valid_network_ids =
      let query_parts = split_dots (trim_suffix_dot query) in
      in_levels query_parts (sorted_network_ids valid_network_ids) 0 (length query_parts)

  unfoldable pub resolve_name :
      ((Option Ip → String) → List (Option Ip) → List (Option Ip))
      → (List (Option Ip) → List (Option Ip))
      → (Option Ip → String)
      → String
      → List String
      → List (ARecord Ip)
  resolve_name uniq_by shuffle print query valid_network_ids =
      map (λ ip. record { name = query; ttl = r.ttl; address = ip })
        (shuffle (uniq_by print (found_ips query valid_network_ids)))

  -- `ResolveIP` is not written yet in the source.
  unfoldable pub resolve_ip : String → List String → List (ARecord Ip)
  resolve_ip query valid_network_ids = []
