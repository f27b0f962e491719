-- ===== src/Ipam/Lease/Keys.antt =====
-- The keys of one address are four different keys.
use flannel_network_plugin.Prelude.{◌≡◌, refl, false, String, string_eq, ◌==◌}
use flannel_network_plugin.External.Texts.Laws.{
  append-ne, append-ne_self, self-ne-append, append-ne-empty,
}
use flannel_network_plugin.Etcd.Client.{Client}
use flannel_network_plugin.Ipam.Lease.{allocated_ip_key, mac_key, service_id_key, allocated_at_key}

module _ (client : Client) (ip : String) where
  pub at-ne-ip : (allocated_at_key client ip == allocated_ip_key client ip) ≡ false
  unfolding allocated_at_key
  at-ne-ip = append-ne_self (allocated_ip_key client ip) "/allocated-at" refl

  pub mac-ne-ip : (mac_key client ip == allocated_ip_key client ip) ≡ false
  unfolding mac_key
  mac-ne-ip = append-ne_self (allocated_ip_key client ip) "/mac" refl

  pub service-ne-ip : (service_id_key client ip == allocated_ip_key client ip) ≡ false
  unfolding service_id_key
  service-ne-ip = append-ne_self (allocated_ip_key client ip) "/service-id" refl

  pub ip-ne-at : (allocated_ip_key client ip == allocated_at_key client ip) ≡ false
  unfolding allocated_at_key
  ip-ne-at = self-ne-append (allocated_ip_key client ip) "/allocated-at" refl

  pub ip-ne-mac : (allocated_ip_key client ip == mac_key client ip) ≡ false
  unfolding mac_key
  ip-ne-mac = self-ne-append (allocated_ip_key client ip) "/mac" refl

  pub ip-ne-service : (allocated_ip_key client ip == service_id_key client ip) ≡ false
  unfolding service_id_key
  ip-ne-service = self-ne-append (allocated_ip_key client ip) "/service-id" refl

  pub mac-ne-at : (mac_key client ip == allocated_at_key client ip) ≡ false
  unfolding mac_key allocated_at_key
  mac-ne-at = append-ne (allocated_ip_key client ip) "/mac" "/allocated-at" refl

  pub at-ne-mac : (allocated_at_key client ip == mac_key client ip) ≡ false
  unfolding mac_key allocated_at_key
  at-ne-mac = append-ne (allocated_ip_key client ip) "/allocated-at" "/mac" refl

  pub mac-ne-service : (mac_key client ip == service_id_key client ip) ≡ false
  unfolding mac_key service_id_key
  mac-ne-service = append-ne (allocated_ip_key client ip) "/mac" "/service-id" refl

  pub service-ne-mac : (service_id_key client ip == mac_key client ip) ≡ false
  unfolding mac_key service_id_key
  service-ne-mac = append-ne (allocated_ip_key client ip) "/service-id" "/mac" refl

  pub at-ne-service : (allocated_at_key client ip == service_id_key client ip) ≡ false
  unfolding allocated_at_key service_id_key
  at-ne-service = append-ne (allocated_ip_key client ip) "/allocated-at" "/service-id" refl

  pub service-ne-at : (service_id_key client ip == allocated_at_key client ip) ≡ false
  unfolding allocated_at_key service_id_key
  service-ne-at = append-ne (allocated_ip_key client ip) "/service-id" "/allocated-at" refl

  -- The keys of the data are not empty, so a claim writes them.
  pub mac-ne-empty : (mac_key client ip == "") ≡ false
  unfolding mac_key
  mac-ne-empty = append-ne-empty (allocated_ip_key client ip) "/mac" refl

  pub service-ne-empty : (service_id_key client ip == "") ≡ false
  unfolding service_id_key
  service-ne-empty = append-ne-empty (allocated_ip_key client ip) "/service-id" refl
