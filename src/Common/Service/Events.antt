-- ===== src/Common/Service/Events.antt =====
-- Which events a service raises, and when.
use flannel_network_plugin.Prelude.{
  ◌≡◌, true, false, some, Eq, ◌↔◌, arith, [], ◌∷◌, String, string_eq,
}
use flannel_network_plugin.Prelude.Dict.{Dict, lookup, IsDict}
use flannel_network_plugin.External.Lo.{Lo}
use flannel_network_plugin.Common.Compare.Laws.{compare_ip_maps_iff}
use flannel_network_plugin.Common.Service.{
  Service, initialized, vips_changed, Call, calls_set_networks, calls_set_endpoint_mode,
  calls_set_vips, calls_add_container, calls_remove_container, is_initialized, set_vips, step,
}

module _ {Ip : Type 0} ⦃ip : Eq Ip⦄ (lo : Lo) where
  -- A call raises `initialized`, and nothing else, exactly if it takes the service from not being
  -- initialized to being initialized.
  pub step-initialized :
      (c : Call Ip) (s : Service Ip)
      → ((step lo c s).1 ≡ initialized ∷ [])
        ↔ ((is_initialized s ≡ false) × (is_initialized (step lo c s).0 ≡ true))
  unfolding step
  step-initialized (calls_set_networks networks ipam_vips) s = (ground arith, ground arith)
  step-initialized (calls_set_endpoint_mode mode) s = (ground arith, ground arith)
  step-initialized (calls_set_vips vips) s = (ground arith, ground arith)
  step-initialized (calls_add_container container) s = (ground arith, ground arith)
  step-initialized (calls_remove_container container_id) s = (ground arith, ground arith)

-- On an initialized service that has a map of VIPs, `SetVIPs` raises `vips_changed` exactly if the
-- new map binds every network to the same address as the old one: a change goes unannounced.
pub set_vips-vips_changed :
    {Ip : Type 0} ⦃ip : Eq Ip⦄ (s : Service Ip) (old new : Dict String Ip)
    → is_initialized s ≡ true
    → s.vips ≡ some old
    → IsDict old
    → IsDict new
    → ((set_vips (some new) s).1 ≡ vips_changed ∷ []) ↔ ((j : String) → lookup j old ≡ lookup j new)
unfolding set_vips
set_vips-vips_changed s old new up holds d d' =
    let same = compare_ip_maps_iff old new d d' in
    ((λ h. same.0 (ground arith)), (λ h. ground (arith, same.1 h)))
