-- ===== src/Examples/Common.antt =====
-- Maps and services on concrete inputs.
use flannel_network_plugin.Prelude.{
  ℕ, ◌≡◌, refl, true, false, none, some, nat_eq, string_eq, ◌↔◌, [], ◌∷◌, String,
}
use flannel_network_plugin.Prelude.Dict.{Dict, lookup, insert}
use flannel_network_plugin.Common.Result.{Result, ok, err}
use flannel_network_plugin.Common.ConcurrentMap.{ConcurrentMap, get_or_add}
use flannel_network_plugin.Common.ConcurrentMap
use flannel_network_plugin.Common.ConcurrentMap.Laws.{get_or_add-err}
use flannel_network_plugin.Common.Service.{
  Service, initialized, calls_set_endpoint_mode, step, is_initialized, mode_dnsrr,
}
use flannel_network_plugin.Common.Service.Events.{step-initialized}
use flannel_network_plugin.Examples.{slices}

-- While the caller waits for the write lock, another goroutine adds the key `b`.
abbrev rival : ConcurrentMap String ℕ → ConcurrentMap String ℕ
rival cm = record { m = ("b", 2) ∷ cm.m }

abbrev empty_map : ConcurrentMap String ℕ
empty_map = record { m = [] }

abbrev raced : ConcurrentMap String ℕ
raced = record { m = insert "a" 1 (("b", 2) ∷ []) }

-- A factory that counts its calls, and one that fails.
abbrev make_one : ℕ → Result String ℕ × ℕ
make_one calls = (ok 1, 1)

abbrev fail : ℕ → Result String ℕ × ℕ
fail calls = (err "no", 1)

adds : get_or_add rival "a" make_one empty_map 0 ≡ (ok (1, true), raced, 1)
unfolding get_or_add lookup
adds = refl

fails : get_or_add rival "a" fail empty_map 0 ≡ (err "no", rival empty_map, 1)
unfolding get_or_add lookup
fails = refl

get_or_add-err_example :
    (ConcurrentMap.get "a" empty_map ≡ none)
    × (ConcurrentMap.get "a" (rival empty_map) ≡ none)
    × (fail 0 ≡ (err "no", 1))
    × (rival empty_map ≡ rival empty_map)
get_or_add-err_example = get_or_add-err rival "a" fail empty_map (rival empty_map) 0 1 "no" fails

abbrev forwards : Dict String String
forwards = ("a", "10.0.0.1") ∷ ("b", "10.0.0.2") ∷ []

-- A service in a network whose endpoint mode is not known yet.
abbrev half_known : Service String
half_known = record {
  id = "id";
  name = "web";
  endpoint_mode = "";
  networks = "net" ∷ [];
  vips = some [];
  ipam_vips = some [];
  containers = [];
}

step-initialized_example :
    ((step slices (calls_set_endpoint_mode mode_dnsrr) half_known).1 ≡ initialized ∷ []) ↔ (
      (is_initialized half_known ≡ false)
      × (is_initialized (step slices (calls_set_endpoint_mode mode_dnsrr) half_known).0 ≡ true))
step-initialized_example = step-initialized slices (calls_set_endpoint_mode mode_dnsrr) half_known

abbrev known : Service String
known = record half_known { endpoint_mode = mode_dnsrr; vips = some forwards }
