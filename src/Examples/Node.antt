-- ===== src/Examples/Node.antt =====
-- A service in one network, whose address is stored, and the state of a node.
use flannel_network_plugin.Prelude.{
  ◌≡◌, refl, ap, ◌∙◌, sym, Bool, true, false, Option, none, some, Eq, [], ◌∷◌, String, string_eq,
  nat_eq, ◌==◌, if◌then◌else◌, arith, ◌↔◌,
}
use flannel_network_plugin.Prelude.Dict.{Dict}
use flannel_network_plugin.Common.Act.{pure}
use flannel_network_plugin.Common.Service.{Service}
use flannel_network_plugin.External.Etcd.Single.{single}
use flannel_network_plugin.Etcd.Store.Items.{Codec}
use flannel_network_plugin.Examples.{
  Address, first, second, print_address, parse_address, parse-print_address, two_addresses, slices,
  plugin,
}
use flannel_network_plugin.Examples.Fwmarks.{unary}
use flannel_network_plugin.Examples.Balancer.{host}
use flannel_network_plugin.ServiceLb.Management.{Parts, World, LoadBalancerData, ServiceEvents}

abbrev pub same_address : Address → Address → Bool
same_address first first = true
same_address second second = true
same_address _ _ = false

pub same_address_iff : (a b : Address) → (same_address a b ≡ true) ↔ (a ≡ b)
same_address_iff first first = ground arith
same_address_iff first second = ground arith
same_address_iff second first = ground arith
same_address_iff second second = ground arith

instance abbrev pub address_eq : Eq Address
address_eq = record { beq = same_address; beq_iff = same_address_iff }

-- The data of a service with one address, in the network "net".
abbrev encode_vips : Dict String Address → Option String
encode_vips ((id, ip) ∷ []) = if id == "net" then some (print_address ip) else none
encode_vips _ = none

abbrev decode_vips : Option Address → Option (LoadBalancerData Address)
decode_vips none = none
decode_vips (some ip) = some (record { frontend_ips = ("net", ip) ∷ [] })

pub round_trip :
    (vips : Dict String Address) (text : String)
    → encode_vips vips ≡ some text
    → decode_vips (parse_address text) ≡ some (record { frontend_ips = vips })
round_trip [] text h = cc
round_trip ((id, ip) ∷ []) text h =
    let (same, printed) = encoded (id == "net") h in
    ap decode_vips (ap parse_address (sym printed) ∙ parse-print_address ip)
    ∙ ap (λ k. some (record { frontend_ips = (k, ip) ∷ [] }))
        (sym ((string_eq.beq_iff id "net").0 same))
  where
    encoded :
        (b : Bool)
        → (if◌then◌else◌ {A = Option String} b (some (print_address ip)) none) ≡ some text
        → (b ≡ true) × (print_address ip ≡ text)
    encoded true e = (refl, cc)
    encoded false e = cc
round_trip (a ∷ b ∷ more) text h = cc

abbrev vips_codec : Codec (LoadBalancerData Address)
vips_codec = record {
  encode = λ d. encode_vips d.frontend_ips;
  decode = λ text. decode_vips (parse_address text);
  decode-encode = λ d text h. round_trip d.frontend_ips text h;
  equals = λ d e. false;
  zero_item = record { frontend_ips = [] };
}

abbrev pub node : Parts
node = record {
  etcd = single;
  texts = two_addresses;
  host = host;
  marks = unary;
  lo = slices;
  pools = record {
    P = Unit;
    allocate_service_vip = λ network ipam_vip service_id. pure second;
    release_ip = λ network ip. pure tt;
  };
  codec = vips_codec;
  ip_eq = address_eq;
  fwmarks_client = plugin;
  data_client = plugin;
  suffixes = λ service_id network_id. (λ i. some "x") ∷ [];
}

abbrev pub web : Service Address
web = record {
  id = "web";
  name = "web";
  endpoint_mode = "vip";
  networks = "net" ∷ [];
  vips = none;
  ipam_vips = some (("net", first) ∷ []);
  containers = [];
}

abbrev pub no_events : ServiceEvents
no_events = record {
  on_networks_changed = record { handlers = []; next_id = 0 };
  on_container_added = record { handlers = []; next_id = 0 };
  on_container_removed = record { handlers = []; next_id = 0 };
  on_endpoint_mode_changed = record { handlers = []; next_id = 0 };
}

abbrev pub ready : World node
ready = record {
  services = [];
  services_events_unsubscribers = [];
  load_balancers = [];
  load_balancers_data = record {
    items = ("web", record { frontend_ips = ("net", second) ∷ [] }) ∷ [];
  };
  flannel_networks = ("net", record { flannel_id = "f"; mtu = 1500 }) ∷ [];
  other_networks = [];
  broadcasts = 0;
  objects = λ ref. web;
  events = λ ref. no_events;
  raised = [];
  kernel = ([], []);
  addresses = tt;
  db = [];
}
