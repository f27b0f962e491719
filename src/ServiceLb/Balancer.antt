-- ===== src/ServiceLb/Balancer.antt =====
-- plugin/pkg/service_lb/network_specific_service_lb.go: the load balancer of one service in one
-- network, on the kernel of a node. A method that fails keeps the fields that it has assigned.
pub mod Frontend
pub mod Addresses
pub mod Rules
use flannel_network_plugin.Prelude.{
  ℕ, Bool, true, false, not, ◌&&◌, Option, none, some, Eq, List, [], ◌∷◌, ◌++◌, String, string_eq,
  nat_beq, ◌==◌, if◌then◌else◌, ltb, length,
}
use flannel_network_plugin.Prelude.Dict.{Dict, lookup, insert, is_some}
use flannel_network_plugin.Common.Act.{Act, ◌>>=◌, ◌>>◌, pure, fail, for_each}
use flannel_network_plugin.External.Lo.{Lo}
use flannel_network_plugin.External.Texts.{Texts}
use flannel_network_plugin.External.Host.{Host, IpvsService, Destination}
use flannel_network_plugin.Networking.Iptables.{IptablesRule, apply_ip_tables_rules}
use flannel_network_plugin.Networking.Interfaces.{
  ensure_interface_listens_on_address, stop_listening_on_address,
}
use flannel_network_plugin.ServiceLb.Fwmarks.{Marks}

pub record ServiceLb (Ip Link : Type 0) : Type 0 where
  pub docker_network_id : String
  pub service_id : String
  pub fwmark : ℕ
  pub frontend_ip : Option Ip
  pub backend_ips : List Ip
  pub iptables_rules : List IptablesRule
  pub link : Link

-- `copy(dst, src)`: as many elements as the shorter slice has.
unfoldable pub copy {ℓ} : {A : Type ℓ} → List A → List A → List A
copy [] src = []
copy (d ∷ dst) [] = d ∷ dst
copy (d ∷ dst) (s ∷ src) = s ∷ copy dst src

abbrev pub svc_of : ℕ → IpvsService
svc_of fwmark = record { fwmark = fwmark; sched_name = "rr"; flags = 0; timeout = 0; pe_name = "" }

same_settings : IpvsService → IpvsService → Bool
same_settings existing svc =
    existing.sched_name == svc.sched_name
    && nat_beq existing.flags svc.flags
    && nat_beq existing.timeout svc.timeout
    && existing.pe_name == svc.pe_name

-- The rules of a frontend.
unfoldable pub frontend_rules : String → String → List IptablesRule
frontend_rules vip fwmark_str =
    record {
      table = "nat";
      chain = "POSTROUTING";
      rule_spec = "-d" ∷ vip ∷ "-m" ∷ "mark" ∷ "--mark" ∷ fwmark_str ∷ "-j" ∷ "MASQUERADE" ∷ [];
    }
    ∷ record {
      table = "mangle";
      chain = "PREROUTING";
      rule_spec = "-d" ∷ vip ∷ "-p" ∷ "udp" ∷ "-j" ∷ "MARK" ∷ "--set-mark" ∷ fwmark_str ∷ [];
    }
    ∷ record {
      table = "mangle";
      chain = "PREROUTING";
      rule_spec = "-d" ∷ vip ∷ "-p" ∷ "tcp" ∷ "-j" ∷ "MARK" ∷ "--set-mark" ∷ fwmark_str ∷ [];
    }
    ∷ []

module _ (host : Host) (texts : Texts) (marks : Marks) where
  open host use {H, Link}
  open texts use {Ip}

  -- The load balancer and the kernel.
  abbrev pub Balancing : Type 0
  Balancing = ServiceLb Ip Link × H

  with_lb : {A : Type 0} → ServiceLb Ip Link → Option A × H → Option A × Balancing
  with_lb lb (a, h) = (a, (lb, h))

  unfoldable pub on_host : {A : Type 0} → Act H A → Act Balancing A
  unfolding with_lb
  on_host m (lb, h) = with_lb lb (m h)

  abbrev pub get_lb : Act Balancing (ServiceLb Ip Link)
  get_lb (lb, h) = (some lb, (lb, h))

  abbrev pub set_lb : ServiceLb Ip Link → Act Balancing (Unit {0})
  set_lb lb' (lb, h) = (some tt, (lb', h))

  -- `NewNetworkSpecificServiceLb`
  unfoldable pub new_service_lb : Link → String → String → ℕ → ServiceLb Ip Link
  new_service_lb link docker_network_id service_id fwmark = record {
    docker_network_id = docker_network_id;
    service_id = service_id;
    fwmark = fwmark;
    frontend_ip = none;
    backend_ips = [];
    iptables_rules = [];
    link = link;
  }

  -- `IP.String` of an address that may be nil.
  abbrev pub show_ip : Option Ip → String
  show_ip none = "<nil>"
  show_ip (some ip) = texts.print_ip ip

  update_existing : ℕ → Act H (Unit {0})
  unfolding same_settings
  update_existing fwmark = do
    existing ← host.get_service (svc_of fwmark)
    if same_settings existing (svc_of fwmark) then pure tt else host.update_service (svc_of fwmark)

  is_present : IpvsService → Act H Bool
  is_present svc h = (some (host.is_service_present svc h), h)

  create_or_update : ℕ → Bool → Act H (Unit {0})
  unfolding update_existing
  create_or_update fwmark exists =
      if exists then update_existing fwmark else host.new_service (svc_of fwmark)

  -- `ensureIpvsService` for a mark.
  unfoldable pub ensure_ipvs_service : ℕ → Act H IpvsService
  unfolding is_present create_or_update
  ensure_ipvs_service fwmark = do
    host.new_ipvs
    exists ← is_present (svc_of fwmark)
    create_or_update fwmark exists
    pure (svc_of fwmark)

  -- The service of the load balancer, checked again, as `AddBackend`, `RemoveBackend` and
  -- `SetBackends` begin.
  unfoldable pub present_service : ℕ → Act H IpvsService
  unfolding ensure_ipvs_service is_present
  present_service fwmark = do
    svc ← ensure_ipvs_service fwmark
    host.new_ipvs
    exists ← is_present svc
    if exists then pure svc else fail

  valid_or_fail : Option Ip → Act H (Unit {0})
  valid_or_fail none = fail
  valid_or_fail (some ip) = pure tt

  -- The new rules, assigned and created.
  create_rules : List IptablesRule → Act Balancing (Unit {0})
  create_rules rules (lb, h) =
      on_host (apply_ip_tables_rules host rules "create") (record lb { iptables_rules = rules }, h)

  delete_rules : List IptablesRule → Act Balancing (Unit {0})
  delete_rules rules =
      if ltb 0 (length rules) then on_host (apply_ip_tables_rules host rules "delete") else pure tt

  -- The previous rules are copied into a nil slice.
  unfoldable pub ensure_service_load_balancer_frontend : Act Balancing (Unit {0})
  unfolding valid_or_fail create_rules delete_rules
  ensure_service_load_balancer_frontend = do
    lb ← get_lb
    on_host (valid_or_fail (texts.parse_ip (show_ip lb.frontend_ip)))
    on_host (ensure_ipvs_service lb.fwmark)
    create_rules (frontend_rules (show_ip lb.frontend_ip) (marks.format_uint lb.fwmark))
    delete_rules (copy [] lb.iptables_rules)

  -- The end of `UpdateFrontendIP`: the old address is given up where it is another one.
  stop_old : Link → Option Ip → Ip → Act Balancing (Unit {0})
  stop_old link none ip = pure tt
  stop_old link (some old) ip =
      if texts.print_ip old == texts.print_ip ip
      then pure tt
      else on_host (stop_listening_on_address host link (texts.print_ip old))

  unfoldable pub update_frontend_ip : Ip → Act Balancing (Unit {0})
  unfolding ensure_service_load_balancer_frontend stop_old
  update_frontend_ip ip = do
    lb ← get_lb
    on_host (ensure_interface_listens_on_address host lb.link (texts.print_ip ip))
    set_lb (record lb { frontend_ip = some ip })
    ensure_service_load_balancer_frontend
    stop_old lb.link lb.frontend_ip ip

  destination : Bool → Ip → Destination
  destination masquerades ip = record { address = texts.print_ip ip; masquerades = masquerades }

  -- Whether `NewDestination` has failed; then the destination is updated, and the list of the
  -- backends is left as it is.
  attempt : Act H (Unit {0}) → Act H Bool
  attempt m h = let r = m h in (some (is_some r.0), r.1)

  unfoldable pub add_backend : Ip → Act Balancing (Unit {0})
  unfolding destination attempt
  add_backend ip = do
    lb ← get_lb
    svc ← on_host (present_service lb.fwmark)
    is_new ← on_host (attempt (host.new_destination svc (destination false ip)))
    if is_new
        then set_lb (record lb { backend_ips = lb.backend_ips ++ (ip ∷ []) })
        else on_host (host.update_destination svc (destination false ip))

module _ (host : Host) (texts : Texts) (marks : Marks) ⦃ip_eq : Eq texts.Ip⦄ (lo : Lo) where
  open host use {H, Link}
  open texts use {Ip}

  unfoldable pub remove_backend : Ip → Act (Balancing host texts marks) (Unit {0})
  unfolding destination
  remove_backend ip = do
    lb ← get_lb host texts marks
    svc ← on_host host texts marks (present_service host texts marks lb.fwmark)
    on_host host texts marks (host.del_destination svc (destination host texts marks false ip))
    set_lb host texts marks
        (record lb { backend_ips = lo.filter Ip (λ item. not (item == ip)) lb.backend_ips })

  -- The maps of `SetBackends`, by the texts of the addresses.
  existing_ips : List Destination → Dict String Destination → Dict String Destination
  existing_ips [] m = m
  existing_ips (dest ∷ dests) m = existing_ips dests (insert dest.address dest m)

  desired_ips : List Ip → Dict String Ip → Dict String Ip
  desired_ips [] m = m
  desired_ips (ip ∷ ips) m = desired_ips ips (insert (texts.print_ip ip) ip m)

  unfoldable pub set_backends : List Ip → Act (Balancing host texts marks) (Unit {0})
  unfolding existing_ips desired_ips destination
  set_backends ips = do
    lb ← get_lb host texts marks
    svc ← on_host host texts marks (present_service host texts marks lb.fwmark)
    dests ← on_host host texts marks (host.get_destinations svc)
    on_host host texts marks (
        for_each
          (λ entry.
            if is_some (lookup entry.0 (existing_ips dests []))
            then pure tt
            else host.new_destination svc (destination host texts marks true entry.1))
          (desired_ips ips []))
    on_host host texts marks (
        for_each
          (λ entry.
            if is_some (lookup entry.0 (desired_ips ips []))
            then pure tt
            else host.del_destination svc entry.1)
          (existing_ips dests []))
    set_lb host texts marks (record lb { backend_ips = ips })

  unfoldable pub delete : Act (Balancing host texts marks) (Unit {0})
  delete = do
    lb ← get_lb host texts marks
    on_host host texts marks (apply_ip_tables_rules host lb.iptables_rules "delete")
    on_host host texts marks host.new_ipvs
    on_host host texts marks (host.del_service (svc_of lb.fwmark))
    on_host host texts marks
        (stop_listening_on_address host lb.link (show_ip host texts marks lb.frontend_ip))
