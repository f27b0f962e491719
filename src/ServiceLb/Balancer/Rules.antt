-- ===== src/ServiceLb/Balancer/Rules.antt =====
-- Which iptables rules stand while a load balancer of
-- plugin/pkg/service_lb/network_specific_service_lb.go changes its address.
use flannel_network_plugin.Prelude.{
  ◌≡◌, ℕ, Bool, true, false, Option, none, some, List, [], String, string_eq, ◌==◌, if◌then◌else◌,
}
use flannel_network_plugin.Common.Act.{Act, ◌>>=◌, ◌>>◌, pure, Keeps, >>=-Keeps, for_each-Keeps}
use flannel_network_plugin.External.Texts.{Texts}
use flannel_network_plugin.External.Host.{Host, IsSeparate, IpvsService}
use flannel_network_plugin.Networking.Iptables.{IptablesRule, apply_ip_tables_rules}
use flannel_network_plugin.Networking.Interfaces.{
  ensure_interface_listens_on_address, stop_listening_on_address,
}
use flannel_network_plugin.Networking.Interfaces.Listening.{
  ensure_interface_listens_on_address-Keeps, stop_listening_on_address-Keeps,
}
use flannel_network_plugin.ServiceLb.Fwmarks.{Marks}
use flannel_network_plugin.ServiceLb.Balancer.{
  ServiceLb, Balancing, on_host, set_lb, svc_of, same_settings, update_existing, is_present,
  create_or_update, ensure_ipvs_service, create_rules, delete_rules, show_ip, valid_or_fail,
  frontend_rules, copy, ensure_service_load_balancer_frontend, stop_old, update_frontend_ip,
}

-- A choice between two calls.
if-Keeps :
    {S A : Type 0} (P : S → Type 0) (b : Bool) (m n : Act S A)
    → Keeps P m
    → Keeps P n
    → Keeps P (if b then m else n)
if-Keeps P true m n keeps_m keeps_n = keeps_m
if-Keeps P false m n keeps_m keeps_n = keeps_n

module _ (host : Host) (texts : Texts) (marks : Marks) (separate : IsSeparate host)
    (table chain : String) (spec : List String) where
  open host use {H, Link}
  open texts use {Ip}

  abbrev Standing : H → Type 0
  Standing h = host.rules h table chain spec ≡ true

  create-Keeps :
      (rules : List IptablesRule) → Keeps Standing (apply_ip_tables_rules host rules "create")
  unfolding apply_ip_tables_rules
  create-Keeps rules =
      >>=-Keeps Standing host.new_iptables _ (separate.keeps_new_iptables table chain spec) (λ _.
        for_each-Keeps Standing _ rules (λ rule.
          separate.keeps_append_unique table chain spec rule.table rule.chain rule.rule_spec))

  abbrev pub StandsIn : Balancing host texts marks → Type 0
  StandsIn (lb, h) = host.rules h table chain spec ≡ true

  on_host-Keeps :
      {A : Type 0} (m : Act H A) → Keeps Standing m → Keeps StandsIn (on_host host texts marks m)
  unfolding on_host
  on_host-Keeps m keeps (lb, h) stands = keeps h stands

  update_existing-Keeps : (fwmark : ℕ) → Keeps Standing (update_existing host texts marks fwmark)
  unfolding update_existing
  update_existing-Keeps fwmark =
      >>=-Keeps Standing (host.get_service (svc_of fwmark)) _
        (separate.keeps_get_service table chain spec (svc_of fwmark))
        (λ existing.
          if-Keeps Standing (same_settings existing (svc_of fwmark)) _ _ (λ h stands. stands)
            (separate.keeps_update_service table chain spec (svc_of fwmark)))

  create_or_update-Keeps :
      (fwmark : ℕ) (exists : Bool)
      → Keeps Standing (create_or_update host texts marks fwmark exists)
  unfolding create_or_update
  create_or_update-Keeps fwmark true = update_existing-Keeps fwmark
  create_or_update-Keeps fwmark false = separate.keeps_new_service table chain spec (svc_of fwmark)

  ensure_ipvs_service-Keeps :
      (fwmark : ℕ) → Keeps Standing (ensure_ipvs_service host texts marks fwmark)
  unfolding ensure_ipvs_service is_present
  ensure_ipvs_service-Keeps fwmark =
      let made : Act H IpvsService = pure (svc_of fwmark) in
      let last = λ (exists : Bool). create_or_update host texts marks fwmark exists >> made in
      >>=-Keeps Standing host.new_ipvs (λ _. is_present host texts marks (svc_of fwmark) >>= last)
        (separate.keeps_new_ipvs table chain spec)
        (λ _.
          >>=-Keeps Standing (is_present host texts marks (svc_of fwmark)) last (λ h stands. stands)
            (λ exists.
              >>=-Keeps Standing (create_or_update host texts marks fwmark exists) (λ _. made)
                (create_or_update-Keeps fwmark exists) (λ _ h stands. stands)))

  valid_or_fail-Keeps :
      (ip : Option Ip)
      → Keeps StandsIn (on_host host texts marks (valid_or_fail host texts marks ip))
  unfolding valid_or_fail on_host
  valid_or_fail-Keeps none s stands = stands
  valid_or_fail-Keeps (some ip) s stands = stands

  create_rules-Keeps :
      (rules : List IptablesRule) → Keeps StandsIn (create_rules host texts marks rules)
  unfolding create_rules
  create_rules-Keeps rules (lb, h) stands =
      on_host-Keeps (apply_ip_tables_rules host rules "create") (create-Keeps rules) _ stands

  frontend-Keeps : Keeps StandsIn (ensure_service_load_balancer_frontend host texts marks)
  unfolding ensure_service_load_balancer_frontend delete_rules copy
  frontend-Keeps (lb, h) stands =
      let rules =
        frontend_rules (show_ip host texts marks lb.frontend_ip) (marks.format_uint lb.fwmark) in
      let dropped = delete_rules host texts marks (copy [] lb.iptables_rules) in
      let created = create_rules host texts marks rules in
      let serving = on_host host texts marks (ensure_ipvs_service host texts marks lb.fwmark) in
      let valid = on_host host texts marks (
        valid_or_fail host texts marks
          (texts.parse_ip (show_ip host texts marks lb.frontend_ip))) in
      >>=-Keeps StandsIn valid (λ _. serving >>= (λ _. created >> dropped)) (valid_or_fail-Keeps _)
        (λ _.
          >>=-Keeps StandsIn serving (λ _. created >> dropped)
            (on_host-Keeps _ (ensure_ipvs_service-Keeps lb.fwmark))
            (λ _.
              >>=-Keeps StandsIn created (λ _. dropped) (create_rules-Keeps rules)
                (λ _ s1 stands1. stands1)))
        (lb, h) stands

  stop_old-Keeps :
      (link : Link) (old : Option Ip) (ip : Ip)
      → Keeps StandsIn (stop_old host texts marks link old ip)
  unfolding stop_old
  stop_old-Keeps link none ip = λ s stands. stands
  stop_old-Keeps link (some old) ip =
      if-Keeps StandsIn (texts.print_ip old == texts.print_ip ip) (pure tt) _ (λ s stands. stands)
        (on_host-Keeps (stop_listening_on_address host link (texts.print_ip old)) (
          stop_listening_on_address-Keeps host Standing link (texts.print_ip old)
            (separate.keeps_addr_del table chain spec link)))

  -- Where the calls on one part of the kernel leave the others alone: `UpdateFrontendIP` removes no
  -- iptables rule, whether it fails or not. A rule that stands before it stands after it, those of
  -- the old address among them.
  pub rules-update_frontend_ip :
      (ip : Ip) (lb : ServiceLb Ip Link) (h : H)
      → host.rules h table chain spec ≡ true
      → host.rules (update_frontend_ip host texts marks ip (lb, h)).1.1 table chain spec ≡ true
  unfolding update_frontend_ip
  rules-update_frontend_ip ip lb h stands =
      let frontend = ensure_service_load_balancer_frontend host texts marks in
      let stop = stop_old host texts marks lb.link lb.frontend_ip ip in
      let set = set_lb host texts marks (record lb { frontend_ip = some ip }) in
      let listen =
        on_host host texts marks
          (ensure_interface_listens_on_address host lb.link (texts.print_ip ip)) in
      >>=-Keeps StandsIn listen (λ _. set >>= (λ _. frontend >> stop))
        (on_host-Keeps _ (
          ensure_interface_listens_on_address-Keeps host Standing lb.link (texts.print_ip ip)
            (separate.keeps_addr_replace table chain spec lb.link)))
        (λ _.
          >>=-Keeps StandsIn set (λ _. frontend >> stop) (λ s1 stands1. stands1)
            (λ _.
              >>=-Keeps StandsIn frontend (λ _. stop) frontend-Keeps
                (λ _. stop_old-Keeps lb.link lb.frontend_ip ip)))
        (lb, h) stands
