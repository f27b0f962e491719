-- ===== src/ServiceLb/Balancer/Frontend.antt =====
-- The address of a load balancer after `UpdateFrontendIP` of
-- plugin/pkg/service_lb/network_specific_service_lb.go.
use flannel_network_plugin.Prelude.{
  ◌≡◌, refl, ltb, length, [], Option, none, some, List, string_eq, ◌==◌, Bool, true, false,
  if◌then◌else◌,
}
use flannel_network_plugin.Common.Act.{Act, ◌>>=◌, pure, Outcome, Ensures, >>=-Ensures, any}
use flannel_network_plugin.External.Texts.{Texts}
use flannel_network_plugin.External.Host.{Host}
use flannel_network_plugin.Networking.Iptables.{IptablesRule, apply_ip_tables_rules}
use flannel_network_plugin.Networking.Interfaces.{
  ensure_interface_listens_on_address, stop_listening_on_address,
}
use flannel_network_plugin.ServiceLb.Fwmarks.{Marks}
use flannel_network_plugin.ServiceLb.Balancer.{
  ServiceLb, Balancing, with_lb, on_host, ensure_ipvs_service, create_rules, delete_rules, show_ip,
  valid_or_fail, frontend_rules, copy, ensure_service_load_balancer_frontend, stop_old,
  update_frontend_ip,
}

module _ (host : Host) (texts : Texts) (marks : Marks) (ip : texts.Ip) (link : host.Link) where
  open host use {H, Link}
  open texts use {Ip}

  abbrev Listens : Balancing host texts marks → Type 0
  Listens (lb, h) = (lb.frontend_ip ≡ some ip) × (lb.link ≡ link)

  on_host-Listens :
      {A : Type 0} (m : Act H A) → Ensures Listens (on_host host texts marks m) (λ _. Listens)
  unfolding on_host with_lb
  on_host-Listens {A} m (lb, h) listens = go (m h)
    where
      go : (r : Option A × H) → Outcome (λ _. Listens) (with_lb host texts marks lb r)
      go (none, h') = tt
      go (some a, h') = listens

  stop_old-Listens :
      (of : Link) (old : Option Ip)
      → Ensures Listens (stop_old host texts marks of old ip) (λ _. Listens)
  unfolding stop_old
  stop_old-Listens of none s h = h
  stop_old-Listens of (some old) s h = go (texts.print_ip old == texts.print_ip ip)
    where
      go :
          (same : Bool)
          → Outcome
              (λ _. Listens)
              ((if same
                  then pure tt
                  else on_host host texts marks
                      (stop_listening_on_address host of (texts.print_ip old)))
                s)
      go true = h
      go false = on_host-Listens (stop_listening_on_address host of (texts.print_ip old)) s h

  create_rules-Listens :
      (rules : List IptablesRule)
      → Ensures Listens (create_rules host texts marks rules) (λ _. Listens)
  unfolding create_rules
  create_rules-Listens rules (lb, h) listens =
      on_host-Listens (apply_ip_tables_rules host rules "create")
        (record lb { iptables_rules = rules }, h) listens

  delete_rules-Listens :
      (rules : List IptablesRule)
      → Ensures Listens (delete_rules host texts marks rules) (λ _. Listens)
  unfolding delete_rules
  delete_rules-Listens rules s h = go (ltb 0 (length rules))
    where
      go :
          (some_rules : Bool)
          → Outcome
              (λ _. Listens)
              ((if some_rules
                  then on_host host texts marks (apply_ip_tables_rules host rules "delete")
                  else pure tt)
                s)
      go true = on_host-Listens (apply_ip_tables_rules host rules "delete") s h
      go false = h

  abbrev then_Listens :
      {A B : Type 0} (m : Act (Balancing host texts marks) A)
      (f : A → Act (Balancing host texts marks) B)
      → Ensures Listens m (λ _. Listens)
      → ((a : A) → Ensures Listens (f a) (λ _. Listens))
      → Ensures Listens (m >>= f) (λ _. Listens)
  then_Listens = >>=-Ensures Listens (λ _. Listens) (λ _. Listens)

  ensure_frontend-Listens :
      Ensures Listens (ensure_service_load_balancer_frontend host texts marks) (λ _. Listens)
  unfolding ensure_service_load_balancer_frontend
  ensure_frontend-Listens (lb, h) =
      then_Listens _ _
        (on_host-Listens (
          valid_or_fail host texts marks
            (texts.parse_ip (show_ip host texts marks lb.frontend_ip))))
        (λ _.
          then_Listens _ _ (on_host-Listens (ensure_ipvs_service host texts marks lb.fwmark)) (λ _.
            then_Listens _ _
              (create_rules-Listens (
                frontend_rules (show_ip host texts marks lb.frontend_ip)
                  (marks.format_uint lb.fwmark)))
              (λ _. delete_rules-Listens (copy [] lb.iptables_rules))))
        (lb, h)

  -- A load balancer that has changed its address without an error has the new one, and its link.
  pub update_frontend_ip_lem :
      (lb : ServiceLb Ip Link) (h : H)
      → lb.link ≡ link
      → Outcome
          (λ _ s. (s.0.frontend_ip ≡ some ip) × (s.0.link ≡ link))
          (update_frontend_ip host texts marks ip (lb, h))
  unfolding update_frontend_ip
  update_frontend_ip_lem lb h same =
      >>=-Ensures (λ _. Unit {0}) (λ _ _. Unit {0}) (λ _. Listens) listen _ (λ s _. any (listen s))
        (λ _ s _.
          then_Listens _ _ ensure_frontend-Listens (λ _. stop_old-Listens lb.link lb.frontend_ip)
            (record lb { frontend_ip = some ip }, s.1) (refl, same))
        (lb, h) tt
    where
      listen : Act (Balancing host texts marks) (Unit {0})
      listen =
          on_host host texts marks
            (ensure_interface_listens_on_address host lb.link (texts.print_ip ip))
