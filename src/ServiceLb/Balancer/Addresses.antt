-- ===== src/ServiceLb/Balancer/Addresses.antt =====
-- What `UpdateFrontendIP` of plugin/pkg/service_lb/network_specific_service_lb.go does to the
-- addresses of interfaces.
use flannel_network_plugin.Prelude.{
  ◌≡◌, refl, ltb, length, [], ℕ, Option, none, some, List, String, string_eq, ◌==◌, Bool, true,
  false, if◌then◌else◌, Bool-cases, inl, inr, sym, ◌∙◌,
}
use flannel_network_plugin.Common.Act.{
  Act, ◌>>=◌, ◌>>◌, pure, Keeps, >>=-Keeps, for_each-Keeps, Outcome,
}
use flannel_network_plugin.External.Texts.{Texts}
use flannel_network_plugin.External.Host.{Host, IpvsService}
use flannel_network_plugin.Networking.Iptables.{IptablesRule, apply_ip_tables_rules}
use flannel_network_plugin.Networking.Interfaces.{
  with_prefix, parsed_addr, parse_address, ensure_interface_listens_on_address,
  stop_listening_on_address,
}
use flannel_network_plugin.Networking.Interfaces.Addresses.{HasAddresses}
use flannel_network_plugin.ServiceLb.Fwmarks.{Marks}
use flannel_network_plugin.ServiceLb.Balancer.{
  ServiceLb, Balancing, with_lb, on_host, set_lb, svc_of, same_settings, update_existing,
  is_present, create_or_update, ensure_ipvs_service, create_rules, delete_rules, show_ip,
  valid_or_fail, frontend_rules, copy, ensure_service_load_balancer_frontend, stop_old,
  update_frontend_ip,
}

module _ (host : Host) (texts : Texts) (marks : Marks) (addresses : HasAddresses host texts)
    (d : String) (ip : texts.Ip) where
  open host use {H, Link}

  abbrev Has : H → Type 0
  Has h = addresses.has h d ip ≡ true

  abbrev pub HasIn : Balancing host texts marks → Type 0
  HasIn s = Has s.1

  either-Keeps :
      {S A : Type 0} (P : S → Type 0) (b : Bool) (m n : Act S A)
      → Keeps P m
      → Keeps P n
      → Keeps P (if b then m else n)
  either-Keeps P true m n keeps_m keeps_n = keeps_m
  either-Keeps P false m n keeps_m keeps_n = keeps_n

  apply-Keeps :
      (rules : List IptablesRule) (action : String)
      → Keeps Has (apply_ip_tables_rules host rules action)
  unfolding apply_ip_tables_rules
  apply-Keeps rules action =
      >>=-Keeps Has host.new_iptables _ (addresses.keeps_new_iptables d ip) (λ _.
        either-Keeps Has (action == "create") _ _
          (for_each-Keeps Has _ rules
            (λ rule. addresses.keeps_append_unique d ip rule.table rule.chain rule.rule_spec))
          (either-Keeps Has (action == "delete") _ _
            (for_each-Keeps Has _ rules
              (λ rule. addresses.keeps_delete_rule d ip rule.table rule.chain rule.rule_spec))
            (λ h has. has)))

  kernel-Keeps : {A : Type 0} (m : Act H A) → Keeps Has m → Keeps HasIn (on_host host texts marks m)
  unfolding on_host with_lb
  kernel-Keeps m keeps (lb, h) has = keeps h has

  existing-Keeps : (fwmark : ℕ) → Keeps Has (update_existing host texts marks fwmark)
  unfolding update_existing
  existing-Keeps fwmark =
      >>=-Keeps Has (host.get_service (svc_of fwmark)) _
        (addresses.keeps_get_service d ip (svc_of fwmark))
        (λ existing.
          either-Keeps Has (same_settings existing (svc_of fwmark)) _ _ (λ h has. has)
            (addresses.keeps_update_service d ip (svc_of fwmark)))

  made-Keeps :
      (fwmark : ℕ) (exists : Bool) → Keeps Has (create_or_update host texts marks fwmark exists)
  unfolding create_or_update
  made-Keeps fwmark true = existing-Keeps fwmark
  made-Keeps fwmark false = addresses.keeps_new_service d ip (svc_of fwmark)

  service-Keeps : (fwmark : ℕ) → Keeps Has (ensure_ipvs_service host texts marks fwmark)
  unfolding ensure_ipvs_service is_present
  service-Keeps fwmark =
      let made : Act H IpvsService = pure (svc_of fwmark) in
      let last = λ (exists : Bool). create_or_update host texts marks fwmark exists >> made in
      >>=-Keeps Has host.new_ipvs (λ _. is_present host texts marks (svc_of fwmark) >>= last)
        (addresses.keeps_new_ipvs d ip)
        (λ _.
          >>=-Keeps Has (is_present host texts marks (svc_of fwmark)) last (λ h has. has)
            (λ exists.
              >>=-Keeps Has (create_or_update host texts marks fwmark exists) (λ _. made)
                (made-Keeps fwmark exists) (λ _ h has. has)))

  valid-Keeps : (shown : Option texts.Ip) → Keeps Has (valid_or_fail host texts marks shown)
  unfolding valid_or_fail
  valid-Keeps none h has = has
  valid-Keeps (some shown) h has = has

  create-Keeps : (rules : List IptablesRule) → Keeps HasIn (create_rules host texts marks rules)
  unfolding create_rules
  create-Keeps rules (lb, h) has =
      kernel-Keeps (apply_ip_tables_rules host rules "create") (apply-Keeps rules "create") _ has

  delete-Keeps : (rules : List IptablesRule) → Keeps HasIn (delete_rules host texts marks rules)
  unfolding delete_rules
  delete-Keeps rules =
      either-Keeps HasIn (ltb 0 (length rules)) _ _
        (kernel-Keeps (apply_ip_tables_rules host rules "delete") (apply-Keeps rules "delete"))
        (λ s has. has)

  -- The rules and the service of a frontend.
  frontend-Keeps : Keeps HasIn (ensure_service_load_balancer_frontend host texts marks)
  unfolding ensure_service_load_balancer_frontend
  frontend-Keeps (lb, h) =
      let rules =
        frontend_rules (show_ip host texts marks lb.frontend_ip) (marks.format_uint lb.fwmark) in
      let dropped = delete_rules host texts marks (copy [] lb.iptables_rules) in
      let created = create_rules host texts marks rules in
      let serving = on_host host texts marks (ensure_ipvs_service host texts marks lb.fwmark) in
      let checked =
        valid_or_fail host texts marks (texts.parse_ip (show_ip host texts marks lb.frontend_ip)) in
      >>=-Keeps HasIn (on_host host texts marks checked)
        (λ _. serving >>= (λ _. created >> dropped)) (kernel-Keeps checked (valid-Keeps _))
        (λ _.
          >>=-Keeps HasIn serving (λ _. created >> dropped)
            (kernel-Keeps (ensure_ipvs_service host texts marks lb.fwmark)
              (service-Keeps lb.fwmark))
            (λ _.
              >>=-Keeps HasIn created (λ _. dropped) (create-Keeps rules)
                (λ _. delete-Keeps (copy [] lb.iptables_rules))))
        (lb, h)

  -- Another address, or an address of another device, is given up.
  stop_listening-Keeps :
      (link : Link) (old : texts.Ip)
      → (addresses.device link ≡ d → texts.print_ip old ≡ texts.print_ip ip → ⊥)
      → Keeps Has (stop_listening_on_address host link (texts.print_ip old))
  unfolding stop_listening_on_address parse_address parsed_addr
  stop_listening-Keeps link old differs h has = go (host.parse_addr _) refl
    where
      go :
          (addr : Option host.Addr)
          → host.parse_addr (with_prefix (texts.print_ip old)) ≡ addr
          → Has ((parsed_addr host addr >>= host.addr_del link) h).1
      go none e = has
      go (some addr) e = addresses.keeps_addr_del d ip link addr old e differs h has

  stop_old-Keeps :
      (link : Link) (old : Option texts.Ip) (new : texts.Ip)
      → (addresses.device link ≡ d → texts.print_ip new ≡ texts.print_ip ip)
      → Keeps HasIn (stop_old host texts marks link old new)
  unfolding stop_old
  stop_old-Keeps link none new mine = λ s has. has
  stop_old-Keeps link (some old) new mine =
      elim (Bool-cases (texts.print_ip old == texts.print_ip new)) [
        | inl same ↦ λ s has. rw (same, stop_old) has
        | inr differs ↦ λ s has.
            rw (differs, stop_old)
              (kernel-Keeps (stop_listening_on_address host link (texts.print_ip old))
                (stop_listening-Keeps link old (λ here equal. cc (
                  sym differs
                  ∙ (string_eq.beq_iff (texts.print_ip old) (texts.print_ip new)).1
                      (equal ∙ sym (mine here)))))
                s has)
      ]

  -- What follows once the interface listens on the new address.
  rest-Keeps :
      (lb : ServiceLb texts.Ip Link) (new : texts.Ip)
      → (addresses.device lb.link ≡ d → texts.print_ip new ≡ texts.print_ip ip)
      → Keeps HasIn (
          set_lb host texts marks (record lb { frontend_ip = some new })
          >> (ensure_service_load_balancer_frontend host texts marks
              >> stop_old host texts marks lb.link lb.frontend_ip new))
  rest-Keeps lb new mine s has =
      >>=-Keeps HasIn (ensure_service_load_balancer_frontend host texts marks) _ frontend-Keeps
        (λ _. stop_old-Keeps lb.link lb.frontend_ip new mine)
        (record lb { frontend_ip = some new }, s.1) has

  -- The addresses of other devices stay.
  pub update_frontend_ip-other :
      (new : texts.Ip) (lb : ServiceLb texts.Ip Link) (h : H)
      → (addresses.device lb.link ≡ d → ⊥)
      → addresses.has h d ip ≡ true
      → HasIn (update_frontend_ip host texts marks new (lb, h)).1
  unfolding update_frontend_ip ensure_interface_listens_on_address parse_address parsed_addr on_host
      with_lb
  update_frontend_ip-other new lb h other has = go (host.parse_addr _)
    where
      rest :
          (r : Option (Unit {0}) × H)
          → Has r.1
          → HasIn
              (((λ (_ : Balancing host texts marks). with_lb host texts marks lb r)
                  >> (set_lb host texts marks (record lb { frontend_ip = some new })
                      >> (ensure_service_load_balancer_frontend host texts marks
                          >> stop_old host texts marks lb.link lb.frontend_ip new)))
                (lb, h)).1
      rest (none, h1) has1 = has1
      rest (some _, h1) has1 = rest-Keeps lb new (λ here. absurd (other here)) (lb, h1) has1

      go :
          (addr : Option host.Addr)
          → HasIn
              (((λ (_ : Balancing host texts marks).
                    with_lb host texts marks lb
                      ((parsed_addr host addr >>= host.addr_replace lb.link) h))
                  >> (set_lb host texts marks (record lb { frontend_ip = some new })
                      >> (ensure_service_load_balancer_frontend host texts marks
                          >> stop_old host texts marks lb.link lb.frontend_ip new)))
                (lb, h)).1
      go none = has
      go (some addr) =
          rest (host.addr_replace lb.link addr h)
            (addresses.keeps_addr_replace d ip lb.link addr h has)

-- The interface of the load balancer has the new address.
pub update_frontend_ip-HasIn :
    (host : Host) (texts : Texts) (marks : Marks) (addresses : HasAddresses host texts)
    (ip : texts.Ip) (lb : ServiceLb texts.Ip host.Link) (h : host.H)
    → Outcome
        (λ _. HasIn host texts marks addresses (addresses.device lb.link) ip)
        (update_frontend_ip host texts marks ip (lb, h))
unfolding update_frontend_ip ensure_interface_listens_on_address parse_address parsed_addr on_host
    with_lb
update_frontend_ip-HasIn host texts marks addresses ip lb h = go (host.parse_addr _) refl
  where
    Mine : Balancing host texts marks → Type 0
    Mine = HasIn host texts marks addresses (addresses.device lb.link) ip

    rest : Act (Balancing host texts marks) (Unit {0})
    rest =
        set_lb host texts marks (record lb { frontend_ip = some ip })
        >> (ensure_service_load_balancer_frontend host texts marks
            >> stop_old host texts marks lb.link lb.frontend_ip ip)

    kept : (r : Option (Unit {0}) × Balancing host texts marks) → Mine r.1 → Outcome (λ _. Mine) r
    kept (none, s) mine = tt
    kept (some _, s) mine = mine

    replaced :
        (r : Option (Unit {0}) × host.H)
        → Outcome (λ _ h1. addresses.has h1 (addresses.device lb.link) ip ≡ true) r
        → Outcome
            (λ _. Mine)
            (((λ (_ : Balancing host texts marks). with_lb host texts marks lb r) >> rest) (lb, h))
    replaced (none, h1) mine = tt
    replaced (some _, h1) mine = kept (rest (lb, h1)) (
        rest-Keeps host texts marks addresses (addresses.device lb.link) ip lb ip (λ _. refl)
          (lb, h1) mine)

    go :
        (addr : Option host.Addr)
        → host.parse_addr (with_prefix (texts.print_ip ip)) ≡ addr
        → Outcome
            (λ _. Mine)
            (((λ (_ : Balancing host texts marks).
                  with_lb host texts marks lb
                    ((parsed_addr host addr >>= host.addr_replace lb.link) h))
                >> rest)
              (lb, h))
    go none e = tt
    go (some addr) e =
        replaced (host.addr_replace lb.link addr h) (addresses.addr_replace_lem lb.link addr ip h e)
