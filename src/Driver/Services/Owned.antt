-- ===== src/Driver/Services/Owned.antt =====
-- plugin/pkg/driver/flannel_driver.go: each service has an object of its own.
use flannel_network_plugin.Prelude.{
  ◌<◌, ◌≡◌, refl, Bool, true, false, Option, some, String, string_eq, nat_eq, nat_beq, nat_beq_iff,
  ◌==◌, if◌then◌else◌, inl, inr, Option-cases, Bool-cases, ap, sym, ◌∙◌, arith,
}
use flannel_network_plugin.Prelude.Dict.{lookup, lookup-insert}
use flannel_network_plugin.ServiceLb.Management.{Parts, ServiceRef}
use flannel_network_plugin.Driver.{Flannels, create_service, get_or_add_service}
use flannel_network_plugin.Driver.Services.{ServiceInfo, handle_service}
use flannel_network_plugin.Driver.Services.Objects.{D, update_service_lem}

module _ (parts : Parts) (flannels : Flannels parts) where
  open parts use {texts, lo, ip_eq}

  -- No two services share an object, and a new object is one that no service has.
  pub record IsOwned (d : D parts flannels) : Type 0 where
    pub is_old : (id : String) (s : ServiceRef) → lookup id d.services ≡ some s → s < d.next_object
    pub is_own :
        (id other : String) (s : ServiceRef)
        → lookup id d.services ≡ some s
        → lookup other d.services ≡ some s
        → id ≡ other

  -- What finding or making the object of one service does to another service.
  pub get_or_add_service_other :
      (id name other : String) (d : D parts flannels) (r : ServiceRef)
      → IsOwned d
      → (id == other) ≡ false
      → lookup other d.services ≡ some r
      → let (s, d1) = get_or_add_service parts flannels id name d in
        (lookup other d1.services ≡ some r)
        × (d1.world.objects r ≡ d.world.objects r)
        × (nat_beq s r ≡ false)
  unfolding get_or_add_service create_service
  get_or_add_service_other id name other d r owned ne there =
      elim (Option-cases (lookup id d.services)) [
        | inl new ↦
            rw (new, get_or_add_service)
              (
                lookup-insert id other d.next_object d.services ∙ rw (ne) there,
                rw (fresh) refl,
                fresh,
              )
        | inr (s, known) ↦
            rw (known, get_or_add_service)
              (
                there,
                refl,
                elim (Bool-cases (nat_beq s r)) [
                  | inr differ ↦ differ
                  | inl same ↦ cc (
                      sym ne
                      ∙ (string_eq.beq_iff id other).1 (
                          owned.is_own id other s known
                            (there ∙ ap some (sym ((nat_beq_iff s r).0 same)))))
                ],
              )
      ]
    where
      fresh : nat_beq d.next_object r ≡ false
      fresh = ground (arith, owned.is_old other r there)

  pub get_or_add_service-IsOwned :
      (id name : String) (d : D parts flannels)
      → IsOwned d
      → IsOwned (get_or_add_service parts flannels id name d).1
  unfolding get_or_add_service create_service
  get_or_add_service-IsOwned id name d owned = elim (Option-cases (lookup id d.services)) [
    | inl new ↦
        rw (new, get_or_add_service)
          (record {
            is_old = λ a s e.
                ground (arith, e, lookup-insert id a d.next_object d.services, owned.is_old a s);
            is_own = λ a b s e f.
                own a b s (sym (lookup-insert id a d.next_object d.services) ∙ e)
                  (sym (lookup-insert id b d.next_object d.services) ∙ f);
          })
    | inr (s, known) ↦ rw (known, get_or_add_service) owned
  ]
    where
      otherwise :
          {o : Option ServiceRef} {s : ServiceRef} (known : Bool)
          → known ≡ false
          → (if known then some d.next_object else o) ≡ some s
          → o ≡ some s
      otherwise true not_known e = cc
      otherwise false not_known e = e

      own :
          (a b : String) (s : ServiceRef)
          → (if id == a then some d.next_object else lookup a d.services) ≡ some s
          → (if id == b then some d.next_object else lookup b d.services) ≡ some s
          → a ≡ b
      own a b s e f = elim (Bool-cases (id == a)) [
        | inl same_a ↦ elim (Bool-cases (id == b)) [
          | inl same_b ↦ sym ((string_eq.beq_iff id a).0 same_a) ∙ (string_eq.beq_iff id b).0 same_b
          | inr new_b ↦ ground (arith, e, f, owned.is_old b s)
        ]
        | inr new_a ↦ elim (Bool-cases (id == b)) [
          | inl same_b ↦ ground (arith, e, f, owned.is_old a s)
          | inr new_b ↦ owned.is_own a b s (otherwise _ new_a e) (otherwise _ new_b f)
        ]
      ]

  pub handle_service-IsOwned :
      (info : ServiceInfo texts.Ip) (d : D parts flannels)
      → IsOwned d
      → IsOwned (handle_service parts flannels info d)
  unfolding handle_service
  handle_service-IsOwned info d owned =
      let (s, d1) = get_or_add_service parts flannels info.id info.name d in
      let owned1 = get_or_add_service-IsOwned info.id info.name d owned in
      let after = update_service_lem parts flannels info s d1 in
      record {
        is_old = λ id r e. rw (after.1) (owned1.is_old id r (ap (lookup id) (sym after.0) ∙ e));
        is_own = λ id other r e f.
            owned1.is_own id other r (ap (lookup id) (sym after.0) ∙ e)
              (ap (lookup other) (sym after.0) ∙ f);
      }
