-- ===== src/Ipam/Lease/Read/RoundTrip.antt =====
-- Reading back what claims and reservations put: `getAllocationsByPrefix` of plugin/pkg/ipam/pool_etcd.go.
use mathlib.Core.Path.{subst}
use text.Mathlib.TextLemmas.{append_assoc}
use flannel_network_plugin.Prelude.{
  ℕ, ◌-◌, ◌%◌, ◌≡◌, refl, ap, ◌∙◌, sym, Bool, true, false, not, ◌&&◌, none, some, List, [], ◌∷◌,
  ◌++◌, String, string_eq, ◌==◌, ==_refl, if◌then◌else◌, arith, All,
}
use flannel_network_plugin.Prelude.Dict.{Dict, lookup}
use flannel_network_plugin.Common.ConcurrentMap.Laws.{lookup-add_or_update_in}
use flannel_network_plugin.External.Texts.{Texts, ◌+++◌, trim_prefix, trim_left, has_slash}
use flannel_network_plugin.External.Texts.Laws.{trim_prefix-append}
use flannel_network_plugin.Etcd.Client.{Client}
use flannel_network_plugin.External.Etcd.{Op, put}
use flannel_network_plugin.Ipam.Lease.{
  Allocation, zero_allocation, claim_ops, allocated_ips_key, allocated_ip_key, allocated_at_key,
  mac_key, service_id_key, data_key_part_mac, data_key_part_service_id, allocated_at_key_part,
}
use flannel_network_plugin.Ipam.Lease.Read.{read_kv, read_kind, read_parts, read_kvs}
use flannel_network_plugin.Ipam.Lease.Read.Keys.{
  trim_left_clean, split_clean, trim_left-slash, trim_left-append, split-append, has_slash_joined,
}

-- What the texts of addresses and times are known to be: an address has no slash and is not empty,
-- and RFC 3339 keeps the whole seconds of a time.
pub record IsPlain (texts : Texts) : Type 0 where
  pub no_slash : (ip : texts.Ip) → has_slash (texts.print_ip ip) ≡ false
  pub not_empty : (ip : texts.Ip) → (texts.print_ip ip == "") ≡ false
  pub seconds : (t : ℕ) → texts.parse_time (texts.print_time t) ≡ some (t - t % 1_000_000_000)

-- Whom a claim is for; a reservation is for nobody.
pub data Owner : Type 0 where
  container service : String → Owner
  nobody : Owner

pub record Claim (Ip : Type 0) : Type 0 where
  pub ip : Ip
  pub kind : String
  pub time : ℕ
  pub owner : Owner

abbrev pub owner_key : Client → String → Owner → String
owner_key client ip (container mac) = mac_key client ip
owner_key client ip (service id) = service_id_key client ip
owner_key client ip nobody = ""

abbrev pub owner_text : Owner → String
owner_text (container mac) = mac
owner_text (service id) = id
owner_text nobody = ""

-- The keys and values that operations put.
abbrev pub puts : List Op → Dict String String
puts [] = []
puts (put key value ∷ ops) = (key, value) ∷ puts ops
puts (_ ∷ ops) = puts ops

module _ (texts : Texts) (plain : IsPlain texts) (client : Client) where
  open texts use {Ip}

  abbrev its_key : Claim Ip → String
  its_key c = owner_key client (texts.print_ip c.ip) c.owner

  -- What the transaction of a claim puts.
  abbrev pub claim_kvs : Claim Ip → Dict String String
  claim_kvs c = puts (claim_ops texts client c.time c.ip c.kind (its_key c) (owner_text c.owner))

  -- Whether the claim has data of its owner.
  abbrev pub has_data : Claim Ip → Bool
  has_data c = not (its_key c == "") && not (owner_text c.owner == "")

  -- The allocation that a claim is read back as.
  abbrev pub read_back : Claim Ip → Allocation Ip
  read_back c = record {
    ip = some c.ip;
    allocation_type = c.kind;
    allocated_at = c.time - c.time % 1_000_000_000;
    data_key = if has_data c then its_key c else "";
    data_value = if has_data c then owner_text c.owner else "";
  }

  key_of_address :
      (ip : Ip)
      → trim_left
          (trim_prefix (allocated_ip_key client (texts.print_ip ip)) (allocated_ips_key client))
        ≡ texts.print_ip ip
  unfolding allocated_ip_key
  key_of_address ip =
      ap trim_left (trim_prefix-append (allocated_ips_key client) ("/" +++ texts.print_ip ip))
      ∙ trim_left-slash (texts.print_ip ip)
      ∙ trim_left_clean (texts.print_ip ip) (plain.no_slash ip)

  key_below_address :
      (ip : Ip) (part : String)
      → trim_left (
          trim_prefix
            (allocated_ip_key client (texts.print_ip ip) +++ part)
            (allocated_ips_key client))
        ≡ texts.print_ip ip +++ part
  unfolding allocated_ip_key
  key_below_address ip part =
      let shown = texts.print_ip ip in
      let root = allocated_ips_key client in
      ap (λ k. trim_left (trim_prefix k root))
        (append_assoc root ("/" +++ shown) part
          ∙ ap (λ s. root +++ s) (append_assoc "/" shown part))
      ∙ ap trim_left (trim_prefix-append root ("/" +++ shown +++ part))
      ∙ trim_left-slash (shown +++ part)
      ∙ trim_left-append shown part (plain.no_slash ip) (plain.not_empty ip)

  read_kv-kind :
      (ip : Ip) (kind : String) (result : Dict String (Allocation Ip))
      → read_kv texts
          (allocated_ips_key client)
          (allocated_ip_key client (texts.print_ip ip))
          kind
          result
        ≡ read_kind texts (texts.print_ip ip) kind (some ip) result
  unfolding read_kv
  read_kv-kind ip kind result = rw (key_of_address ip, plain.no_slash ip, texts.parse-print ip)

  read_kv-part :
      (ip : Ip) (part value : String) (result : Dict String (Allocation Ip))
      → has_slash part ≡ false
      → read_kv texts
          (allocated_ips_key client)
          (allocated_ip_key client (texts.print_ip ip) +++ "/" +++ part)
          value
          result
        ≡ read_parts texts
            (allocated_ip_key client (texts.print_ip ip) +++ "/" +++ part)
            value
            (texts.print_ip ip ∷ part ∷ [])
            result
  unfolding read_kv
  read_kv-part ip part value result clean = rw (
    key_below_address ip ("/" +++ part),
    has_slash_joined (texts.print_ip ip) part,
    split-append (texts.print_ip ip) part (plain.no_slash ip),
    split_clean part clean,
  )

  abbrev is_named : Claim Ip → String → Bool
  is_named c j = texts.print_ip c.ip == j

  lookup-read_kind :
      (c : Claim Ip) (result : Dict String (Allocation Ip)) (j : String)
      → lookup (texts.print_ip c.ip) result ≡ none
      → lookup j (
          read_kv texts
            (allocated_ips_key client)
            (allocated_ip_key client (texts.print_ip c.ip))
            c.kind
            result)
        ≡ (if is_named c j
            then some (record zero_allocation { ip = some c.ip; allocation_type = c.kind })
            else lookup j result)
  unfolding read_kind
  lookup-read_kind c result j fresh =
      let first = record zero_allocation { ip = some c.ip; allocation_type = c.kind } in
      let later = λ (a : Allocation Ip). record a { ip = some c.ip; allocation_type = c.kind } in
      rw (read_kv-kind c.ip c.kind result)
        (lookup-add_or_update_in (texts.print_ip c.ip) j first later result ∙ rw fresh)

  lookup-read_time :
      (c : Claim Ip) (a : Allocation Ip) (result : Dict String (Allocation Ip)) (j : String)
      → lookup (texts.print_ip c.ip) result ≡ some a
      → lookup j (
          read_kv texts
            (allocated_ips_key client)
            (allocated_at_key client (texts.print_ip c.ip))
            (texts.print_time c.time)
            result)
        ≡ (if is_named c j
            then some (record a { allocated_at = c.time - c.time % 1_000_000_000 })
            else lookup j result)
  unfolding read_parts allocated_at_key has_slash
  lookup-read_time c a result j there =
      let t = c.time - c.time % 1_000_000_000 in
      rw
        (
          read_kv-part c.ip allocated_at_key_part (texts.print_time c.time) result refl,
          plain.seconds c.time,
        )
        (lookup-add_or_update_in (texts.print_ip c.ip) j
            (record zero_allocation { allocated_at = t })
            (λ (b : Allocation Ip). record b { allocated_at = t }) result
          ∙ rw there)

  lookup-read_owner :
      (c : Claim Ip) (o : Owner) (a : Allocation Ip) (result : Dict String (Allocation Ip))
      (j : String)
      → lookup (texts.print_ip c.ip) result ≡ some a
      → (not (owner_key client (texts.print_ip c.ip) o == "") && not (owner_text o == "")) ≡ true
      → lookup j (
          read_kv texts
            (allocated_ips_key client)
            (owner_key client (texts.print_ip c.ip) o)
            (owner_text o)
            result)
        ≡ (if is_named c j
            then some (record a {
              data_key = owner_key client (texts.print_ip c.ip) o;
              data_value = owner_text o;
            })
            else lookup j result)
  unfolding read_parts mac_key service_id_key has_slash
  lookup-read_owner c nobody a result j there written = cc
  lookup-read_owner c (container mac) a result j there written =
      rw (read_kv-part c.ip data_key_part_mac mac result refl) (
        lookup-add_or_update_in (texts.print_ip c.ip) j
          (record zero_allocation {
            data_key = mac_key client (texts.print_ip c.ip);
            data_value = mac;
          })
          (λ (b : Allocation Ip). record b {
            data_key = mac_key client (texts.print_ip c.ip);
            data_value = mac;
          })
          result
        ∙ rw there)
  lookup-read_owner c (service id) a result j there written =
      rw (read_kv-part c.ip data_key_part_service_id id result refl) (
        lookup-add_or_update_in (texts.print_ip c.ip) j
          (record zero_allocation {
            data_key = service_id_key client (texts.print_ip c.ip);
            data_value = id;
          })
          (λ (b : Allocation Ip). record b {
            data_key = service_id_key client (texts.print_ip c.ip);
            data_value = id;
          })
          result
        ∙ rw there)

  -- What the keys of one claim do to what has been read of other addresses.
  after_kind : Claim Ip → Dict String (Allocation Ip) → Dict String (Allocation Ip)
  after_kind c result =
      read_kv texts (allocated_ips_key client) (allocated_at_key client (texts.print_ip c.ip))
        (texts.print_time c.time)
        (read_kv texts (allocated_ips_key client) (allocated_ip_key client (texts.print_ip c.ip))
          c.kind result)

  after_owner : Bool → Claim Ip → Dict String (Allocation Ip) → Dict String (Allocation Ip)
  after_owner written c result =
      if written
      then read_kv texts (allocated_ips_key client) (its_key c) (owner_text c.owner) result
      else result

  after_claim : Claim Ip → Dict String (Allocation Ip) → Dict String (Allocation Ip)
  unfolding after_kind after_owner
  after_claim c result = after_owner (has_data c) c (after_kind c result)

  -- Reading what the transaction of a claim puts is reading these keys in turn.
  read_kvs-claim_kvs :
      (c : Claim Ip) (more : Dict String String) (result : Dict String (Allocation Ip))
      → read_kvs texts (allocated_ips_key client) (claim_kvs c ++ more) result
        ≡ read_kvs texts (allocated_ips_key client) more (after_claim c result)
  unfolding read_kvs claim_ops after_claim after_owner after_kind
  read_kvs-claim_kvs c more result = go (has_data c)
    where
      go :
          (written : Bool)
          → read_kvs texts
              (allocated_ips_key client)
              (puts (
                  let ops =
                    put (allocated_ip_key client (texts.print_ip c.ip)) c.kind
                    ∷ put (allocated_at_key client (texts.print_ip c.ip)) (texts.print_time c.time)
                    ∷ [] in
                  if written then ops ++ put (its_key c) (owner_text c.owner) ∷ [] else ops)
                ++ more)
              result
            ≡ read_kvs texts
                (allocated_ips_key client)
                more
                (after_owner written c (after_kind c result))
      go true = refl
      go false = refl

  lookup-after_claim :
      (c : Claim Ip) (result : Dict String (Allocation Ip)) (j : String)
      → lookup (texts.print_ip c.ip) result ≡ none
      → lookup j (after_claim c result)
        ≡ (if is_named c j then some (read_back c) else lookup j result)
  unfolding after_claim after_owner after_kind
  lookup-after_claim c result j fresh =
      let shown = texts.print_ip c.ip in
      let root = allocated_ips_key client in
      let m1 = read_kv texts root (allocated_ip_key client shown) c.kind result in
      let first : Allocation Ip = record zero_allocation {
        ip = some c.ip;
        allocation_type = c.kind;
      } in
      let second : Allocation Ip = record first {
        allocated_at = c.time - c.time % 1_000_000_000;
      } in
      let at1 : lookup shown m1 ≡ some first =
        lookup-read_kind c result shown fresh ∙ rw (==_refl shown) in
      let at2 : lookup shown (after_kind c result) ≡ some second =
        lookup-read_time c first m1 shown at1 ∙ rw (==_refl shown) in
      let at_j : lookup j (after_kind c result)
          ≡ (if is_named c j then some second else lookup j result) =
        ground (arith, lookup-read_time c first m1 j at1, lookup-read_kind c result j fresh) in
      go (has_data c) refl second at2 at_j
    where
      go :
          (written : Bool)
          → has_data c ≡ written
          → (second : Allocation Ip)
          → lookup (texts.print_ip c.ip) (after_kind c result) ≡ some second
          → lookup j (after_kind c result) ≡ (if is_named c j then some second else lookup j result)
          → lookup j (after_owner written c (after_kind c result)) ≡ (
              if is_named c j
              then some (record second {
                data_key = if written then its_key c else second.data_key;
                data_value = if written then owner_text c.owner else second.data_value;
              })
              else lookup j result)
      go true e second at2 at_j =
          lookup-read_owner c c.owner second (after_kind c result) j at2 e ∙ ground (arith, at_j)
      go false e second at2 at_j = at_j

  read_kvs_at :
      (j : String) (c : Claim Ip) (more : Dict String String) (result : Dict String (Allocation Ip))
      → lookup j (read_kvs texts (allocated_ips_key client) (claim_kvs c ++ more) result)
        ≡ lookup j (read_kvs texts (allocated_ips_key client) more (after_claim c result))
  read_kvs_at j c more result = ap (lookup j) (read_kvs-claim_kvs c more result)

  -- Everything that a list of claims has written.
  abbrev pub all_kvs : List (Claim Ip) → Dict String String
  all_kvs [] = []
  all_kvs (c ∷ cs) = claim_kvs c ++ all_kvs cs

  abbrev IsOther : String → Claim Ip → Type 0
  IsOther j c = (texts.print_ip c.ip == j) ≡ false

  -- No two claims are for one address.
  abbrev pub IsDistinct : List (Claim Ip) → Type 0
  IsDistinct [] = Unit
  IsDistinct (c ∷ cs) = All (IsOther (texts.print_ip c.ip)) cs × IsDistinct cs

  abbrev IsFresh : Dict String (Allocation Ip) → List (Claim Ip) → Type 0
  IsFresh result cs = All (λ c. lookup (texts.print_ip c.ip) result ≡ none) cs

  -- What is known of other addresses stays fresh for the claims that follow.
  IsFresh-after_claim :
      (c : Claim Ip) (cs : List (Claim Ip)) (result : Dict String (Allocation Ip))
      → lookup (texts.print_ip c.ip) result ≡ none
      → All (IsOther (texts.print_ip c.ip)) cs
      → IsFresh result cs
      → IsFresh (after_claim c result) cs
  IsFresh-after_claim c [] result fresh others h = tt
  IsFresh-after_claim c (d ∷ cs) result fresh others h = (
    ground (
      arith,
      lookup-after_claim c result (texts.print_ip d.ip) fresh,
      others.0,
      h.0,
      string_eq.beq_iff (texts.print_ip c.ip) (texts.print_ip d.ip),
      string_eq.beq_iff (texts.print_ip d.ip) (texts.print_ip c.ip),
    ),
    IsFresh-after_claim c cs result fresh others.1 h.1,
  )

  -- Claims for other addresses leave an address as it was read.
  lookup-read_kvs_other :
      (cs : List (Claim Ip)) (result : Dict String (Allocation Ip)) (j : String)
      → IsDistinct cs
      → IsFresh result cs
      → All (IsOther j) cs
      → lookup j (read_kvs texts (allocated_ips_key client) (all_kvs cs) result) ≡ lookup j result
  unfolding read_kvs after_claim
  lookup-read_kvs_other [] result j distinct fresh others = refl
  lookup-read_kvs_other (c ∷ cs) result j distinct fresh others =
      read_kvs_at j c (all_kvs cs) result
      ∙ lookup-read_kvs_other cs (after_claim c result) j distinct.1
          (IsFresh-after_claim c cs result fresh.0 distinct.0 fresh.1) others.1
      ∙ lookup-after_claim c result j fresh.0
      ∙ rw others.0

  read_kvs-all_kvs_from :
      (cs : List (Claim Ip)) (result : Dict String (Allocation Ip))
      → IsDistinct cs
      → IsFresh result cs
      → All
          (λ c.
            lookup
              (texts.print_ip c.ip)
              (read_kvs texts (allocated_ips_key client) (all_kvs cs) result)
            ≡ some (read_back c))
          cs
  unfolding read_kvs after_claim
  read_kvs-all_kvs_from [] result distinct fresh = tt
  read_kvs-all_kvs_from (c ∷ cs) result distinct fresh =
      let shown = texts.print_ip c.ip in
      let kept = IsFresh-after_claim c cs result fresh.0 distinct.0 fresh.1 in
      (
        read_kvs_at shown c (all_kvs cs) result
            ∙ lookup-read_kvs_other cs (after_claim c result) shown distinct.1 kept distinct.0
            ∙ lookup-after_claim c result shown fresh.0
            ∙ rw (==_refl shown),
        subst AllBack (sym (read_kvs-claim_kvs c (all_kvs cs) result))
            (read_kvs-all_kvs_from cs (after_claim c result) distinct.1 kept),
      )
    where
      AllBack : Dict String (Allocation Ip) → Type 0
      AllBack m = All (λ d. lookup (texts.print_ip d.ip) m ≡ some (read_back d)) cs

  IsFresh-nil : (cs : List (Claim Ip)) → IsFresh [] cs
  unfolding lookup
  IsFresh-nil [] = tt
  IsFresh-nil (c ∷ cs) = (refl, IsFresh-nil cs)

  -- Reading what the transactions of any number of claims and reservations, for different
  -- addresses, have put, in the order of the claims, gives each address the allocation that was
  -- claimed, with its time cut to whole seconds, and with data if its key and value are not empty.
  pub read_kvs-all_kvs :
      (cs : List (Claim Ip))
      → IsDistinct cs
      → All
          (λ c.
            lookup (texts.print_ip c.ip) (read_kvs texts (allocated_ips_key client) (all_kvs cs) [])
            ≡ some (read_back c))
          cs
  read_kvs-all_kvs cs distinct = read_kvs-all_kvs_from cs [] distinct (IsFresh-nil cs)
