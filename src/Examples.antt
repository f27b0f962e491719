-- ===== src/Examples.antt =====
-- Concrete values of the interfaces, for the tests: two addresses, times of whole seconds written
-- in unary, and the helpers on slices.
pub mod Lease
pub mod Pool
pub mod Space
pub mod Store
pub mod Stores
pub mod Subnet
pub mod Watch
pub mod Dns
pub mod Common
pub mod Fwmarks
pub mod Balancer
pub mod Init
pub mod Node
pub mod Management
pub mod Stale
pub mod Drivers
pub mod Nameserver
use Prim.Native.Char.{Char}
use Prim.Native.String
use flannel_network_plugin.Prelude.{
  ℕ, zero, suc, ◌+◌, ◌-◌, ◌*◌, ◌/◌, ◌%◌, ◌≡◌, refl, ap, sym, ◌∙◌, Bool, true, false, not, ◌&&◌,
  ◌||◌, Option, none, some, List, [], ◌∷◌, String, string_eq, ◌==◌, if◌then◌else◌, arith, contains,
  contains-filter, filter,
}
use flannel_network_plugin.External.Texts.{Texts, has_slash}
use flannel_network_plugin.External.Lo.{Lo}
use flannel_network_plugin.Etcd.Client.{Client}
use flannel_network_plugin.Ipam.Lease.Read.RoundTrip.{IsPlain}
use flannel_network_plugin.Ipam.Lease.Read.Single.{IsStrict}

pub data Address : Type 0 where
  first second : Address

abbrev pub print_address : Address → String
print_address first = "10.0.0.1"
print_address second = "10.0.0.2"

abbrev pub parse_address : String → Option Address
parse_address s =
    if s == "10.0.0.1" then some first else if s == "10.0.0.2" then some second else none

abbrev pub ticks : ℕ → String
ticks zero = ""
ticks (suc n) = String.◌∷◌ "t" (ticks n)

abbrev pub count_ticks : String → ℕ
count_ticks String.[] = 0
count_ticks (String.◌∷◌ c s) = suc (count_ticks s)

pub count_ticks-ticks : (n : ℕ) → count_ticks (ticks n) ≡ n
count_ticks-ticks zero = refl
count_ticks-ticks (suc n) = ap suc (count_ticks-ticks n)

abbrev pub second_bytes : Address → Option (ℕ × ℕ × ℕ × ℕ)
second_bytes first = some (10, 0, 0, 1)
second_bytes second = some (10, 0, 0, 2)

pub parse-print_address : (ip : Address) → parse_address (print_address ip) ≡ some ip
parse-print_address first = refl
parse-print_address second = refl

abbrev pub two_addresses : Texts
two_addresses = record {
  Ip = Address;
  print_ip = print_address;
  parse_ip = parse_address;
  parse-print = parse-print_address;
  print_time = λ t. ticks (t / 1_000_000_000);
  parse_time = λ s. some (count_ticks s * 1_000_000_000);
  to4 = second_bytes;
}

pub two_addresses-IsPlain : IsPlain two_addresses
unfolding has_slash
two_addresses-IsPlain = record {
  no_slash = elim [ first ↦ refl | second ↦ refl ];
  not_empty = elim [ first ↦ refl | second ↦ refl ];
  seconds = λ t.
      ap (λ n. some (n * 1_000_000_000)) (count_ticks-ticks (t / 1_000_000_000))
      ∙ ap some (omega arith);
}

pub two_addresses-IsStrict : IsStrict two_addresses
two_addresses-IsStrict = record { empty = refl; mac = refl; service = refl; time = refl }

abbrev pub plugin : Client
plugin = record { prefix = "/flannel" }

abbrev pub any_in : List String → List String → Bool
any_in l [] = false
any_in l (x ∷ xs) = contains x l || any_in l xs

abbrev pub slices : Lo
slices = record {
  filter = λ A p xs. filter p xs;
  filter_nil = λ A p. refl;
  filter_cons = λ A p x xs. refl;
  difference = λ l r. (filter (λ x. not (contains x r)) l, filter (λ x. not (contains x l)) r);
  difference_left = λ x l r. contains-filter (λ y. not (contains y r)) x l;
  difference_right = λ x l r. contains-filter (λ y. not (contains y l)) x r;
  some = λ l subset. any_in l subset;
  some_one = λ x l. ground arith;
}
