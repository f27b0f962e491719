-- ===== src/Examples/Fwmarks.antt =====
-- Marks on concrete stores.
use flannel_network_plugin.Prelude.{
  ℕ, ◌^◌, ◌<◌, ◌%◌, ◌≡◌, refl, ap, false, some, [], ◌∷◌, String, string_eq, nat_eq, contains, arith,
  ◌⊎◌,
}
use flannel_network_plugin.Prelude.Dict.{lookup, insert}
use flannel_network_plugin.Common.Result.{ok}
use flannel_network_plugin.External.Etcd.Single
use flannel_network_plugin.External.Etcd.Single.{Db, single, store_of, single-IsQuiet}
use Prim.Native.String.{len}
use flannel_network_plugin.External.Texts
use flannel_network_plugin.Etcd.Client
use flannel_network_plugin.Examples.{plugin, ticks, count_ticks, count_ticks-ticks}
use flannel_network_plugin.ServiceLb.Fwmarks
use flannel_network_plugin.ServiceLb.Fwmarks.{
  Marks, Suffixes, generate_fwmark, fwmark_service_key, get_mark, release_mark, mark_cmps,
  clean_up_kvs,
}
use flannel_network_plugin.ServiceLb.Fwmarks.Claim.{
  generate_fwmark-fresh, get_mark-Claimed, Claimed,
}

-- Marks written in unary, and a checksum that collides often.
abbrev pub unary : Marks
unary = record {
  format_uint = ticks;
  parse_uint = λ s. some (count_ticks s);
  parse-format = λ n small. ap some (count_ticks-ticks n);
  checksum = λ text. len text % 4;
  checksum_small = λ text. omega arith;
}

abbrev draws : Suffixes
draws i = some "x"

-- The name "web-net" has 7 characters, whose mark is taken; "web_x" has 5.
generates : generate_fwmark unary "web" "net" (3 ∷ []) draws ≡ ok 1
unfolding generate_fwmark contains
generates = refl

generate_fwmark-fresh_example : (contains {A = ℕ} 1 (3 ∷ []) ≡ false) × (1 < 2 ^ 32)
generate_fwmark-fresh_example = generate_fwmark-fresh unary "web" "net" (3 ∷ []) draws 1 generates

-- The mark 3 is another service's.
abbrev one_mark : Db
one_mark = ("/flannel/net/list/ttt", "db") ∷ ("/flannel/net/by-service/db", "ttt") ∷ []

abbrev marked : Db
marked = (get_mark single unary plugin "web" "net" (draws ∷ []) one_mark).1

gets : get_mark single unary plugin "web" "net" (draws ∷ []) one_mark ≡ (ok 1, marked)
unfolding get_mark Fwmarks.new_mark Single.commit Single.select insert lookup fwmark_service_key
    Fwmarks.fwmark_key Fwmarks.fwmarks_list_key Fwmarks.fwmark_services_key Fwmarks.existing_fwmarks
    generate_fwmark contains Client.get_key Texts.trim_left Texts.trim_prefix
gets = refl

get_mark-Claimed_example :
    ((value : String) × (lookup (fwmark_service_key plugin "net" "web") one_mark ≡ some value)
      × (some (count_ticks value) ≡ some 1))
    ⊎ Claimed single unary plugin "web" "net" 1 marked one_mark
get_mark-Claimed_example =
    get_mark-Claimed single unary plugin "web" "net" (draws ∷ []) one_mark marked 1 gets
