-- ===== src/Examples/Nameserver.antt =====
-- A name server whose resolver knows one name, and a kernel in which chains have two lines.
use flannel_network_plugin.Prelude.{
  ℕ, suc, ◌≡◌, refl, Bool, true, false, some, none, List, [], ◌∷◌, String, string_eq, ◌==◌,
  if◌then◌else◌, All,
}
use flannel_network_plugin.Prelude.Dict.{is_some}
use flannel_network_plugin.Common.Act.{pure}
use flannel_network_plugin.Dns.Server.{Wire, Question, type_a, serve_dns, answers}
use flannel_network_plugin.Dns.Server.Local.{IsLocal, serve_dns_lem}
use flannel_network_plugin.Dns.Rules.{Chains, Tick, wait_for_chains_with_rules}
use flannel_network_plugin.Dns.Rules.Waiting.{Looks, OneIsReady, wait_for_chains_with_rules_lem}

-- Each exchange is counted, and fails.
abbrev counted : Wire
counted = record {
  Rr = String;
  Outside = ℕ;
  exchange = λ protocol o. (none, suc o);
  truncate = λ size msg. msg;
}

abbrev knows_web : String → List String
knows_web name = if name == "web." then "10.0.0.1" ∷ [] else []

abbrev nothing : String → List String
nothing name = []

abbrev query : List Question
query = record { name = "web."; question_type = type_a } ∷ []

web-IsLocal : All (IsLocal counted knows_web nothing) query
unfolding answers
web-IsLocal = (refl, tt)

serve_dns_lem_example :
    (is_some (serve_dns counted knows_web nothing false none query 0).0 ≡ true)
    × ((serve_dns counted knows_web nothing false none query 0).1 ≡ 0)
serve_dns_lem_example = serve_dns_lem counted knows_web nothing false none query 0 web-IsLocal

-- The state says whether the chains exist; there are no rules of a chain that does not.
abbrev kernel : Chains
kernel = record {
  N = Bool;
  new_iptables = pure tt;
  chain_exists = λ chain n. (some n, n);
  new_chain = λ chain n. (some tt, true);
  list_rules = λ chain n. if n then (some ("-N chain" ∷ "-A chain" ∷ []), n) else (none, n);
  insert_first = λ chain rule. pure tt;
  delete_rule = λ chain rule. pure tt;
  is_done = λ n. false;
  fields = λ rule. [];
}

keeps_kernel : (n : Bool) → (kernel.list_rules "DOCKER_OUTPUT" n).1 ≡ n
keeps_kernel true = refl
keeps_kernel false = refl

kernel_looks : Looks kernel
kernel_looks = record {
  keeps_chain_exists = λ chain n. refl;
  keeps_list_rules = λ chain. keeps_kernel;
}

abbrev ticks : List (Tick kernel)
ticks =
    record { is_late = false; meanwhile = λ n. true }
    ∷ record { is_late = false; meanwhile = λ n. n }
    ∷ []

waits :
    wait_for_chains_with_rules kernel (("DOCKER_OUTPUT" ∷ []) ∷ []) ticks false
    ≡ some (some tt, true)
unfolding wait_for_chains_with_rules
waits = refl

wait_for_chains_with_rules_lem_example :
    OneIsReady kernel kernel_looks true (("DOCKER_OUTPUT" ∷ []) ∷ [])
wait_for_chains_with_rules_lem_example =
    wait_for_chains_with_rules_lem kernel kernel_looks (("DOCKER_OUTPUT" ∷ []) ∷ []) ticks false
      true waits
