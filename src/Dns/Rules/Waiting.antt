-- ===== src/Dns/Rules/Waiting.antt =====
-- When the waiting of `waitForChainsWithRules` in plugin/pkg/dns/server.go ends, and with what.
use flannel_network_plugin.Prelude.{
  ◌<◌, ◌≡◌, refl, Bool, true, false, not, leb, Option, none, some, List, [], ◌∷◌, String, All,
  if◌then◌else◌, length, arith, ap, sym, ◌∙◌, inl, inr, ◌⊎◌,
}
use flannel_network_plugin.Common.Act.{
  ◌>>=◌, ◌>>◌, pure, Outcome, Ensures, >>=-Ensures, Outcome-map,
}
use flannel_network_plugin.Dns.Rules.{
  Chains, check_context, has_rule, chain_ready, chains_ready, Tick, after_group, some_group_ready,
  after_round, wait_for_chains_with_rules,
}

-- The calls that look at a chain, `ChainExists` and `List`, change nothing, whether they fail or not.
pub record Looks (chains : Chains) : Type 0 where
  pub keeps_chain_exists : (chain : String) (n : chains.N) → (chains.chain_exists chain n).1 ≡ n
  pub keeps_list_rules : (chain : String) (n : chains.N) → (chains.list_rules chain n).1 ≡ n

module _ (chains : Chains) (looks : Looks chains) where
  open chains use {N}

  -- A chain exists and has a rule beside its header, as `ChainExists` and `List` say.
  abbrev pub IsReady : N → String → Type 0
  IsReady n chain =
      ((chains.chain_exists chain n).0 ≡ some true)
      × ((rules : List String) × ((chains.list_rules chain n).0 ≡ some rules) × (1 < length rules))

  -- All chains of one of the groups are ready.
  abbrev pub OneIsReady : N → List (List String) → Type 0
  OneIsReady n [] = ⊥
  OneIsReady n (group ∷ groups) = All (IsReady n) group ⊎ OneIsReady n groups

  -- A look that says that something is ready is right, and changes nothing.
  abbrev Right : Type 0 → N → Bool → N → Type 0
  Right P n ready n1 = (n1 ≡ n) × (ready ≡ true → P)

  listed :
      (chain : String) (n : N) (r : Option (List String) × N)
      → (chains.chain_exists chain n).0 ≡ some true
      → chains.list_rules chain n ≡ r
      → r.1 ≡ n
      → Outcome
          (Right (IsReady n chain) n)
          (((λ (_ : N). r) >>= (λ rules. pure (not (leb (length rules) 1)))) n)
  listed chain n (none, n1) exists e kept = tt
  listed chain n (some rules, n1) exists e kept =
      (kept, λ ready. (exists, (rules, ap (λ r. r.0) e, ground (arith, ready))))

  has_rule_lem :
      (chain : String) (n : N) (exists : Bool)
      → (chains.chain_exists chain n).0 ≡ some exists
      → Outcome (Right (IsReady n chain) n) (has_rule chains exists chain n)
  unfolding has_rule
  has_rule_lem chain n false e = (refl, λ never. cc)
  has_rule_lem chain n true e =
      listed chain n (chains.list_rules chain n) e refl (looks.keeps_list_rules chain n)

  chain_ready_lem :
      (chain : String) (n : N) → Outcome (Right (IsReady n chain) n) (chain_ready chains chain n)
  unfolding chain_ready check_context
  chain_ready_lem chain n = go (chains.is_done n)
    where
      looked :
          (r : Option Bool × N)
          → chains.chain_exists chain n ≡ r
          → r.1 ≡ n
          → Outcome
              (Right (IsReady n chain) n)
              (((λ (_ : N). r) >>= (λ exists. has_rule chains exists chain)) n)
      looked (none, n1) e kept = tt
      looked (some exists, n1) e kept = rw (kept) (has_rule_lem chain n exists (ap (λ r. r.0) e))

      go :
          (done : Bool)
          → Outcome (Right (IsReady n chain) n) (
              ((λ n. if done then (none, n) else (some tt, n))
                  >> (chains.chain_exists chain >>= λ exists. has_rule chains exists chain))
                n)
      go true = tt
      go false = looked (chains.chain_exists chain n) refl (looks.keeps_chain_exists chain n)

  chains_ready_lem :
      (group : List String) (n : N)
      → Outcome (Right (All (IsReady n) group) n) (chains_ready chains group n)
  unfolding chains_ready
  chains_ready_lem [] n = (refl, λ _. tt)
  chains_ready_lem (chain ∷ group) n =
      >>=-Ensures (λ m. m ≡ n) (Right (IsReady n chain) n)
        (Right (All (IsReady n) (chain ∷ group)) n) (chain_ready chains chain) _
        (λ m e. rw (e) (chain_ready_lem chain n)) (rest (chains_ready_lem group n)) n refl
    where
      rest :
          Outcome (Right (All (IsReady n) group) n) (chains_ready chains group n)
          → (ready : Bool)
          → Ensures
              (Right (IsReady n chain) n ready)
              (if ready then chains_ready chains group else pure false)
              (Right (All (IsReady n) (chain ∷ group)) n)
      rest later false m h = (h.0, λ never. cc)
      rest later true m h = rw (h.0) (
          Outcome-map (Right (All (IsReady n) group) n) (Right (All (IsReady n) (chain ∷ group)) n)
            (chains_ready chains group n)
            (λ ready m1 found. (found.0, λ is_ready. (h.1 refl, found.1 is_ready))) later)

  some_group_ready_lem :
      (tick : Tick chains) (groups : List (List String)) (n : N)
      → Outcome (Right (OneIsReady n groups) n) (some_group_ready chains tick groups n)
  unfolding some_group_ready after_group
  some_group_ready_lem tick [] n = (refl, λ never. cc)
  some_group_ready_lem tick (group ∷ groups) n =
      go (chains_ready chains group n) (chains_ready_lem group n)
        (some_group_ready_lem tick groups n)
    where
      Later : Option Bool × N → Type 0
      Later = Outcome (Right (OneIsReady n groups) n)

      Now : Option Bool × N → Type 0
      Now = Outcome (Right (OneIsReady n (group ∷ groups)) n)

      late :
          (b : Bool) (m : N)
          → m ≡ n
          → Later (some_group_ready chains tick groups n)
          → Now (if b then (none, m) else some_group_ready chains tick groups m)
      late true m e others = tt
      late false m e others = rw (e) (
          Outcome-map (Right (OneIsReady n groups) n) (Right (OneIsReady n (group ∷ groups)) n)
            (some_group_ready chains tick groups n)
            (λ ready m1 found. (found.0, λ is_ready. inr (found.1 is_ready))) others)

      go :
          (r : Option Bool × N)
          → Outcome (Right (All (IsReady n) group) n) r
          → Later (some_group_ready chains tick groups n)
          → Now (after_group chains (some_group_ready chains tick groups) tick r)
      go (none, m) h others = tt
      go (some true, m) h others = (h.0, λ _. inl (h.1 refl))
      go (some false, m) h others = late tick.is_late m h.0 others

  -- If the calls that look at a chain change nothing, and the waiting for chains succeeds, then in
  -- the state that it ends in all chains of one of the groups are ready: `ChainExists` says that the
  -- chain exists, and `List` gives a rule beside its header.
  pub wait_for_chains_with_rules_lem :
      (groups : List (List String)) (ticks : List (Tick chains)) (n n1 : N)
      → wait_for_chains_with_rules chains groups ticks n ≡ some (some tt, n1)
      → OneIsReady n1 groups
  unfolding wait_for_chains_with_rules after_round
  wait_for_chains_with_rules_lem groups [] n n1 done = cc
  wait_for_chains_with_rules_lem groups (tick ∷ ticks) n n1 done =
      go (λ m. wait_for_chains_with_rules_lem groups ticks m n1)
        (some_group_ready chains tick groups n) (some_group_ready_lem tick groups n) done
    where
      ends :
          {m : N}
          → ◌≡◌ {A = Option (Option (Unit {0}) × N)} (some (some tt, m)) (some (some tt, n1))
          → m ≡ n1
      ends e = cc

      go :
          ((m : N)
            → wait_for_chains_with_rules chains groups ticks m ≡ some (some tt, n1)
            → OneIsReady n1 groups)
          → (r : Option Bool × N) → Outcome (Right (OneIsReady n groups) n) r
          → after_round chains (wait_for_chains_with_rules chains groups ticks) tick r
            ≡ some (some tt, n1)
          → OneIsReady n1 groups
      go again (none, m) h e = cc
      go again (some true, m) h e = rw (sym (ends e) ∙ h.0) (h.1 refl)
      go again (some false, m) h e = again (tick.meanwhile m) e
