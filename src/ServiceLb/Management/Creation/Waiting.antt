-- ===== src/ServiceLb/Management/Creation/Waiting.antt =====
-- How long `createOrUpdateLoadBalancer` of plugin/pkg/service_lb/service_lbs_management.go waits,
-- among the calls that make networks known and wake it up.
use mathlib.Core.Path.{subst}
use flannel_network_plugin.Prelude.{
  ℕ, suc, ltb, ◌≡◌, refl, true, false, none, some, List, [], ◌∷◌, String, string_eq, ◌==◌, arith,
  ◌||◌, All, ◌⊎◌, inl, inr, Bool-cases, Bool, Option, if◌then◌else◌, ◌∙◌,
}
use flannel_network_plugin.Prelude.Dict.{lookup, is_some}
use flannel_network_plugin.Common.Service.{Service}
use flannel_network_plugin.ServiceLb.Management.{
  Parts, World, Network, ServiceRef, missing, has_missing_networks, set_flannel_network,
  register_other_network, delete_network,
}
use flannel_network_plugin.ServiceLb.Management.Creation.{create_or_update_from, create_or_update}

-- The calls that change which networks are known.
pub data NetworkCall : Type 0 where
  sets_flannel : String → Network → NetworkCall
  registers_other : String → NetworkCall
  deletes : String → NetworkCall

module _ (parts : Parts) where
  open parts use {texts}

  unfoldable pub act : NetworkCall → World parts → World parts
  unfolding set_flannel_network register_other_network delete_network
  act (sets_flannel id network) w = (set_flannel_network parts id network w).1
  act (registers_other id) w = register_other_network parts id w
  act (deletes id) w = (delete_network parts id w).1

  -- A call that succeeds broadcasts, and one that fails changes nothing.
  act_lem :
      (call : NetworkCall) (w : World parts)
      → (act call w ≡ w) ⊎ ((act call w).broadcasts ≡ suc w.broadcasts)
  unfolding act set_flannel_network register_other_network delete_network
  act_lem (sets_flannel id network) w = elim (Bool-cases (id == "")) [
    | inl empty ↦ inl (rw (empty, act, set_flannel_network) refl)
    | inr named ↦ inr (rw (named, act, set_flannel_network) refl)
  ]
  act_lem (registers_other id) w = inr (refl)
  act_lem (deletes id) w = elim (Bool-cases (id == "")) [
    | inl empty ↦ inl (rw (empty, act, delete_network) refl)
    | inr named ↦ inr (rw (named, act, delete_network) refl)
  ]

  -- All the calls, one after the other.
  abbrev pub run_all : List NetworkCall → World parts → World parts
  run_all [] w = w
  run_all (call ∷ calls) w = run_all calls (act call w)

  -- The turns of others in which no call falls between a look and the `Wait` that follows it.
  abbrev pub spaced : List NetworkCall → List (World parts → World parts)
  spaced [] = []
  spaced (call ∷ calls) = (λ w. w) ∷ act call ∷ spaced calls

  -- Each network of a list is known, as a flannel network or another one.
  abbrev pub AllKnown : List String → World parts → Type 0
  AllKnown [] w = Unit
  AllKnown (id ∷ ids) w =
      ((is_some (lookup id w.flannel_networks) || is_some (lookup id w.other_networks)) ≡ true)
      × AllKnown ids w

  missing_lem : (ids : List String) (w : World parts) → AllKnown ids w → missing parts ids w ≡ false
  unfolding missing
  missing_lem [] w known = refl
  missing_lem (id ∷ ids) w known = ground (arith, known, missing_lem ids w known.1)

  either :
      {A : Type 0} (b : Bool) (x y : Option A)
      → (b ≡ true → is_some x ≡ true)
      → (b ≡ false → is_some y ≡ true)
      → is_some (if b then x else y) ≡ true
  either true x y h k = h refl
  either false x y h k = k refl

  module _ (info : Service texts.Ip) (ref : ServiceRef) where
    abbrev looking : List NetworkCall → World parts → Option (Option (Unit {0}) × World parts)
    looking calls w = create_or_update_from parts info ref none (spaced calls) w

    abbrev waiting :
        List (World parts → World parts) → World parts → Option (Option (Unit {0}) × World parts)
    waiting turns w = create_or_update_from parts info ref (some w.broadcasts) turns w

    -- A turn with a call, while the goroutine waits: it looks again, or nothing has changed.
    turn :
        (call : NetworkCall) (calls : List NetworkCall) (w : World parts)
        → is_some (looking calls (act call w)) ≡ true
        → (act call w ≡ w → is_some (waiting (spaced calls) w) ≡ true)
        → is_some (waiting (act call ∷ spaced calls) w) ≡ true
    unfolding create_or_update_from
    turn call calls w woken asleep =
        either (ltb w.broadcasts (act call w).broadcasts) (looking calls (act call w))
          (create_or_update_from parts info ref (some w.broadcasts) (spaced calls) (act call w))
          (λ _. woken)
          (λ quiet. elim (act_lem call w) [
            | inl same ↦ rw (same) (asleep same)
            | inr broadcast ↦ ground (arith, quiet, broadcast)
          ])

    -- A goroutine that waits is there for the next calls.
    idle :
        (call : NetworkCall) (calls : List NetworkCall) (w : World parts)
        → is_some (waiting (act call ∷ spaced calls) w) ≡ true
        → is_some (waiting (spaced (call ∷ calls)) w) ≡ true
    unfolding create_or_update_from
    idle call calls w h =
        either (ltb w.broadcasts w.broadcasts)
          (create_or_update_from parts info ref none (act call ∷ spaced calls) w)
          (waiting (act call ∷ spaced calls) w) (λ never. ground (arith, never)) (λ _. h)

    -- A goroutine that has missed nothing ends, whether it looks or waits.
    ends :
        (calls : List NetworkCall) (w : World parts)
        → has_missing_networks parts ref (run_all calls w) ≡ false
        → (is_some (looking calls w) ≡ true)
          × (has_missing_networks parts ref w ≡ true → is_some (waiting (spaced calls) w) ≡ true)
    unfolding create_or_update_from
    ends [] w known = (rw (known) refl, λ missing. cc)
    ends (call ∷ calls) w known = (
      either (has_missing_networks parts ref w) (waiting (act call ∷ spaced calls) w) _
          (after_call (ends calls (act call w) known)) (λ _. refl),
      λ missing. idle call calls w (after_call (ends calls (act call w) known) missing),
    )
      where
        Asleep : World parts → Type 0
        Asleep v =
            has_missing_networks parts ref v ≡ true → is_some (waiting (spaced calls) v) ≡ true

        after_call :
            (is_some (looking calls (act call w)) ≡ true) × Asleep (act call w)
            → has_missing_networks parts ref w ≡ true
            → is_some (waiting (act call ∷ spaced calls) w) ≡ true
        after_call later missing =
            turn call calls w later.0 (λ same. subst Asleep same later.1 missing)

    -- A goroutine that waits goes on to do so while no one broadcasts.
    sleeps :
        (n : ℕ) (turns : List (World parts → World parts)) (w : World parts)
        → w.broadcasts ≡ n
        → All (λ others. (v : World parts) → (others v).broadcasts ≡ v.broadcasts) turns
        → create_or_update_from parts info ref (some n) turns w ≡ none
    unfolding create_or_update_from
    sleeps n [] w count quiet = refl
    sleeps n (others ∷ turns) w count quiet =
        let unseen : ltb n (others w).broadcasts ≡ false = ground (arith, quiet.0 w, count) in
        rw (unseen) (sleeps n turns (others w) (quiet.0 w ∙ count) quiet.1)

  -- The waiting ends: if no call of others falls between a look for missing networks and the `Wait`
  -- that follows it, and all networks of the service are known once the calls have been made, the
  -- update has a result, an error or not.
  pub create_or_update_lem :
      (ref : ServiceRef) (calls : List NetworkCall) (w : World parts)
      → AllKnown ((run_all calls w).objects ref).networks (run_all calls w)
      → is_some (create_or_update parts ref (spaced calls) w) ≡ true
  unfolding create_or_update has_missing_networks
  create_or_update_lem ref calls w known =
      (ends (w.objects ref) ref calls w
        (missing_lem ((run_all calls w).objects ref).networks (run_all calls w) known)).0

  -- A wake-up is lost: where a network is missing, a call between the look and the `Wait` wakes no
  -- one, even if it makes the last network known, and there is no result as long as no one
  -- broadcasts again.
  pub create_or_update-act :
      (ref : ServiceRef) (call : NetworkCall) (turns : List (World parts → World parts))
      (w : World parts)
      → has_missing_networks parts ref w ≡ true
      → All (λ others. (v : World parts) → (others v).broadcasts ≡ v.broadcasts) turns
      → create_or_update parts ref (act call ∷ turns) w ≡ none
  unfolding create_or_update create_or_update_from
  create_or_update-act ref call turns w missing quiet =
      rw (missing)
        (sleeps (w.objects ref) ref (act call w).broadcasts turns (act call w) refl quiet)
