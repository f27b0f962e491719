-- ===== src/Examples/Store.antt =====
-- A store that is brought in line with etcd.
use flannel_network_plugin.Prelude.{ℕ, ◌≡◌, refl, [], ◌∷◌, String, string_eq, nat_eq}
use flannel_network_plugin.Prelude.Dict.{Dict, lookup, IsDict}
use flannel_network_plugin.Examples.{slices}
use flannel_network_plugin.Etcd.Store.{StoreBase, sync_to_internal_state}
use flannel_network_plugin.Etcd.Store.Follow.{follow, lookup-follow}

-- One item is removed, one changes, one is added.
abbrev before : StoreBase ℕ
before = record { items = ("old", 1) ∷ ("both", 2) ∷ [] }

abbrev truth : Dict String ℕ
truth = ("both", 3) ∷ ("new", 4) ∷ []

truth-IsDict : IsDict truth
unfolding lookup
truth-IsDict = (refl, (refl, tt))

lookup-follow_example :
    lookup "both" (follow (sync_to_internal_state nat_eq.beq 0 slices truth before).0 before.items)
    ≡ lookup "both" truth
lookup-follow_example =
    lookup-follow 0 slices before truth before.items truth-IsDict (λ j. refl) "both"
