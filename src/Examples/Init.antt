-- ===== src/Examples/Init.antt =====
-- One initialization, asked for twice, that fails with an error.
use flannel_network_plugin.Prelude.{ℕ, ◌≡◌, refl, true, some, String, length}
use flannel_network_plugin.Common.InitManager.{
  InitManager, new_init_manager, init, finish, cancel, wait, inits, finishes, cancels, Steps,
  no_step, one_more,
}
use flannel_network_plugin.Common.InitManager.Once.{wait-Steps}

abbrev begun : InitManager ℕ String
begun = init 5 new_init_manager

abbrev ended : InitManager ℕ String
ended = finish (some "no network") begun

begun_runs : begun.running ≡ true
unfolding init new_init_manager
begun_runs = refl

to_the_end : Steps new_init_manager ended
to_the_end =
    one_more new_init_manager begun ended
      (one_more new_init_manager new_init_manager begun (no_step new_init_manager)
        (inits 5 new_init_manager))
      (finishes (some "no network") begun begun_runs)

once_more : Steps ended (cancel (init 6 ended))
once_more =
    one_more ended (init 6 ended) (cancel (init 6 ended))
      (one_more ended ended (init 6 ended) (no_step ended) (inits 6 ended)) (cancels (init 6 ended))

returned : wait ended ≡ some (some "no network")
unfolding wait finish
returned = refl

wait-Steps_example :
    (wait (cancel (init 6 ended)) ≡ some (some "no network"))
    × (length (cancel (init 6 ended)).started ≡ 1)
wait-Steps_example =
    wait-Steps ended (cancel (init 6 ended)) (some "no network") to_the_end returned once_more
