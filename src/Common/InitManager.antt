-- ===== src/Common/InitManager.antt =====
-- plugin/pkg/common/init_manager.go: an initialization in the background. `started` is a record of
-- the runs that have begun, which the code does not keep.
pub mod Once
use flannel_network_plugin.Prelude.{
  ◌≡◌, Bool, true, false, Option, none, some, List, [], ◌∷◌, if◌then◌else◌,
}

pub record InitManager (Data Error : Type 0) : Type 0 where
  -- `sync.Once`, and with it the context
  pub once : Bool
  pub cancelled : Bool
  pub running : Bool
  -- whether the channel `done` is closed
  pub done : Bool
  pub error : Option Error
  pub started : List Data

module _ {Data Error : Type 0} where
  -- `NewInitManager`
  unfoldable pub new_init_manager : InitManager Data Error
  new_init_manager = record {
    once = false;
    cancelled = false;
    running = false;
    done = false;
    error = none;
    started = [];
  }

  -- `Init`
  unfoldable pub init : Data → InitManager Data Error → InitManager Data Error
  init d m = if m.once then m else record m { once = true; running = true; started = d ∷ m.started }

  -- The end of the goroutine, with the error that the function has returned.
  unfoldable pub finish : Option Error → InitManager Data Error → InitManager Data Error
  finish e m = record m { running = false; done = true; error = e }

  unfoldable pub is_done : InitManager Data Error → Bool
  is_done m = m.done

  -- What `Wait` returns, `none` while it blocks.
  unfoldable pub wait : InitManager Data Error → Option (Option Error)
  wait m = if m.done then some m.error else none

  -- `Cancel`: without a context nothing is cancelled.
  unfoldable pub cancel : InitManager Data Error → InitManager Data Error
  cancel m = if m.once then record m { cancelled = true } else m

  -- What may happen: a call, or the end of the function that runs.
  pub data Step : InitManager Data Error → InitManager Data Error → Type 0 where
    inits : (d : Data) (m : InitManager Data Error) → Step m (init d m)
    finishes :
        (e : Option Error) (m : InitManager Data Error) → m.running ≡ true → Step m (finish e m)
    cancels : (m : InitManager Data Error) → Step m (cancel m)

  -- Any number of steps.
  pub data Steps : InitManager Data Error → InitManager Data Error → Type 0 where
    no_step : (m : InitManager Data Error) → Steps m m
    one_more : (m m1 m2 : InitManager Data Error) → Steps m m1 → Step m1 m2 → Steps m m2
