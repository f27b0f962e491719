-- ===== src/Common/InitManager/Once.antt =====
-- How often the initialization of plugin/pkg/common/init_manager.go runs.
use flannel_network_plugin.Prelude.{
  ◌≡◌, refl, sym, ap, ◌∙◌, true, false, Option, some, [], ◌∷◌, if◌then◌else◌, arith, length, inl,
  inr, Bool-cases,
}
use mathlib.Core.Path.{subst}
use flannel_network_plugin.Common.InitManager.{
  InitManager, new_init_manager, init, finish, wait, cancel, Step, inits, finishes, cancels, Steps,
  no_step, one_more,
}

module _ {Data Error : Type 0} where
  -- Before the first call nothing has begun; after it one run has, and it goes on or is over.
  record IsOnce (m : InitManager Data Error) : Type 0 where
    pub not_begun : m.once ≡ false → (m.started ≡ []) × (m.running ≡ false) × (m.done ≡ false)
    pub begun : m.once ≡ true → length m.started ≡ 1
    pub over : m.done ≡ true → m.running ≡ false

  new-IsOnce : IsOnce new_init_manager
  unfolding new_init_manager
  new-IsOnce = record {
    not_begun = λ h. (refl, refl, refl);
    begun = λ h. ground (arith, h);
    over = λ h. refl;
  }

  init_again : (d : Data) (m : InitManager Data Error) → m.once ≡ true → init d m ≡ m
  unfolding init
  init_again d m h =
      ap (λ b. if b then m else record m { once = true; running = true; started = d ∷ m.started }) h

  init_first :
      (d : Data) (m : InitManager Data Error)
      → m.once ≡ false
      → init d m ≡ record m { once = true; running = true; started = d ∷ m.started }
  unfolding init
  init_first d m h =
      ap (λ b. if b then m else record m { once = true; running = true; started = d ∷ m.started }) h

  cancel_begun :
      (m : InitManager Data Error) → m.once ≡ true → cancel m ≡ record m { cancelled = true }
  unfolding cancel
  cancel_begun m h = ap (λ b. if b then record m { cancelled = true } else m) h

  cancel_too_early : (m : InitManager Data Error) → m.once ≡ false → cancel m ≡ m
  unfolding cancel
  cancel_too_early m h = ap (λ b. if b then record m { cancelled = true } else m) h

  -- A run that is over has begun.
  done-once : (m : InitManager Data Error) → IsOnce m → m.done ≡ true → m.once ≡ true
  done-once m h finished = elim (Bool-cases m.once) [
    | inl yep ↦ yep
    | inr nope ↦ ground (arith, finished, h.not_begun nope)
  ]

  Step-IsOnce : {m m' : InitManager Data Error} → Step m m' → IsOnce m → IsOnce m'
  unfolding init finish cancel
  Step-IsOnce (inits d m) h = elim (Bool-cases m.once) [
    | inl yep ↦ subst IsOnce (sym (init_again d m yep)) h
    | inr nope ↦ subst IsOnce (sym (init_first d m nope)) (record {
      not_begun = λ absurd_once. ground (arith, absurd_once);
      begun = λ _. ground (arith, h.not_begun nope);
      over = λ finished. ground (arith, finished, h.not_begun nope);
    })
  ]
  Step-IsOnce (finishes e m runs) h = record {
    not_begun = λ before. ground (arith, runs, h.not_begun before);
    begun = h.begun;
    over = λ _. refl;
  }
  Step-IsOnce (cancels m) h = elim (Bool-cases m.once) [
    | inl yep ↦ subst IsOnce (sym (cancel_begun m yep)) (record {
      not_begun = λ before. ground (arith, before, yep);
      begun = λ _. h.begun yep;
      over = h.over;
    })
    | inr nope ↦ subst IsOnce (sym (cancel_too_early m nope)) h
  ]

  Steps-IsOnce : {m m' : InitManager Data Error} → Steps m m' → IsOnce m → IsOnce m'
  Steps-IsOnce (no_step m) h = h
  Steps-IsOnce (one_more m m1 m2 before last) h = Step-IsOnce last (Steps-IsOnce before h)

  -- What is over stays over, with its error.
  abbrev Over : Option Error → InitManager Data Error → Type 0
  Over e m = IsOnce m × (m.done ≡ true) × (m.error ≡ e)

  Step-Over : {m m' : InitManager Data Error} (e : Option Error) → Step m m' → Over e m → Over e m'
  unfolding init finish cancel
  Step-Over e (inits d m) (h, finished, same) =
      subst (Over e) (sym (init_again d m (done-once m h finished))) (h, finished, same)
  Step-Over e (finishes e' m runs) (h, finished, same) = ground (arith, runs, h.over finished)
  Step-Over e (cancels m) (h, finished, same) =
      let kept = Step-IsOnce (cancels m) h in
      let begun = cancel_begun m (done-once m h finished) in
      (kept, ap InitManager.done begun ∙ finished, ap InitManager.error begun ∙ same)

  Steps-Over :
      {m m' : InitManager Data Error} (e : Option Error) → Steps m m' → Over e m → Over e m'
  Steps-Over e (no_step m) h = h
  Steps-Over e (one_more m m1 m2 before last) h = Step-Over e last (Steps-Over e before h)

  -- Whatever is called on a new manager, in any order: once `Wait` returns, the initialization has
  -- run exactly once, and it returns the same after whatever is called later.
  pub wait-Steps :
      (m m' : InitManager Data Error) (r : Option Error)
      → Steps new_init_manager m
      → wait m ≡ some r
      → Steps m m'
      → (wait m' ≡ some r) × (length m'.started ≡ 1)
  unfolding wait
  wait-Steps m m' r before returned later =
      let once = Steps-IsOnce before new-IsOnce in
      let (h, finished, same) =
        Steps-Over r later (once, ground (arith, returned), ground (arith, returned)) in
      (ground (arith, finished, same), h.begun (done-once m' h finished))
