-- ===== src/External/Lo.antt =====
-- github.com/samber/lo: the slice helpers that the program calls.
use flannel_network_plugin.Prelude.{
  Bool, not, ◌&&◌, ◌≡◌, List, [], ◌∷◌, String, string_eq, contains, if◌then◌else◌,
}

pub record Lo : Type 1 where
  -- `lo.Filter`: the elements that pass the test, in order.
  pub filter : (A : Type 0) → (A → Bool) → List A → List A
  pub filter_nil : (A : Type 0) (p : A → Bool) → filter A p [] ≡ []
  pub filter_cons :
      (A : Type 0) (p : A → Bool) (x : A) (xs : List A)
      → filter A p (x ∷ xs) ≡ (if p x then x ∷ filter A p xs else filter A p xs)
  -- `lo.Difference`: the elements of each list that the other does not have.
  pub difference : List String → List String → List String × List String
  pub difference_left :
      (x : String) (l r : List String)
      → contains x (difference l r).0 ≡ (contains x l && not (contains x r))
  pub difference_right :
      (x : String) (l r : List String)
      → contains x (difference l r).1 ≡ (contains x r && not (contains x l))
  -- `lo.Some`: whether one element of the second list stands in the first.
  pub some : List String → List String → Bool
  pub some_one : (x : String) (l : List String) → some l (x ∷ []) ≡ contains x l
