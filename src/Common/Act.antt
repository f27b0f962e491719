-- ===== src/Common/Act.antt =====
-- Calls in sequence, each of which may fail: an error keeps what was done before it.
use flannel_network_plugin.Prelude.{◌≡◌, Option, none, some, List, [], ◌∷◌}

-- A call on a state: its result, `none` for an error, and the state as it leaves it.
abbrev pub Act : Type 0 → Type 0 → Type 0
Act S A = S → Option A × S

abbrev next : {S A B : Type 0} → (A → Act S B) → Option A × S → Option B × S
next f (none, s) = (none, s)
next f (some a, s) = f a s

infixl 5 ◌>>=◌ ◌>>◌
abbrev pub ◌>>=◌ : {S A B : Type 0} → Act S A → (A → Act S B) → Act S B
◌>>=◌ m f s = next f (m s)

abbrev pub ◌>>◌ : {S A B : Type 0} → Act S A → Act S B → Act S B
m >> k = m >>= λ _. k

abbrev pub pure : {S A : Type 0} → A → Act S A
pure a s = (some a, s)

abbrev pub fail : {S A : Type 0} → Act S A
fail s = (none, s)

-- A loop over a list.
unfoldable pub for_each : {S A : Type 0} → (A → Act S (Unit {0})) → List A → Act S (Unit {0})
for_each f [] = pure tt
for_each f (x ∷ xs) = f x >> for_each f xs

-- What a call leaves alone, whether it fails or not.
abbrev pub Keeps : {S A : Type 0} → (S → Type 0) → Act S A → Type 0
Keeps {S} P m = (s : S) → P s → P (m s).1

pub >>=-Keeps :
    {S A B : Type 0} (P : S → Type 0) (m : Act S A) (f : A → Act S B)
    → Keeps P m
    → ((a : A) → Keeps P (f a))
    → Keeps P (m >>= f)
>>=-Keeps {S} {A} {B} P m f keeps then_keeps s h = go (m s) (keeps s h)
  where
    go : (r : Option A × S) → P r.1 → P (next f r).1
    go (none, s1) h1 = h1
    go (some a, s1) h1 = then_keeps a s1 h1

pub for_each-Keeps :
    {S A : Type 0} (P : S → Type 0) (f : A → Act S (Unit {0})) (xs : List A)
    → ((a : A) → Keeps P (f a))
    → Keeps P (for_each f xs)
unfolding for_each
for_each-Keeps P f [] keeps s h = h
for_each-Keeps P f (x ∷ xs) keeps s h =
    >>=-Keeps P (f x) (λ _. for_each f xs) (keeps x) (λ _. for_each-Keeps P f xs keeps) s h

-- What holds of the result and the state after a call that succeeds.
abbrev pub Outcome : {S A : Type 0} → (A → S → Type 0) → Option A × S → Type 0
Outcome Q (none, s) = Unit
Outcome Q (some a, s) = Q a s

abbrev pub Ensures : {S A : Type 0} → (S → Type 0) → Act S A → (A → S → Type 0) → Type 0
Ensures {S} P m Q = (s : S) → P s → Outcome Q (m s)

pub >>=-Ensures :
    {S A B : Type 0} (P : S → Type 0) (Q : A → S → Type 0) (R : B → S → Type 0) (m : Act S A)
    (f : A → Act S B)
    → Ensures P m Q
    → ((a : A) → Ensures (Q a) (f a) R)
    → Ensures P (m >>= f) R
>>=-Ensures {S} {A} {B} P Q R m f first then_second s h = go (m s) (first s h)
  where
    go : (r : Option A × S) → Outcome Q r → Outcome R (next f r)
    go (none, s1) h1 = tt
    go (some a, s1) h1 = then_second a s1 h1

pub both-Ensures :
    {S A : Type 0} (P P' : S → Type 0) (Q Q' : A → S → Type 0) (m : Act S A)
    → Ensures P m Q
    → Ensures P' m Q'
    → Ensures (λ s. P s × P' s) m (λ a s. Q a s × Q' a s)
both-Ensures {S} {A} P P' Q Q' m first second s h = go (m s) (first s h.0) (second s h.1)
  where
    go : (r : Option A × S) → Outcome Q r → Outcome Q' r → Outcome (λ a s. Q a s × Q' a s) r
    go (none, s1) q q' = tt
    go (some a, s1) q q' = (q, q')

pub any : {S A : Type 0} (r : Option A × S) → Outcome (λ _ _. Unit {0}) r
any (none, s) = tt
any (some a, s) = tt

pub on_success :
    {S A : Type 0} (Q : A → S → Type 0) (r : Option A × S) {a : A}
    → r.0 ≡ some a
    → Outcome Q r
    → Q a r.1
on_success Q (none, s) e h = cc
on_success Q (some b, s) {a} e h = rw (same) h
  where
    same : a ≡ b
    same = cc

pub Outcome-map :
    {S A : Type 0} (Q R : A → S → Type 0) (r : Option A × S)
    → ((a : A) (s : S) → Q a s → R a s)
    → Outcome Q r
    → Outcome R r
Outcome-map Q R (none, s) f h = tt
Outcome-map Q R (some a, s) f h = f a s h
