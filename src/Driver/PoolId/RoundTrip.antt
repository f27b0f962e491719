-- ===== src/Driver/PoolId/RoundTrip.antt =====
-- The identifiers of pools in plugin/pkg/driver/ipam.go, there and back.
use Prim.Native.Char.{Char, code}
use text.Mathlib.TextEquality.{Char-path}
use text.Mathlib.TextLemmas.{nil-append, cons-append}
use flannel_network_plugin.Prelude.{
  not, ◌&&◌, arith, nat_beq_iff, ◌≡◌, refl, Bool, true, false, List, [], ◌∷◌, String, nat_beq, inl,
  inr, Bool-cases, ap, ◌∙◌, sym, string_eq,
}
use flannel_network_plugin.External.Texts.{◌+++◌}
use flannel_network_plugin.Driver.PoolId.{
  push_to_first, split_dashes, join_dashes, rest_of, pool_id_to_network_id, pool_prefix,
}

-- A list that is joined again, with one more character before its first part.
join-push_to_first :
    (c : Char) (p : String) (ps : List String)
    → join_dashes (push_to_first c (p ∷ ps)) ≡ String.◌∷◌ c (join_dashes (p ∷ ps))
unfolding join_dashes push_to_first
join-push_to_first c p [] = refl
join-push_to_first c p (q ∷ ps) = cons-append c p ("-" +++ join_dashes (q ∷ ps))

abbrev dash_char : Char
dash_char = "-"

dash-append : (s : String) → "-" +++ s ≡ String.◌∷◌ dash_char s
dash-append s = cons-append dash_char "" s ∙ ap (String.◌∷◌ dash_char) (nil-append s)

join-dash :
    (p : String) (ps : List String) → join_dashes ("" ∷ p ∷ ps) ≡ "-" +++ join_dashes (p ∷ ps)
unfolding join_dashes
join-dash p ps = nil-append ("-" +++ join_dashes (p ∷ ps))

-- The parts of a text are at least one, and joined they are the text.
split_dashes_lem :
    (s : String)
    → (p : String) × (ps : List String) × (split_dashes s ≡ p ∷ ps) × (join_dashes (p ∷ ps) ≡ s)
unfolding split_dashes push_to_first join_dashes
split_dashes_lem String.[] = ("", [], refl, refl)
split_dashes_lem (String.◌∷◌ c s) =
    let (p, ps, parts, joined) = split_dashes_lem s in
    elim (Bool-cases (nat_beq (code c) b'-')) [
      | inl dash ↦ (
        "",
        p ∷ ps,
        rw (dash) (ap (λ l. "" ∷ l) parts),
        join-dash p ps
            ∙ ap (λ t. "-" +++ t) joined
            ∙ dash-append s
            ∙ ap (λ d. String.◌∷◌ d s)
                (Char-path dash_char c (sym ((nat_beq_iff (code c) b'-').0 dash))),
      )
      | inr other ↦ (
        String.◌∷◌ c p,
        ps,
        rw (other) (ap (push_to_first c) parts),
        join-push_to_first c p ps ∙ ap (String.◌∷◌ c) joined,
      )
    ]

no_dash : String → Bool
no_dash String.[] = true
no_dash (String.◌∷◌ c s) = not (nat_beq (code c) b'-') && no_dash s

-- A first part without a dash.
split-dash : (p s : String) → no_dash p ≡ true → split_dashes (p +++ "-" +++ s) ≡ p ∷ split_dashes s
unfolding split_dashes no_dash push_to_first
split-dash String.[] s clean = ap split_dashes (nil-append ("-" +++ s) ∙ dash-append s)
split-dash (String.◌∷◌ c p) s clean =
    ap split_dashes (cons-append c p ("-" +++ s))
    ∙ rw (character) (ap (push_to_first c) (split-dash p s others))
  where
    character : nat_beq (code c) b'-' ≡ false
    character = ground (arith, clean)

    others : no_dash p ≡ true
    others = ground (arith, clean)

-- The network's identifier comes back from the pool's, with all its dashes.
pub pool_id_to_network_id_lem :
    (network_id : String) → pool_id_to_network_id (pool_prefix +++ "-" +++ network_id) ≡ network_id
unfolding pool_id_to_network_id no_dash
pool_id_to_network_id_lem network_id =
    let (p, ps, parts, joined) = split_dashes_lem network_id in
    ap (λ l. join_dashes (rest_of l)) (split-dash pool_prefix network_id refl)
    ∙ ap join_dashes parts
    ∙ joined
