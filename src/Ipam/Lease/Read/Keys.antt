-- ===== src/Ipam/Lease/Read/Keys.antt =====
-- How the reader takes the keys of an address apart.
use Prim.Native.Char.{Char}
use mathlib.Core.Bool.{false≢true}
use text.Mathlib.TextLemmas.{nil-append, cons-append}
use flannel_network_plugin.Prelude.{
  ◌≡◌, refl, sym, ap, ◌∙◌, ◌==◌, string_eq, true, false, ◌||◌, String, [], ◌∷◌, arith,
}
use flannel_network_plugin.External.Texts.{◌+++◌, trim_left, has_slash, split}

abbrev slash_char : Char
slash_char = "/"

-- A text without slashes keeps all its characters.
pub trim_left_clean : (s : String) → has_slash s ≡ false → trim_left s ≡ s
unfolding trim_left has_slash
trim_left_clean String.[] h = refl
trim_left_clean (String.◌∷◌ c s) h = ground arith

pub split_clean : (s : String) → has_slash s ≡ false → split s ≡ s ∷ []
unfolding split has_slash
split_clean String.[] h = refl
split_clean (String.◌∷◌ c s) h = ground (arith, split_clean s)

pub has_slash-append : (s t : String) → has_slash (s +++ t) ≡ (has_slash s || has_slash t)
unfolding has_slash
has_slash-append String.[] t = rw (nil-append t)
has_slash-append (String.◌∷◌ c s) t = rw (cons-append c s t) (ground (arith, has_slash-append s t))

slash-append : (t : String) → "/" +++ t ≡ String.◌∷◌ slash_char t
slash-append t = cons-append slash_char "" t ∙ ap (String.◌∷◌ slash_char) (nil-append t)

pub trim_left-slash : (t : String) → trim_left ("/" +++ t) ≡ trim_left t
unfolding trim_left
trim_left-slash t = rw (slash-append t)

pub trim_left-append :
    (s t : String) → has_slash s ≡ false → (s == "") ≡ false → trim_left (s +++ t) ≡ s +++ t
unfolding trim_left has_slash
trim_left-append String.[] t h ne = absurd (false≢true (sym ne))
trim_left-append (String.◌∷◌ c s) t h ne = rw (cons-append c s t) (ground arith)

pub split-append : (s t : String) → has_slash s ≡ false → split (s +++ "/" +++ t) ≡ s ∷ split t
unfolding split has_slash
split-append String.[] t h = rw (nil-append ("/" +++ t), slash-append t)
split-append (String.◌∷◌ c s) t h =
    rw (cons-append c s ("/" +++ t)) (ground (arith, split-append s t))

has_slash-slash : (t : String) → has_slash ("/" +++ t) ≡ true
unfolding has_slash
has_slash-slash t = rw (slash-append t)

pub has_slash_joined : (s t : String) → has_slash (s +++ "/" +++ t) ≡ true
has_slash_joined s t = ground (arith, has_slash-append s ("/" +++ t), has_slash-slash t)
