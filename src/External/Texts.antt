-- ===== src/External/Texts.antt =====
-- The text functions of Go's packages strings, net and time. Those of strings that the program uses
-- are written out, at the separator '/'; the texts of addresses and times are an interface.
pub mod Laws
use Prim.Native.Nat.{Ordering}
use Prim.Native.Char.{Char, code}
use Prim.Native.String
use Prim.Native.String.{◌++◌ as append, len, slice}
use text.Mathlib.Text.{starts_with}
use flannel_network_plugin.Prelude.{
  ℕ, Bool, true, false, ◌||◌, ◌≡◌, Option, none, some, List, [], ◌∷◌, String, nat_beq,
  if◌then◌else◌,
}

infixr 65 ◌+++◌
abbrev pub ◌+++◌ : String → String → String
s +++ t = append s t

abbrev slash : ℕ
slash = b'/'

-- `strings.TrimPrefix(s, prefix)`
unfoldable pub trim_prefix : String → String → String
trim_prefix s prefix = if starts_with s prefix then slice s (len prefix) (len s) else s

-- `strings.TrimLeft(s, "/")`
unfoldable pub trim_left : String → String
trim_left String.[] = ""
trim_left (String.◌∷◌ c s) =
    let rest = trim_left s in if nat_beq (code c) slash then rest else String.◌∷◌ c s

-- `strings.Contains(s, "/")`
unfoldable pub has_slash : String → Bool
has_slash String.[] = false
has_slash (String.◌∷◌ c s) = nat_beq (code c) slash || has_slash s

abbrev push_char : Char → List String → List String
push_char c [] = String.◌∷◌ c "" ∷ []
push_char c (w ∷ ws) = String.◌∷◌ c w ∷ ws

-- `strings.Split(s, "/")`
unfoldable pub split : String → List String
split String.[] = "" ∷ []
split (String.◌∷◌ c s) = if nat_beq (code c) slash then "" ∷ split s else push_char c (split s)

-- `strings.Join(parts, "/")`
unfoldable pub join : List String → String
join [] = ""
join (p ∷ []) = p
join (p ∷ q ∷ ps) = p +++ "/" +++ join (q ∷ ps)

-- `strings.ReplaceAll(s, old, new)` for single bytes `old` and `new`.
unfoldable pub replace_all : ℕ → Char → String → String
replace_all old new String.[] = ""
replace_all old new (String.◌∷◌ c s) =
    String.◌∷◌ (if nat_beq (code c) old then new else c) (replace_all old new s)

-- `IP.String`, `net.ParseIP`, and `Format` and `Parse` of RFC 3339 times. Two values of `Ip` are
-- equal where `IP.Equal` says so. A time is a number of nanoseconds.
pub record Texts : Type 1 where
  pub Ip : Type 0
  pub print_ip : Ip → String
  pub parse_ip : String → Option Ip
  pub parse-print : (ip : Ip) → parse_ip (print_ip ip) ≡ some ip
  pub print_time : ℕ → String
  pub parse_time : String → Option ℕ
  -- `IP.To4`: the four bytes of an IPv4 address, `none` for any other.
  pub to4 : Ip → Option (ℕ × ℕ × ℕ × ℕ)

-- `strings.Split(s, ".")`, `strings.Join(parts, ".")` and `strings.TrimSuffix(s, ".")`.
unfoldable pub split_dots : String → List String
split_dots String.[] = "" ∷ []
split_dots (String.◌∷◌ c s) =
    if nat_beq (code c) b'.' then "" ∷ split_dots s else push_char c (split_dots s)

unfoldable pub join_dots : List String → String
join_dots [] = ""
join_dots (p ∷ []) = p
join_dots (p ∷ q ∷ ps) = p +++ "." +++ join_dots (q ∷ ps)

unless_dot : Char → String → String → String
unless_dot c String.[] rest = if nat_beq (code c) b'.' then "" else String.◌∷◌ c ""
unless_dot c (String.◌∷◌ d s) rest = String.◌∷◌ c rest

unfoldable pub trim_suffix_dot : String → String
unfolding unless_dot
trim_suffix_dot String.[] = ""
trim_suffix_dot (String.◌∷◌ c s) = unless_dot c s (trim_suffix_dot s)

-- Go's `<` on texts.
abbrev pub text_less : String → String → Bool
text_less s t = elim (Prim.Native.String.compare s t) [ Ordering.lt ↦ true | _ ↦ false ]
