-- ===== src/Etcd/Client.antt =====
-- plugin/pkg/etcd/client.go: the keys of a client and of its sub-clients.
use Prim.Native.Char.{Char, code}
use flannel_network_plugin.Prelude.{List, [], ◌∷◌, String, nat_beq, if◌then◌else◌}
use flannel_network_plugin.External.Texts.{◌+++◌, join}

pub record Client : Type 0 where
  pub prefix : String

keep_char : Char → String → String
keep_char c String.[] = if nat_beq (code c) b'/' then "" else String.◌∷◌ c ""
keep_char c (String.◌∷◌ d s) = String.◌∷◌ c (String.◌∷◌ d s)

-- `strings.TrimRight(s, "/")`
unfoldable pub trim_right : String → String
unfolding keep_char
trim_right String.[] = ""
trim_right (String.◌∷◌ c s) = keep_char c (trim_right s)

-- The endpoints and the dial timeout are the connection's, and are left out.
unfoldable pub new_etcd_client : String → Client
unfolding trim_right
new_etcd_client prefix = record { prefix = trim_right prefix }

unfoldable pub get_key : Client → List String → String
unfolding join
get_key c [] = c.prefix
get_key c (k ∷ ks) = c.prefix +++ "/" +++ join (k ∷ ks)

unfoldable pub create_sub_client : Client → List String → Client
unfolding new_etcd_client get_key
create_sub_client c sub_keys = new_etcd_client (get_key c sub_keys)
