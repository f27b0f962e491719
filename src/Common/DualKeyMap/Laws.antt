-- ===== src/Common/DualKeyMap/Laws.antt =====
-- What the two-key map promises.
use flannel_network_plugin.Prelude.{◌≡◌, true, false, none, Eq, ◌==◌, ==_refl, ◌⊎◌, arith}
use flannel_network_plugin.Prelude.Dict.{lookup, lookup-insert, lookup-remove}
use flannel_network_plugin.Common.DualKeyMap.{DualKeyMap, KeysOf, found, missing, set, get, delete}

module _ {ℓ} {T K1 K2 V : Type ℓ} ⦃e1 : Eq K1⦄ ⦃e2 : Eq K2⦄ ⦃ev : Eq V⦄ (of : KeysOf T K1 K2) where
  -- No value is stored under a key that is not known.
  pub record IsKeyed (d : DualKeyMap K1 K2 V) : Type ℓ where
    pub no_zero1 : lookup of.zero_key1 d.m1 ≡ none
    pub no_zero2 : lookup of.zero_key2 d.m2 ≡ none

  pub set-IsKeyed :
      (key : T) (v : V) (d : DualKeyMap K1 K2 V) → IsKeyed d → IsKeyed (set of key v d)
  unfolding set
  set-IsKeyed key v d h = record {
    no_zero1 = ground (arith, lookup-insert (of.get_key1 key) of.zero_key1 v d.m1, h.no_zero1);
    no_zero2 = ground (arith, lookup-insert (of.get_key2 key) of.zero_key2 v d.m2, h.no_zero2);
  }

  -- A value that was set under an item is found under every item that shares a known key with it
  -- and whose other key is the same or not known.
  pub get-set :
      (key asked : T) (v : V) (d : DualKeyMap K1 K2 V)
      → IsKeyed d
      → ((of.get_key1 asked ≡ of.get_key1 key)
          × ((of.get_key1 key == of.zero_key1) ≡ false)
          × ((of.get_key2 asked ≡ of.get_key2 key) ⊎ (of.get_key2 asked ≡ of.zero_key2)))
        ⊎ ((of.get_key2 asked ≡ of.get_key2 key)
            × ((of.get_key2 key == of.zero_key2) ≡ false)
            × ((of.get_key1 asked ≡ of.get_key1 key) ⊎ (of.get_key1 asked ≡ of.zero_key1)))
      → (get of asked (set of key v d)).0 ≡ found v
  unfolding set get
  get-set key asked v d h which = ground (
    arith,
    which,
    h.no_zero1,
    h.no_zero2,
    ==_refl v,
    e1.beq_iff (of.get_key1 key) of.zero_key1,
    e2.beq_iff (of.get_key2 key) of.zero_key2,
    e1.beq_iff (of.get_key1 key) (of.get_key1 asked),
    e2.beq_iff (of.get_key2 key) (of.get_key2 asked),
    lookup-insert (of.get_key1 key) (of.get_key1 asked) v d.m1,
    lookup-insert (of.get_key2 key) (of.get_key2 asked) v d.m2,
    lookup-insert (of.get_key1 key) of.zero_key1 v d.m1,
    lookup-insert (of.get_key2 key) of.zero_key2 v d.m2,
  )

  -- An item that was removed without a conflict is not found again.
  pub get-delete :
      (key : T) (d d' : DualKeyMap K1 K2 V)
      → delete of key d ≡ (true, d')
      → (get of key d').0 ≡ missing
  unfolding delete get
  get-delete key d d' h = ground (
    arith,
    lookup-remove (of.get_key1 key) (of.get_key1 key) d.m1,
    lookup-remove (of.get_key2 key) (of.get_key2 key) d.m2,
    ==_refl (of.get_key1 key),
    ==_refl (of.get_key2 key),
  )
