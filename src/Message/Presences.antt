-- ===== src/Message/Presences.antt =====
-- What a receiver reads off the HAVEs and DONT_HAVEs of a message.
use boxo.Base.{Bool, false, ◌&&◌, none, some, [], ◌∷◌, Key, eq_of_same, contains, arith, ◌≡◌, refl}
use boxo.Base.Map.{Map, lookup, contains-keys, HasDistinctKeys}
use boxo.Wire.{PresenceType, same_presence}
use boxo.Message.{Message, presences_by_type, haves, dont_haves}

module _ {Cid : Type 0} ⦃key : Key Cid⦄ where
  -- whether the map holds the type under the CID
  abbrev pub says : Map Cid PresenceType → Cid → PresenceType → Bool
  says m c t = elim (lookup c m) [ none ↦ false | some u ↦ same_presence u t ]

  contains-presences_by_type :
      (m : Map Cid PresenceType) (t : PresenceType) (c : Cid)
      → HasDistinctKeys m
      → contains c (presences_by_type m t) ≡ says m c t
  unfolding presences_by_type lookup
  contains-presences_by_type [] t c d = refl
  contains-presences_by_type ((k, u) ∷ m) t c d =
      ground (arith, contains-presences_by_type m t c d.1, contains-keys c m, eq_of_same k c)

module _ {Cid Block Addr : Type 0} ⦃key : Key Cid⦄ where
  -- Haves and DontHaves list exactly the CIDs with a HAVE and a DONT_HAVE, and no CID is in both; the
  -- keys of the map are distinct.
  pub haves_lem :
      (m : Message Cid Block Addr) (c : Cid)
      → HasDistinctKeys m.block_presences
      → (contains c (haves m) ≡ says m.block_presences c PresenceType.present)
        × (contains c (dont_haves m) ≡ says m.block_presences c PresenceType.absent)
        × ((contains c (haves m) && contains c (dont_haves m)) ≡ false)
  unfolding haves dont_haves
  haves_lem m c d = ground (
    arith,
    contains-presences_by_type m.block_presences PresenceType.present c d,
    contains-presences_by_type m.block_presences PresenceType.absent c d,
  )
