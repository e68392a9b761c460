-- ===== src/Message/Proto/Appends.antt =====
-- What newMessageFromProto of bitswap/message/message.go makes of each list of ToProtoV1: the entries
-- come back one after the other.
use boxo.Base.{
  ℕ, true, false, none, List, [], ◌∷◌, ◌++◌, Key, same, if◌then◌else◌, contains, arith, ◌≡◌, refl,
  sym, ◌∙◌, eq_of_same, same_comm, subst, ap,
}
use mathlib.Core.List.{append-nil, append_assoc}
use boxo.Base.Map.{Map, keys, lookup, insert, HasDistinctKeys}
use boxo.Wire.{WantType, same_type}
use boxo.Message.{Entry, Message, add_entry_with, add_forward_entry_with, create_forward}
use boxo.Message.Proto.{PbEntry, AddrInfo, Codec, to_pb, all_to_pb, decode_entry, decode_entries}

module _ {K V : Type 0} ⦃key : Key K⦄ where
  contains-middle :
      (a : Map K V) (k : K) (v : V) (c : Map K V) (j : K)
      → contains j (keys (a ++ (k, v) ∷ c)) ≡ false
      → same k j ≡ false
  contains-middle [] k v c j h = ground arith
  contains-middle ((i, w) ∷ a) k v c j h = ground (arith, contains-middle a k v c j)

  -- A key that comes later is not there yet.
  pub lookup-later :
      (a : Map K V) (k : K) (v : V) (c : Map K V)
      → HasDistinctKeys (a ++ (k, v) ∷ c)
      → lookup k a ≡ none
  unfolding lookup
  lookup-later [] k v c d = refl
  lookup-later ((i, w) ∷ a) k v c d =
      ground (arith, lookup-later a k v c d.1, contains-middle a k v c i d.0, eq_of_same i k)

  -- It is inserted at the end.
  pub insert-later :
      (a : Map K V) (k : K) (v : V) (c : Map K V)
      → HasDistinctKeys (a ++ (k, v) ∷ c)
      → insert k v a ≡ a ++ (k, v) ∷ []
  unfolding insert
  insert-later [] k v c d = refl
  insert-later ((i, w) ∷ a) k v c d =
      rw (same_comm i k ∙ contains-middle a k v c i d.0)
        (ap (λ l. (i, w) ∷ l) (insert-later a k v c d.1))

module _ {Cid Block Bytes Prefix PeerId Addr : Type 0}
    (codec : Codec Cid Block Bytes Prefix PeerId Addr) where
  -- the entries of a wantlist that are sent as wants
  abbrev pub AreWants : Map Cid (Entry Cid) → Type 0
  AreWants [] = Unit {0}
  AreWants ((c, e) ∷ m) =
      (e.entry.cid ≡ c)
      × (codec.defined c ≡ true)
      × (same_type e.entry.want_type WantType.forward ≡ false)
      × AreWants m

  -- the entries of a forwardlist
  abbrev pub AreForwards : Map Cid (Entry Cid) → Type 0
  AreForwards [] = Unit {0}
  AreForwards ((c, e) ∷ m) =
      (e.entry.cid ≡ c)
      × (codec.defined c ≡ true)
      × (e.entry.want_type ≡ WantType.forward)
      × (e.send_dont_have ≡ true)
      × AreForwards m

module _ {Cid Block Bytes Prefix PeerId Addr : Type 0} ⦃key : Key Cid⦄
    (codec : Codec Cid Block Bytes Prefix PeerId Addr) where
  add_entry-absent :
      (size : Entry Cid → ℕ) (m : Message Cid Block (AddrInfo PeerId Addr)) (e : Entry Cid)
      → lookup e.entry.cid m.wantlist ≡ none
      → (add_entry_with size m e.entry.cid e.entry.priority e.cancel e.entry.want_type
          e.send_dont_have).0
        ≡ record m { wantlist = insert e.entry.cid e m.wantlist }
  unfolding add_entry_with
  add_entry-absent size m e n = rw (add_entry_with, n) refl

  add_forward-absent :
      (size : Entry Cid → ℕ) (m : Message Cid Block (AddrInfo PeerId Addr)) (e : Entry Cid)
      → e.entry.want_type ≡ WantType.forward
      → e.send_dont_have ≡ true
      → lookup e.entry.cid m.forwardlist ≡ none
      → (add_forward_entry_with size m e.entry.cid e.entry.priority e.cancel).0
        ≡ record m { forwardlist = insert e.entry.cid e m.forwardlist }
  unfolding add_forward_entry_with create_forward
  add_forward-absent size m e t d n =
      rw (add_forward_entry_with, n)
        (ap (λ f. record m { forwardlist = insert e.entry.cid f m.forwardlist }) (cc))

  decode_want :
      (size : Entry Cid → ℕ) (e : Entry Cid) (m : Message Cid Block (AddrInfo PeerId Addr))
      → same_type e.entry.want_type WantType.forward ≡ false
      → lookup e.entry.cid m.wantlist ≡ none
      → decode_entry codec size (to_pb e) m
        ≡ record m { wantlist = insert e.entry.cid e m.wantlist }
  unfolding decode_entry to_pb
  decode_want size e m t n = rw (decode_entry, t) (add_entry-absent size m e n)

  decode_forward :
      (size : Entry Cid → ℕ) (e : Entry Cid) (m : Message Cid Block (AddrInfo PeerId Addr))
      → e.entry.want_type ≡ WantType.forward
      → e.send_dont_have ≡ true
      → lookup e.entry.cid m.forwardlist ≡ none
      → decode_entry codec size (to_pb e) m
        ≡ record m { forwardlist = insert e.entry.cid e m.forwardlist }
  unfolding decode_entry to_pb
  decode_forward size e m t d n =
      (ap
        (λ x.
          if same_type x WantType.forward
          then (add_forward_entry_with size m e.entry.cid e.entry.priority e.cancel).0
          else (add_entry_with size m e.entry.cid e.entry.priority e.cancel e.entry.want_type
              e.send_dont_have).0)
        t)
      ∙ add_forward-absent size m e t d n

  -- The wants of a wantlist come back behind those that are there.
  pub decode_entries-wants :
      (size : Entry Cid → ℕ) (wl : Map Cid (Entry Cid)) (es : List (PbEntry Cid))
      (m : Message Cid Block (AddrInfo PeerId Addr))
      → HasDistinctKeys (m.wantlist ++ wl)
      → AreWants codec wl
      → decode_entries codec size (all_to_pb wl ++ es) m
        ≡ decode_entries codec size es (record m { wantlist = m.wantlist ++ wl })
  unfolding decode_entries all_to_pb to_pb
  decode_entries-wants size [] es m d h =
      ap (λ l. decode_entries codec size es (record m { wantlist = l }))
        (sym (append-nil m.wantlist))
  decode_entries-wants size ((c, e) ∷ wl) es m d (k, def, t, h) =
      let m' = record m { wantlist = m.wantlist ++ (c, e) ∷ [] } in
      let assoc = append_assoc m.wantlist ((c, e) ∷ []) wl in
      let step : decode_entry codec size (to_pb e) m ≡ m' =
        decode_want size e m t (rw k (lookup-later m.wantlist c e wl d))
        ∙ ap (λ l. record m { wantlist = l })
            (ap (λ j. insert j e m.wantlist) k ∙ insert-later m.wantlist c e wl d) in
      rw (ap codec.defined k ∙ def, step)
        (decode_entries-wants size wl es m' (subst HasDistinctKeys (sym assoc) d) h
          ∙ ap (λ l. decode_entries codec size es (record m { wantlist = l })) assoc)

  -- The entries of a forwardlist come back behind those that are there.
  pub decode_entries-forwards :
      (size : Entry Cid → ℕ) (wl : Map Cid (Entry Cid)) (es : List (PbEntry Cid))
      (m : Message Cid Block (AddrInfo PeerId Addr))
      → HasDistinctKeys (m.forwardlist ++ wl)
      → AreForwards codec wl
      → decode_entries codec size (all_to_pb wl ++ es) m
        ≡ decode_entries codec size es (record m { forwardlist = m.forwardlist ++ wl })
  unfolding decode_entries all_to_pb to_pb
  decode_entries-forwards size [] es m d h =
      ap (λ l. decode_entries codec size es (record m { forwardlist = l }))
        (sym (append-nil m.forwardlist))
  decode_entries-forwards size ((c, e) ∷ wl) es m d (k, def, t, sd, h) =
      let m' = record m { forwardlist = m.forwardlist ++ (c, e) ∷ [] } in
      let assoc = append_assoc m.forwardlist ((c, e) ∷ []) wl in
      let step : decode_entry codec size (to_pb e) m ≡ m' =
        decode_forward size e m t sd (rw k (lookup-later m.forwardlist c e wl d))
        ∙ ap (λ l. record m { forwardlist = l })
            (ap (λ j. insert j e m.forwardlist) k ∙ insert-later m.forwardlist c e wl d) in
      rw (ap codec.defined k ∙ def, step)
        (decode_entries-forwards size wl es m' (subst HasDistinctKeys (sym assoc) d) h
          ∙ ap (λ l. decode_entries codec size es (record m { forwardlist = l })) assoc)
