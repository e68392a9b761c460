-- ===== src/Message/Proto/Payloads.antt =====
-- What newMessageFromProto of bitswap/message/message.go makes of the blocks and the block presences of
-- ToProtoV1.
use boxo.Base.{true, false, some, List, [], ◌∷◌, ◌++◌, Key, ◌≡◌, refl, sym, ◌∙◌, subst, ap}
use mathlib.Core.List.{append-nil, append_assoc}
use boxo.Base.Map.{Map, values, insert, has_key, HasDistinctKeys, delete}
use boxo.Wire.{PresenceType, same_presence}
use boxo.Message.{Message, add_block, add_block_presence, add_forward_have}
use boxo.Message.Proto.{
  PbPresence, AddrInfo, Codec, ok, encode_addrs, encode_peers, encode_blocks, encode_presences,
  encode_forward_haves, decode_addrs, decode_peers, decode_block, decode_payload, decode_presence,
  decode_presences,
}
use boxo.Message.Proto.Appends.{lookup-later, insert-later}

module _ {Cid Block Bytes Prefix PeerId Addr : Type 0}
    (codec : Codec Cid Block Bytes Prefix PeerId Addr) where
  -- Peers and addresses can be read from their bytes, as their libraries say.
  pub record ReadsPeers : Type 0 where
    pub reads_id :
        (i : PeerId)
        → (b : Bytes) × (codec.marshal_id i ≡ some b) × (codec.id_from_bytes b ≡ some i)
    pub reads_addr : (a : Addr) → codec.new_addr (codec.addr_bytes a) ≡ some a

  -- The CID of the block is the hash of its data by its prefix, and the library makes the block of them.
  pub record IsVerified (b : Block) : Type 0 where
    pub prefix : Prefix
    pub reads_prefix : codec.prefix_from_bytes (codec.prefix_bytes (codec.cid_of b)) ≡ some prefix
    pub sums : codec.sum prefix (codec.raw_data b) ≡ some (codec.cid_of b)
    pub makes : codec.new_block_with_cid (codec.raw_data b) (codec.cid_of b) ≡ some b

  abbrev pub AreBlocks : Map Cid Block → Type 0
  AreBlocks [] = Unit {0}
  AreBlocks ((c, b) ∷ m) = (codec.cid_of b ≡ c) × IsVerified b × AreBlocks m

  -- HAVEs and DONT_HAVEs for CIDs whose blocks are not among the given ones
  abbrev pub ArePresences : ⦃key : Key Cid⦄ → Map Cid Block → Map Cid PresenceType → Type 0
  ArePresences bl [] = Unit {0}
  ArePresences bl ((c, t) ∷ m) =
      (codec.defined c ≡ true)
      × (same_presence t PresenceType.forwarded ≡ false)
      × (has_key c bl ≡ false)
      × ArePresences bl m

  abbrev pub AreDefined : {V : Type 0} → Map Cid V → Type 0
  AreDefined [] = Unit {0}
  AreDefined ((c, v) ∷ m) = (codec.defined c ≡ true) × AreDefined m

  decode_addrs-encode_addrs :
      ReadsPeers → (as' : List Addr) → decode_addrs codec (encode_addrs codec as') ≡ as'
  unfolding decode_addrs encode_addrs
  decode_addrs-encode_addrs r [] = refl
  decode_addrs-encode_addrs r (a ∷ rest) =
      rw (r.reads_addr a) (ap (λ l. a ∷ l) (decode_addrs-encode_addrs r rest))

  decode_peers-encode_peers :
      ReadsPeers
      → (ps : List (AddrInfo PeerId Addr)) → decode_peers codec (encode_peers codec ps) ≡ ps
  unfolding decode_peers encode_peers
  decode_peers-encode_peers r [] = refl
  decode_peers-encode_peers r (p ∷ ps) =
      let (b, m, i) = r.reads_id p.id in
      rw (encode_peers, m, decode_peers, i, decode_addrs-encode_addrs r p.addrs)
        (ap (λ l. p ∷ l) (decode_peers-encode_peers r ps))

  decode_block_lem :
      (b : Block)
      → IsVerified b
      → decode_block codec
          (record { prefix = codec.prefix_bytes (codec.cid_of b); data_bytes = codec.raw_data b })
        ≡ some b
  unfolding decode_block
  decode_block_lem b v = rw (decode_block, v.reads_prefix, v.sums) v.makes

module _ {Cid Block Bytes Prefix PeerId Addr : Type 0} ⦃key : Key Cid⦄
    (codec : Codec Cid Block Bytes Prefix PeerId Addr) where
  add_block-absent :
      (m : Message Cid Block (AddrInfo PeerId Addr)) (b : Block)
      → m.block_presences ≡ []
      → add_block m (codec.cid_of b) b ≡ record m { blocks = insert (codec.cid_of b) b m.blocks }
  unfolding add_block delete
  add_block-absent m b e =
      let c = codec.cid_of b in
      ap (λ l. record m { block_presences = delete c l; blocks = insert c b m.blocks }) e
      ∙ ap (λ l. record m { block_presences = l; blocks = insert c b m.blocks }) (sym e)

  -- The blocks come back behind those that are there.
  pub decode_payload-blocks :
      (bl : Map Cid Block) (m : Message Cid Block (AddrInfo PeerId Addr))
      → HasDistinctKeys (m.blocks ++ bl)
      → m.block_presences ≡ []
      → AreBlocks codec bl
      → decode_payload codec (encode_blocks codec (values bl)) m
        ≡ ok (record m { blocks = m.blocks ++ bl })
  unfolding decode_payload encode_blocks
  decode_payload-blocks [] m d e h =
      ap (λ l. ok (record m { blocks = l })) (sym (append-nil m.blocks))
  decode_payload-blocks ((c, b) ∷ bl) m d e (k, v, h) =
      let m' = record m { blocks = m.blocks ++ (c, b) ∷ [] } in
      let assoc = append_assoc m.blocks ((c, b) ∷ []) bl in
      let step : add_block m (codec.cid_of b) b ≡ m' =
        add_block-absent m b e
        ∙ ap (λ l. record m { blocks = l })
            (ap (λ j. insert j b m.blocks) k ∙ insert-later m.blocks c b bl d) in
      rw (decode_payload, decode_block_lem codec b v, step)
        (decode_payload-blocks bl m' (subst HasDistinctKeys (sym assoc) d) e h
          ∙ ap (λ l. ok (record m { blocks = l })) assoc)

  -- HAVEs and DONT_HAVEs come back behind those that are there.
  pub decode_presences-presences :
      (ps : Map Cid PresenceType) (bs : List (PbPresence Cid Bytes))
      (m : Message Cid Block (AddrInfo PeerId Addr))
      → HasDistinctKeys (m.block_presences ++ ps)
      → ArePresences codec m.blocks ps
      → decode_presences codec (encode_presences codec ps ++ bs) m
        ≡ decode_presences codec bs (record m { block_presences = m.block_presences ++ ps })
  unfolding decode_presences encode_presences
  decode_presences-presences [] bs m d h =
      ap (λ l. decode_presences codec bs (record m { block_presences = l }))
        (sym (append-nil m.block_presences))
  decode_presences-presences ((c, t) ∷ ps) bs m d (def, f, n, h) =
      let m' = record m { block_presences = m.block_presences ++ (c, t) ∷ [] } in
      let assoc = append_assoc m.block_presences ((c, t) ∷ []) ps in
      let step : decode_presence codec (record { cid = c; presence_type = t; addrinfo = [] }) m
          ≡ m' =
        rw (decode_presence, f, add_block_presence, n)
          (ap (λ l. record m { block_presences = l }) (insert-later m.block_presences c t ps d)) in
      rw (def, step)
        (decode_presences-presences ps bs m' (subst HasDistinctKeys (sym assoc) d) h
          ∙ ap (λ l. decode_presences codec bs (record m { block_presences = l })) assoc)

  -- FORWARD_HAVEs come back behind those that are there.
  pub decode_presences-forward_haves :
      (fh : Map Cid (List (AddrInfo PeerId Addr))) (m : Message Cid Block (AddrInfo PeerId Addr))
      → ReadsPeers codec
      → HasDistinctKeys (m.block_presences_peers ++ fh)
      → AreDefined codec fh
      → decode_presences codec (encode_forward_haves codec fh) m
        ≡ ok (record m { block_presences_peers = m.block_presences_peers ++ fh })
  unfolding decode_presences encode_forward_haves
  decode_presences-forward_haves [] m r d h =
      ap (λ l. ok (record m { block_presences_peers = l }))
        (sym (append-nil m.block_presences_peers))
  decode_presences-forward_haves ((c, infos) ∷ fh) m r d (def, h) =
      let m' = record m { block_presences_peers = m.block_presences_peers ++ (c, infos) ∷ [] } in
      let assoc = append_assoc m.block_presences_peers ((c, infos) ∷ []) fh in
      let step : decode_presence codec
            (record {
              cid = c;
              presence_type = PresenceType.forwarded;
              addrinfo = encode_peers codec infos;
            })
            m
          ≡ m' =
        rw
          (
            decode_presence,
            decode_peers-encode_peers codec r infos,
            add_forward_have,
            lookup-later m.block_presences_peers c infos fh d,
          )
          (ap (λ l. record m { block_presences_peers = l })
            (insert-later m.block_presences_peers c infos fh d)) in
      rw (def, step)
        (decode_presences-forward_haves fh m' r (subst HasDistinctKeys (sym assoc) d) h
          ∙ ap (λ l. ok (record m { block_presences_peers = l })) assoc)
