-- ===== src/Message/Proto/RoundTrip.antt =====
-- A message that ToProtoV1 of bitswap/message/message.go writes is read back by newMessageFromProto.
use boxo.Base.{ℕ, [], ◌++◌, Key, ◌≡◌, refl, sym, ◌∙◌, ap}
use mathlib.Core.List.{append-nil}
use boxo.Base.Map.{HasDistinctKeys}
use boxo.Message.{Entry, Message, new, blocks_of, set_pending_bytes}
use boxo.Message.Proto.{
  AddrInfo, Codec, ok, all_to_pb, encode_forward_haves, to_proto_v1, decode_entries, decode_blocks,
  new_message_from_proto,
}
use boxo.Message.Proto.Appends.{
  AreWants, AreForwards, decode_entries-wants, decode_entries-forwards,
}
use boxo.Message.Proto.Payloads.{
  ReadsPeers, AreBlocks, ArePresences, AreDefined, decode_payload-blocks,
  decode_presences-presences, decode_presences-forward_haves,
}

module _ {Cid Block Bytes Prefix PeerId Addr : Type 0} ⦃key : Key Cid⦄
    (codec : Codec Cid Block Bytes Prefix PeerId Addr) where
  -- A message that can be read back: each CID once in each map and defined, the entries and blocks under
  -- their CIDs, forwards in the forwardlist only, and verified blocks.
  pub record IsReadable (m : Message Cid Block (AddrInfo PeerId Addr)) : Type 0 where
    pub wants_once : HasDistinctKeys m.wantlist
    pub forwards_once : HasDistinctKeys m.forwardlist
    pub blocks_once : HasDistinctKeys m.blocks
    pub presences_once : HasDistinctKeys m.block_presences
    pub forward_haves_once : HasDistinctKeys m.block_presences_peers
    pub wants : AreWants codec m.wantlist
    pub forwards : AreForwards codec m.forwardlist
    pub verified : AreBlocks codec m.blocks
    pub presences : ArePresences codec m.blocks m.block_presences
    pub forward_haves : AreDefined codec m.block_presences_peers

  decode_entries-readable :
      (size : Entry Cid → ℕ) (m : Message Cid Block (AddrInfo PeerId Addr))
      → IsReadable m
      → decode_entries codec size (all_to_pb m.wantlist ++ all_to_pb m.forwardlist) (new m.full)
        ≡ ok (record (new m.full) { wantlist = m.wantlist; forwardlist = m.forwardlist })
  unfolding new decode_entries
  decode_entries-readable size m r =
      let m1 : Message Cid Block (AddrInfo PeerId Addr) = record (new m.full) {
        wantlist = m.wantlist;
      } in
      decode_entries-wants codec size m.wantlist (all_to_pb m.forwardlist) (new m.full) r.wants_once
        r.wants
      ∙ (ap (λ l. decode_entries codec size l m1) (sym (append-nil (all_to_pb m.forwardlist)))
          ∙ decode_entries-forwards codec size m.forwardlist [] m1 r.forwards_once r.forwards)

  -- If peers and addresses can be read from their bytes, then newMessageFromProto reads from what ToProtoV1
  -- makes of a readable message that same message.
  pub new_message_from_proto-to_proto_v1 :
      (size : Entry Cid → ℕ) (m : Message Cid Block (AddrInfo PeerId Addr))
      → ReadsPeers codec
      → IsReadable m
      → new_message_from_proto codec size (to_proto_v1 codec m) ≡ ok m
  unfolding new_message_from_proto to_proto_v1 decode_blocks blocks_of set_pending_bytes
  new_message_from_proto-to_proto_v1 size m p r =
      let m2 : Message Cid Block (AddrInfo PeerId Addr) = record (new m.full) {
        wantlist = m.wantlist;
        forwardlist = m.forwardlist;
      } in
      let m3 = record m2 { blocks = m.blocks } in
      let m4 = record m3 { block_presences = m.block_presences } in
      let blocks = decode_payload-blocks codec m.blocks m2 r.blocks_once refl r.verified in
      let presences =
        decode_presences-presences codec m.block_presences
          (encode_forward_haves codec m.block_presences_peers) m3 r.presences_once r.presences
        ∙ decode_presences-forward_haves codec m.block_presences_peers m4 p r.forward_haves_once
            r.forward_haves in
      rw (new_message_from_proto, decode_entries-readable size m r, blocks, presences) refl
