-- ===== src/Message/Proto.antt =====
-- The conversion of messages to and from the generated wire types: ToProtoV0, ToProtoV1 and
-- newMessageFromProto of bitswap/message/message.go. The wire types are those of
-- bitswap/message/pb/message.pb.go. Blocks, prefixes, peers and addresses come from other
-- repositories, behind `Codec`.
pub mod Errors
pub mod Appends
pub mod Payloads
pub mod RoundTrip
mod Tests
use boxo.Base.{ℕ, Bool, true, false, Option, none, some, List, [], ◌∷◌, ◌++◌, Key, if◌then◌else◌}
use boxo.Base.Int.{ℤ, pos}
use boxo.Base.Map.{Map}
use boxo.Wire.{WantType, PresenceType, same_type, same_presence}
use boxo.Wantlist
use boxo.Message.{
  Entry, Message, new, add_entry_with, add_forward_entry_with, add_block, add_block_presence,
  add_forward_have, blocks_of, set_pending_bytes,
}

-- `pb.Message_Wantlist_Entry`
pub record PbEntry (Cid : Type 0) : Type 0 where
  pub block : Cid
  pub priority : ℤ
  pub cancel : Bool
  pub want_type : WantType
  pub send_dont_have : Bool

-- `pb.Message_Block`
pub record PbBlock (Bytes : Type 0) : Type 0 where
  pub prefix : Bytes
  pub data_bytes : Bytes

-- `pb.Message_BlockPresence_AddressInfo`
pub record PbAddrInfo (Bytes : Type 0) : Type 0 where
  pub peer_id : Bytes
  pub multiaddrs : List Bytes

-- `pb.Message_BlockPresence`
pub record PbPresence (Cid Bytes : Type 0) : Type 0 where
  pub cid : Cid
  pub presence_type : PresenceType
  pub addrinfo : List (PbAddrInfo Bytes)

-- `pb.Message`, with the fields of its wantlist
pub record PbMessage (Cid Bytes : Type 0) : Type 0 where
  pub entries : List (PbEntry Cid)
  pub full : Bool
  pub blocks : List Bytes
  pub payload : List (PbBlock Bytes)
  pub block_presences : List (PbPresence Cid Bytes)
  pub pending_bytes : ℤ

-- `peer.AddrInfo`
pub record AddrInfo (PeerId Addr : Type 0) : Type 0 where
  pub id : PeerId
  pub addrs : List Addr

-- The functions of other repositories that the conversions call; `none` is an error.
pub record Codec (Cid Block Bytes Prefix PeerId Addr : Type 0) : Type 0 where
  pub defined : Cid → Bool
  pub cid_of : Block → Cid
  pub raw_data : Block → Bytes
  pub new_block : Bytes → Block
  pub prefix_bytes : Cid → Bytes
  pub prefix_from_bytes : Bytes → Option Prefix
  pub sum : Prefix → Bytes → Option Cid
  pub new_block_with_cid : Bytes → Cid → Option Block
  pub marshal_id : PeerId → Option Bytes
  pub id_from_bytes : Bytes → Option PeerId
  pub addr_bytes : Addr → Bytes
  pub new_addr : Bytes → Option Addr

pub data Failure : Type 0 where
  cid_missing bad_payload : Failure

pub data Decoded (A : Type 0) : Type 0 where
  ok : A → Decoded A
  failed : Failure → Decoded A

module _ {Cid : Type 0} where
  -- `Entry.ToPB`
  pub to_pb : Entry Cid → PbEntry Cid
  to_pb e = record {
    block = e.entry.cid;
    priority = e.entry.priority;
    cancel = e.cancel;
    want_type = e.entry.want_type;
    send_dont_have = e.send_dont_have;
  }

  -- the loops over the wantlist and the forwardlist
  pub all_to_pb : Map Cid (Entry Cid) → List (PbEntry Cid)
  unfolding to_pb
  all_to_pb [] = []
  all_to_pb ((c, e) ∷ m) = to_pb e ∷ all_to_pb m

module _ {Cid Block Bytes Prefix PeerId Addr : Type 0}
    (codec : Codec Cid Block Bytes Prefix PeerId Addr) where
  -- `info.Addrs` as bytes
  pub encode_addrs : List Addr → List Bytes
  encode_addrs [] = []
  encode_addrs (a ∷ rest) = codec.addr_bytes a ∷ encode_addrs rest

  -- the peers of a FORWARD_HAVE; one whose id cannot be marshalled is left out
  pub encode_peers : List (AddrInfo PeerId Addr) → List (PbAddrInfo Bytes)
  unfolding encode_addrs
  encode_peers [] = []
  encode_peers (p ∷ ps) =
      let rest = encode_peers ps in
      elim (codec.marshal_id p.id) [
        | none ↦ rest
        | some b ↦ record { peer_id = b; multiaddrs = encode_addrs p.addrs } ∷ rest
      ]

  pub encode_blocks : List Block → List (PbBlock Bytes)
  encode_blocks [] = []
  encode_blocks (b ∷ bs) =
      record { prefix = codec.prefix_bytes (codec.cid_of b); data_bytes = codec.raw_data b }
      ∷ encode_blocks bs

  pub encode_presences : Map Cid PresenceType → List (PbPresence Cid Bytes)
  encode_presences [] = []
  encode_presences ((c, t) ∷ m) =
      record { cid = c; presence_type = t; addrinfo = [] } ∷ encode_presences m

  pub encode_forward_haves : Map Cid (List (AddrInfo PeerId Addr)) → List (PbPresence Cid Bytes)
  unfolding encode_peers
  encode_forward_haves [] = []
  encode_forward_haves ((c, infos) ∷ m) =
      record { cid = c; presence_type = PresenceType.forwarded; addrinfo = encode_peers infos }
      ∷ encode_forward_haves m

  pub raw_blocks : List Block → List Bytes
  raw_blocks [] = []
  raw_blocks (b ∷ bs) = codec.raw_data b ∷ raw_blocks bs

  -- `ToProtoV0`
  pub to_proto_v0 : Message Cid Block (AddrInfo PeerId Addr) → PbMessage Cid Bytes
  unfolding all_to_pb raw_blocks blocks_of
  to_proto_v0 m = record {
    entries = all_to_pb m.wantlist;
    full = m.full;
    blocks = raw_blocks (blocks_of m);
    payload = [];
    block_presences = [];
    pending_bytes = pos 0;
  }

  -- `ToProtoV1`
  pub to_proto_v1 : Message Cid Block (AddrInfo PeerId Addr) → PbMessage Cid Bytes
  unfolding all_to_pb encode_blocks blocks_of encode_presences encode_forward_haves
  to_proto_v1 m = record {
    entries = all_to_pb m.wantlist ++ all_to_pb m.forwardlist;
    full = m.full;
    blocks = [];
    payload = encode_blocks (blocks_of m);
    block_presences =
        encode_presences m.block_presences ++ encode_forward_haves m.block_presences_peers;
    pending_bytes = m.pending_bytes;
  }

  -- the addresses of a peer that can be read
  pub decode_addrs : List Bytes → List Addr
  decode_addrs [] = []
  decode_addrs (b ∷ bs) =
      let rest = decode_addrs bs in elim (codec.new_addr b) [ none ↦ rest | some a ↦ a ∷ rest ]

  pub decode_peers : List (PbAddrInfo Bytes) → List (AddrInfo PeerId Addr)
  unfolding decode_addrs
  decode_peers [] = []
  decode_peers (p ∷ ps) =
      let rest = decode_peers ps in
      elim (codec.id_from_bytes p.peer_id) [
        | none ↦ rest
        | some i ↦ record { id = i; addrs = decode_addrs p.multiaddrs } ∷ rest
      ]

  -- a block of the payload: its prefix, its CID and the block
  pub decode_block : PbBlock Bytes → Option Block
  decode_block b = elim (codec.prefix_from_bytes b.prefix) [
    | none ↦ none
    | some p ↦ elim (codec.sum p b.data_bytes) [
      | none ↦ none
      | some c ↦ codec.new_block_with_cid b.data_bytes c
    ]
  ]

module _ {Cid Block Bytes Prefix PeerId Addr : Type 0} ⦃key : Key Cid⦄
    (codec : Codec Cid Block Bytes Prefix PeerId Addr) where
  pub decode_entry :
      (Entry Cid → ℕ)
      → PbEntry Cid
      → Message Cid Block (AddrInfo PeerId Addr)
      → Message Cid Block (AddrInfo PeerId Addr)
  unfolding add_forward_entry_with add_entry_with
  decode_entry size e m =
      if same_type e.want_type WantType.forward
      then (add_forward_entry_with size m e.block e.priority e.cancel).0
      else (add_entry_with size m e.block e.priority e.cancel e.want_type e.send_dont_have).0

  -- the loop over the entries, which ends at an undefined CID
  pub decode_entries :
      (Entry Cid → ℕ)
      → List (PbEntry Cid)
      → Message Cid Block (AddrInfo PeerId Addr)
      → Decoded (Message Cid Block (AddrInfo PeerId Addr))
  unfolding decode_entry
  decode_entries size [] m = ok m
  decode_entries size (e ∷ es) m =
      let rest = decode_entries size es (decode_entry size e m) in
      if codec.defined e.block then rest else failed cid_missing

  -- the loop over the blocks of version 0
  pub decode_blocks :
      List Bytes
      → Message Cid Block (AddrInfo PeerId Addr)
      → Message Cid Block (AddrInfo PeerId Addr)
  unfolding add_block
  decode_blocks [] m = m
  decode_blocks (d ∷ ds) m =
      let b = codec.new_block d in decode_blocks ds (add_block m (codec.cid_of b) b)

  pub decode_payload :
      List (PbBlock Bytes)
      → Message Cid Block (AddrInfo PeerId Addr)
      → Decoded (Message Cid Block (AddrInfo PeerId Addr))
  unfolding decode_block add_block
  decode_payload [] m = ok m
  decode_payload (b ∷ bs) m = elim (decode_block codec b) [
    | none ↦ failed bad_payload
    | some blk ↦ decode_payload bs (add_block m (codec.cid_of blk) blk)
  ]

  pub decode_presence :
      PbPresence Cid Bytes
      → Message Cid Block (AddrInfo PeerId Addr)
      → Message Cid Block (AddrInfo PeerId Addr)
  unfolding decode_peers add_forward_have add_block_presence
  decode_presence b m =
      if same_presence b.presence_type PresenceType.forwarded
      then add_forward_have m b.cid (decode_peers codec b.addrinfo)
      else add_block_presence m b.cid b.presence_type

  pub decode_presences :
      List (PbPresence Cid Bytes)
      → Message Cid Block (AddrInfo PeerId Addr)
      → Decoded (Message Cid Block (AddrInfo PeerId Addr))
  unfolding decode_presence
  decode_presences [] m = ok m
  decode_presences (b ∷ bs) m =
      let rest = decode_presences bs (decode_presence b m) in
      if codec.defined b.cid then rest else failed cid_missing

  -- `newMessageFromProto`
  pub new_message_from_proto :
      (Entry Cid → ℕ) → PbMessage Cid Bytes → Decoded (Message Cid Block (AddrInfo PeerId Addr))
  unfolding new decode_entries decode_blocks decode_payload decode_presences set_pending_bytes
  new_message_from_proto size pbm = elim (decode_entries size pbm.entries (new pbm.full)) [
    | failed e ↦ failed e
    | ok m1 ↦ elim (decode_payload pbm.payload (decode_blocks pbm.blocks m1)) [
      | failed e ↦ failed e
      | ok m2 ↦ elim (decode_presences pbm.block_presences m2) [
        | failed e ↦ failed e
        | ok m3 ↦ ok (set_pending_bytes m3 pbm.pending_bytes)
      ]
    ]
  ]
