-- ===== src/Message/Proto/Errors.antt =====
-- Which messages newMessageFromProto of bitswap/message/message.go refuses.
use boxo.Base.{
  ℕ, Bool, true, false, ◌&&◌, List, [], ◌∷◌, Key, is_some, arith, ◌≡◌, refl, Bool-cases,
  Option-cases, inl, inr, ◌⊎◌,
}
use boxo.Message.{Entry, Message, new, add_block}
use boxo.Message.Proto.{
  PbEntry, PbBlock, PbPresence, PbMessage, AddrInfo, Codec, Decoded, Failure, ok, failed,
  decode_block, decode_entry, decode_entries, decode_blocks, decode_payload, decode_presence,
  decode_presences, new_message_from_proto,
}

abbrev pub is_ok : {A : Type 0} → Decoded A → Bool
is_ok (ok a) = true
is_ok (failed e) = false

Decoded-cases :
    {A : Type 0} (d : Decoded A) → ((a : A) × (d ≡ ok a)) ⊎ ((f : Failure) × (d ≡ failed f))
Decoded-cases (ok a) = inl (a, refl)
Decoded-cases (failed f) = inr (f, refl)

module _ {Cid Block Bytes Prefix PeerId Addr : Type 0}
    (codec : Codec Cid Block Bytes Prefix PeerId Addr) where
  -- whether the CIDs of all entries are defined
  unfoldable pub entries_defined : List (PbEntry Cid) → Bool
  entries_defined [] = true
  entries_defined (e ∷ es) = codec.defined e.block && entries_defined es

  unfoldable pub presences_defined : List (PbPresence Cid Bytes) → Bool
  presences_defined [] = true
  presences_defined (b ∷ bs) = codec.defined b.cid && presences_defined bs

  -- whether all blocks of the payload can be read
  unfoldable pub payload_readable : List (PbBlock Bytes) → Bool
  payload_readable [] = true
  payload_readable (b ∷ bs) = is_some (decode_block codec b) && payload_readable bs

module _ {Cid Block Bytes Prefix PeerId Addr : Type 0} ⦃key : Key Cid⦄
    (codec : Codec Cid Block Bytes Prefix PeerId Addr) where
  is_ok-decode_entries :
      (size : Entry Cid → ℕ) (es : List (PbEntry Cid))
      (m : Message Cid Block (AddrInfo PeerId Addr))
      → is_ok (decode_entries codec size es m) ≡ entries_defined codec es
  unfolding decode_entries entries_defined
  is_ok-decode_entries size [] m = refl
  is_ok-decode_entries size (e ∷ es) m = elim (Bool-cases (codec.defined e.block)) [
    | inl d ↦ rw d (is_ok-decode_entries size es (decode_entry codec size e m))
    | inr d ↦ rw d refl
  ]

  is_ok-decode_payload :
      (bs : List (PbBlock Bytes)) (m : Message Cid Block (AddrInfo PeerId Addr))
      → is_ok (decode_payload codec bs m) ≡ payload_readable codec bs
  unfolding decode_payload payload_readable
  is_ok-decode_payload [] m = refl
  is_ok-decode_payload (b ∷ bs) m = elim (Option-cases (decode_block codec b)) [
    | inl e ↦ rw (decode_payload, e) refl
    | inr (blk, e) ↦
        rw (decode_payload, e) (is_ok-decode_payload bs (add_block m (codec.cid_of blk) blk))
  ]

  is_ok-decode_presences :
      (bs : List (PbPresence Cid Bytes)) (m : Message Cid Block (AddrInfo PeerId Addr))
      → is_ok (decode_presences codec bs m) ≡ presences_defined codec bs
  unfolding decode_presences presences_defined
  is_ok-decode_presences [] m = refl
  is_ok-decode_presences (b ∷ bs) m = elim (Bool-cases (codec.defined b.cid)) [
    | inl d ↦ rw d (is_ok-decode_presences bs (decode_presence codec b m))
    | inr d ↦ rw d refl
  ]

  -- newMessageFromProto returns a message exactly if the CIDs of all entries and block presences are
  -- defined and all blocks of the payload can be read.
  pub is_ok-new_message_from_proto :
      (size : Entry Cid → ℕ) (pbm : PbMessage Cid Bytes)
      → is_ok (new_message_from_proto codec size pbm) ≡ (
          entries_defined codec pbm.entries
          && (payload_readable codec pbm.payload && presences_defined codec pbm.block_presences))
  unfolding new_message_from_proto
  is_ok-new_message_from_proto size pbm =
      let entries = decode_entries codec size pbm.entries (new pbm.full) in
      elim (Decoded-cases entries) [
        | inr (x, e) ↦
            rw (new_message_from_proto, e)
              (ground (arith, e, is_ok-decode_entries size pbm.entries (new pbm.full)))
        | inl (m1, e) ↦
            let payload = decode_payload codec pbm.payload (decode_blocks codec pbm.blocks m1) in
            elim (Decoded-cases payload) [
              | inr (x, f) ↦
                  rw (new_message_from_proto, e, f)
                    (ground (
                      arith,
                      e,
                      f,
                      is_ok-decode_entries size pbm.entries (new pbm.full),
                      is_ok-decode_payload pbm.payload (decode_blocks codec pbm.blocks m1),
                    ))
              | inl (m2, f) ↦
                  let presences = decode_presences codec pbm.block_presences m2 in
                  elim (Decoded-cases presences) [
                    | inr (x, g) ↦
                        rw (new_message_from_proto, e, f, g)
                          (ground (
                            arith,
                            e,
                            f,
                            g,
                            is_ok-decode_entries size pbm.entries (new pbm.full),
                            is_ok-decode_payload pbm.payload (decode_blocks codec pbm.blocks m1),
                            is_ok-decode_presences pbm.block_presences m2,
                          ))
                    | inl (m3, g) ↦
                        rw (new_message_from_proto, e, f, g)
                          (ground (
                            arith,
                            e,
                            f,
                            g,
                            is_ok-decode_entries size pbm.entries (new pbm.full),
                            is_ok-decode_payload pbm.payload (decode_blocks codec pbm.blocks m1),
                            is_ok-decode_presences pbm.block_presences m2,
                          ))
                  ]
            ]
      ]
