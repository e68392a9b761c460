-- ===== src/Message/Proto/Tests.antt =====
-- Messages written and read, and the properties of the conversion at concrete inputs.
use boxo.Base.{ℕ, ◌≡◌, refl, true, false, not, ◌&&◌, ◌==◌, some, [], ◌∷◌, nat_key, ℕ_discrete}
use boxo.Base.Int.{pos}
use boxo.Base.Map.{lookup, insert, delete}
use boxo.Wire.{WantType, PresenceType}
use boxo.Message.{
  Entry, Message, new, add_entry_with, add_forward_entry_with, create_forward, merge_entry,
  merged_priority, merged_type, add_block, add_block_presence, add_forward_have, blocks_of,
  set_pending_bytes,
}
use boxo.Message.Proto.{
  AddrInfo, Codec, ok, failed, cid_missing, to_pb, all_to_pb, encode_addrs, encode_peers,
  encode_blocks, encode_presences, encode_forward_haves, raw_blocks, to_proto_v0, to_proto_v1,
  decode_addrs, decode_peers, decode_block, decode_entry, decode_entries, decode_blocks,
  decode_payload, decode_presence, decode_presences, new_message_from_proto,
}
use boxo.Message.Proto.Errors.{
  is_ok, entries_defined, presences_defined, payload_readable, is_ok-new_message_from_proto,
}
use boxo.Message.Proto.Payloads.{ReadsPeers}
use boxo.Message.Proto.RoundTrip.{IsReadable, new_message_from_proto-to_proto_v1}

program : Unit {0}
unfolding new add_entry_with add_forward_entry_with create_forward merge_entry merged_priority
    merged_type add_block add_block_presence add_forward_have blocks_of set_pending_bytes to_pb
    all_to_pb encode_addrs encode_peers encode_blocks encode_presences encode_forward_haves
    raw_blocks to_proto_v0 to_proto_v1 decode_addrs decode_peers decode_block decode_entry
    decode_entries decode_blocks decode_payload decode_presence decode_presences
    new_message_from_proto lookup insert delete ℕ_discrete entries_defined presences_defined
    payload_readable
program = tt

-- Blocks that are their own CIDs and bytes; 0 is the undefined CID.
abbrev plain : Codec ℕ ℕ ℕ ℕ ℕ ℕ
plain = record {
  defined = λ c. not (c == 0);
  cid_of = λ b. b;
  raw_data = λ b. b;
  new_block = λ d. d;
  prefix_bytes = λ c. 5;
  prefix_from_bytes = λ b. some b;
  sum = λ p d. some d;
  new_block_with_cid = λ d c. some d;
  marshal_id = λ i. some i;
  id_from_bytes = λ b. some b;
  addr_bytes = λ a. a;
  new_addr = λ b. some b;
}

abbrev size_one : Entry ℕ → ℕ
size_one e = 1

abbrev sample : Message ℕ ℕ (AddrInfo ℕ ℕ)
sample = record {
  full = true;
  wantlist =
      (
        10,
        record {
          entry = record { cid = 10; priority = pos 2; want_type = WantType.block };
          cancel = false;
          send_dont_have = true;
        },
      )
      ∷ [];
  forwardlist =
      (
        11,
        record {
          entry = record { cid = 11; priority = pos 1; want_type = WantType.forward };
          cancel = true;
          send_dont_have = true;
        },
      )
      ∷ [];
  blocks = (77, 77) ∷ [];
  block_presences = (12, PresenceType.present) ∷ [];
  block_presences_peers = (13, record { id = 1; addrs = 8 ∷ 9 ∷ [] } ∷ []) ∷ [];
  pending_bytes = pos 4;
}

v0_test :
    new_message_from_proto plain size_one (to_proto_v0 plain sample)
    ≡ ok (record sample {
      forwardlist = [];
      block_presences = [];
      block_presences_peers = [];
      pending_bytes = pos 0;
    })
unfolding program
v0_test = refl

missing_test :
    new_message_from_proto plain size_one (record (to_proto_v1 plain sample) {
      payload = [];
      block_presences = record { cid = 0; presence_type = PresenceType.absent; addrinfo = [] } ∷ [];
    })
    ≡ failed cid_missing
unfolding program
missing_test = refl

reads : ReadsPeers plain
reads = record { reads_id = λ i. (i, refl, refl); reads_addr = λ a. refl }

readable : IsReadable plain sample
unfolding program
readable = record {
  wants_once = (refl, tt);
  forwards_once = (refl, tt);
  blocks_once = (refl, tt);
  presences_once = (refl, tt);
  forward_haves_once = (refl, tt);
  wants = (refl, refl, refl, tt);
  forwards = (refl, refl, refl, refl, tt);
  verified = (refl, record { prefix = 5; reads_prefix = refl; sums = refl; makes = refl }, tt);
  presences = (refl, refl, refl, tt);
  forward_haves = (refl, tt);
}

new_message_from_proto-to_proto_v1_example :
    new_message_from_proto plain size_one (to_proto_v1 plain sample) ≡ ok sample
new_message_from_proto-to_proto_v1_example =
    new_message_from_proto-to_proto_v1 plain size_one sample reads readable

is_ok-new_message_from_proto_example :
    is_ok (new_message_from_proto plain size_one (to_proto_v1 plain sample)) ≡ (
      entries_defined plain (to_proto_v1 plain sample).entries
      && (payload_readable plain (to_proto_v1 plain sample).payload
          && presences_defined plain (to_proto_v1 plain sample).block_presences))
is_ok-new_message_from_proto_example =
    is_ok-new_message_from_proto plain size_one (to_proto_v1 plain sample)
