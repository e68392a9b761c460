-- ===== src/Message.antt =====
-- bitswap/message/message.go: a message that is put together, and what a receiver reads off it. The
-- size of an entry on the wire is computed by generated code and is a parameter.
pub mod Calls
pub mod Entries
pub mod Growth
pub mod Proto
pub mod Presences
mod Tests
use boxo.Base.{
  ℕ, Bool, true, false, ◌&&◌, ◌||◌, Option, none, some, List, [], ◌∷◌, ◌++◌, Key, if◌then◌else◌,
  or_default,
}
use boxo.Base.Int.{ℤ, pos}
use boxo.Base.Map.{Map, lookup, insert, delete, has_key, values}
use boxo.Base.Nested.{is_empty}
use boxo.Wire.{WantType, PresenceType, is_block, is_have, same_type, same_presence, same_flag}
use boxo.Wantlist

pub record Entry (Cid : Type 0) : Type 0 where
  pub entry : Wantlist.Entry Cid
  pub cancel : Bool
  pub send_dont_have : Bool

-- `impl`
pub record Message (Cid Block Addr : Type 0) : Type 0 where
  pub full : Bool
  pub wantlist : Map Cid (Entry Cid)
  pub forwardlist : Map Cid (Entry Cid)
  pub blocks : Map Cid Block
  pub block_presences : Map Cid PresenceType
  pub block_presences_peers : Map Cid (List Addr)
  pub pending_bytes : ℤ

module _ {Cid : Type 0} where
  -- the priority of an existing entry, which changes only if the want is of the same type
  pub merged_priority : Wantlist.Entry Cid → ℤ → WantType → ℤ
  merged_priority e priority t = if same_type e.want_type t then priority else e.priority

  -- the type of an existing entry: a want-block overrides a want-have
  pub merged_type : Wantlist.Entry Cid → WantType → WantType
  merged_type e t = if is_block t && is_have e.want_type then t else e.want_type

  -- the branch of `addEntry` for an entry that exists
  pub merge_entry : Entry Cid → ℤ → Bool → WantType → Bool → Entry Cid
  unfolding merged_priority merged_type
  merge_entry e priority cancel t send_dont_have = record {
    entry = record {
      cid = e.entry.cid;
      priority = merged_priority e.entry priority t;
      want_type = merged_type e.entry t;
    };
    cancel = cancel || e.cancel;
    send_dont_have = send_dont_have || e.send_dont_have;
  }

  -- the keys of one type, `getBlockPresenceByType`
  pub presences_by_type : Map Cid PresenceType → PresenceType → List Cid
  presences_by_type [] t = []
  presences_by_type ((c, u) ∷ m) t =
      let rest = presences_by_type m t in if same_presence u t then c ∷ rest else rest

module _ {Cid Block Addr : Type 0} where
  -- `newMsg`
  pub new : Bool → Message Cid Block Addr
  new full = record {
    full = full;
    wantlist = [];
    forwardlist = [];
    blocks = [];
    block_presences = [];
    block_presences_peers = [];
    pending_bytes = pos 0;
  }

  -- `Reset` deletes every key of every map.
  pub reset : Message Cid Block Addr → Bool → Message Cid Block Addr
  reset m full = record {
    full = full;
    wantlist = [];
    forwardlist = [];
    blocks = [];
    block_presences = [];
    block_presences_peers = [];
    pending_bytes = pos 0;
  }

  pub empty : Message Cid Block Addr → Bool
  empty m =
      is_empty m.blocks
      && (is_empty m.wantlist
          && (is_empty m.block_presences
              && (is_empty m.forwardlist && is_empty m.block_presences_peers)))

  -- `Wantlist`, `Forwardlist` and `Blocks`
  pub wantlist_of : Message Cid Block Addr → List (Entry Cid)
  wantlist_of m = values m.wantlist

  pub forwardlist_of : Message Cid Block Addr → List (Entry Cid)
  forwardlist_of m = values m.forwardlist

  pub blocks_of : Message Cid Block Addr → List Block
  blocks_of m = values m.blocks

  pub haves : Message Cid Block Addr → List Cid
  unfolding presences_by_type
  haves m = presences_by_type m.block_presences PresenceType.present

  pub dont_haves : Message Cid Block Addr → List Cid
  unfolding presences_by_type
  dont_haves m = presences_by_type m.block_presences PresenceType.absent

  pub set_pending_bytes : Message Cid Block Addr → ℤ → Message Cid Block Addr
  set_pending_bytes m n = record m { pending_bytes = n }

module _ {Cid Block Addr : Type 0} ⦃key : Key Cid⦄ where
  pub remove : Message Cid Block Addr → Cid → Message Cid Block Addr
  remove m c = record m { wantlist = delete c m.wantlist }

  pub remove_forward : Message Cid Block Addr → Cid → Message Cid Block Addr
  remove_forward m c = record m { forwardlist = delete c m.forwardlist }

  -- The second component is the size that the method returns.
  pub add_entry_with :
      (Entry Cid → ℕ)
      → Message Cid Block Addr
      → Cid
      → ℤ
      → Bool
      → WantType
      → Bool
      → Message Cid Block Addr × ℕ
  unfolding merge_entry
  add_entry_with size m c priority cancel t send_dont_have = elim (lookup c m.wantlist) [
    | some e ↦
        let e' = merge_entry e priority cancel t send_dont_have in
        (record m { wantlist = insert c e' m.wantlist }, 0)
    | none ↦
        let e : Entry Cid = record {
          entry = record { cid = c; priority = priority; want_type = t };
          cancel = cancel;
          send_dont_have = send_dont_have;
        } in
        (record m { wantlist = insert c e m.wantlist }, size e)
  ]

  pub add_entry :
      (Entry Cid → ℕ)
      → Message Cid Block Addr
      → Cid
      → ℤ
      → WantType
      → Bool
      → Message Cid Block Addr × ℕ
  unfolding add_entry_with
  add_entry size m c priority t send_dont_have =
      add_entry_with size m c priority false t send_dont_have

  pub cancel_entry : (Entry Cid → ℕ) → Message Cid Block Addr → Cid → Message Cid Block Addr × ℕ
  unfolding add_entry_with
  cancel_entry size m c = add_entry_with size m c (pos 0) true WantType.block false

  -- the end of `addForwardEntry`
  pub create_forward :
      (Entry Cid → ℕ) → Message Cid Block Addr → Cid → ℤ → Bool → Message Cid Block Addr × ℕ
  create_forward size m c priority cancel =
      let fresh : Entry Cid = record {
        entry = record { cid = c; priority = priority; want_type = WantType.forward };
        cancel = cancel;
        send_dont_have = true;
      } in
      (record m { forwardlist = insert c fresh m.forwardlist }, size fresh)

  pub add_forward_entry_with :
      (Entry Cid → ℕ) → Message Cid Block Addr → Cid → ℤ → Bool → Message Cid Block Addr × ℕ
  unfolding create_forward
  add_forward_entry_with size m c priority cancel = elim (lookup c m.forwardlist) [
    | none ↦ create_forward size m c priority cancel
    | some e ↦
        if same_flag e.cancel cancel
        then create_forward size m c priority cancel
        else (record m { forwardlist = insert c (record e { cancel = cancel }) m.forwardlist }, 0)
  ]

  pub add_forward_entry :
      (Entry Cid → ℕ) → Message Cid Block Addr → Cid → ℤ → Message Cid Block Addr × ℕ
  unfolding add_forward_entry_with
  add_forward_entry size m c priority = add_forward_entry_with size m c priority false

  pub cancel_forward : (Entry Cid → ℕ) → Message Cid Block Addr → Cid → Message Cid Block Addr × ℕ
  unfolding add_forward_entry_with
  cancel_forward size m c = add_forward_entry_with size m c (pos 0) true

  -- The block's CID is given beside it.
  pub add_block : Message Cid Block Addr → Cid → Block → Message Cid Block Addr
  add_block m c b = record m {
    block_presences = delete c m.block_presences;
    blocks = insert c b m.blocks;
  }

  pub add_block_presence : Message Cid Block Addr → Cid → PresenceType → Message Cid Block Addr
  add_block_presence m c t =
      if has_key c m.blocks then m else record m { block_presences = insert c t m.block_presences }

  pub add_have : Message Cid Block Addr → Cid → Message Cid Block Addr
  unfolding add_block_presence
  add_have m c = add_block_presence m c PresenceType.present

  pub add_dont_have : Message Cid Block Addr → Cid → Message Cid Block Addr
  unfolding add_block_presence
  add_dont_have m c = add_block_presence m c PresenceType.absent

  pub add_forward_have : Message Cid Block Addr → Cid → List Addr → Message Cid Block Addr
  add_forward_have m c ps = record m {
    block_presences_peers =
        insert c (or_default [] (lookup c m.block_presences_peers) ++ ps) m.block_presences_peers;
  }
