-- ===== src/Wire.antt =====
-- The enumerations of the wire format, bitswap/message/pb/message.pb.go.
use boxo.Base.{Bool, true, false}

-- `Message_Wantlist_WantType`
pub data WantType : Type 0 where
  block have forward : WantType

-- `Message_BlockPresenceType`
pub data PresenceType : Type 0 where
  present absent forwarded : PresenceType

-- Go's `==` on the two enumerations.
abbrev pub is_block : WantType → Bool
is_block WantType.block = true
is_block _ = false

abbrev pub is_have : WantType → Bool
is_have WantType.have = true
is_have _ = false

abbrev pub same_type : WantType → WantType → Bool
same_type WantType.block WantType.block = true
same_type WantType.have WantType.have = true
same_type WantType.forward WantType.forward = true
same_type _ _ = false

abbrev pub same_presence : PresenceType → PresenceType → Bool
same_presence PresenceType.present PresenceType.present = true
same_presence PresenceType.absent PresenceType.absent = true
same_presence PresenceType.forwarded PresenceType.forwarded = true
same_presence _ _ = false

-- Go's `==` on Booleans.
abbrev pub same_flag : Bool → Bool → Bool
same_flag true b = b
same_flag false true = false
same_flag false false = true
