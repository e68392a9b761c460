-- ===== src/Message/Calls.antt =====
-- Sequences of calls on a message.
use boxo.Base.{ℕ, Bool, true, false, List, [], ◌∷◌, Key, same, if◌then◌else◌}
use boxo.Base.Int.{ℤ}
use boxo.Wire.{WantType, PresenceType}
use boxo.Message.{
  Entry, Message, reset, add_entry, cancel_entry, add_forward_entry, cancel_forward, remove,
  remove_forward, add_block, add_block_presence, add_forward_have,
}

pub data Call (Cid Block Addr : Type 0) : Type 0 where
  entry_call : Cid → ℤ → WantType → Bool → Call Cid Block Addr
  cancel_call : Cid → Call Cid Block Addr
  forward_call : Cid → ℤ → Call Cid Block Addr
  cancel_forward_call : Cid → Call Cid Block Addr
  remove_call remove_forward_call : Cid → Call Cid Block Addr
  block_call : Cid → Block → Call Cid Block Addr
  reset_call : Bool → Call Cid Block Addr
  presence_call : Cid → PresenceType → Call Cid Block Addr
  forward_have_call : Cid → List Addr → Call Cid Block Addr

module _ {Cid Block Addr : Type 0} ⦃key : Key Cid⦄ where
  -- whether the call is a Remove of the CID or a Reset
  unfoldable pub removes : Cid → Call Cid Block Addr → Bool
  removes c (remove_call d) = same d c
  removes c (reset_call full) = true
  removes c _ = false

  unfoldable pub none_removes : Cid → List (Call Cid Block Addr) → Bool
  unfolding removes
  none_removes c [] = true
  none_removes c (call ∷ calls) = if removes c call then false else none_removes c calls

  unfoldable pub step :
      (Entry Cid → ℕ) → Message Cid Block Addr → Call Cid Block Addr → Message Cid Block Addr
  step size m (entry_call c p t d) = (add_entry size m c p t d).0
  step size m (cancel_call c) = (cancel_entry size m c).0
  step size m (forward_call c p) = (add_forward_entry size m c p).0
  step size m (cancel_forward_call c) = (cancel_forward size m c).0
  step size m (remove_call c) = remove m c
  step size m (remove_forward_call c) = remove_forward m c
  step size m (block_call c b) = add_block m c b
  step size m (reset_call full) = reset m full
  step size m (presence_call c t) = add_block_presence m c t
  step size m (forward_have_call c ps) = add_forward_have m c ps

  unfoldable pub run :
      (Entry Cid → ℕ) → Message Cid Block Addr → List (Call Cid Block Addr) → Message Cid Block Addr
  unfolding step
  run size m [] = m
  run size m (call ∷ calls) = run size (step size m call) calls
