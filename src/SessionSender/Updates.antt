-- ===== src/SessionSender/Updates.antt =====
-- `processUpdates` of bitswap/client/internal/session/sessionwantsender.go: the blocks, DONT_HAVEs and
-- HAVEs that arrived. `S` is cid.Set.
use boxo.Base.{
  ◌+◌, Bool, false, not, ◌||◌, none, List, [], ◌∷◌, ◌++◌, Key, if◌then◌else◌, or_default, select,
  ◌==◌,
}
use boxo.Base.Map.{keys, lookup, insert, delete, has_key, modify}
use boxo.Base.Nested.{is_empty}
use boxo.Base.Sets.{SetOps, insert_key, without}
use boxo.BlockPresence.{peer_has_block}
use boxo.SessionPeers
use boxo.SessionSender.{
  WantInfo, Sender, Effect, tells, prunes, Update, Floats, World, peer_dont_have_limit,
}
use boxo.SessionSender.Trackers.{received_block_from, have_sent_want_block_to}
use boxo.SessionSender.Infos.{is_sent_to}
use boxo.SessionSender.Wants.{reset_count, update_want_block_presence}

-- The variables of the first loop.
pub record Received (Cid Peer S : Type 0) : Type 0 where
  pub sender : Sender Cid Peer
  pub blocks : S
  pub effects : List (Effect Cid Peer)

-- The variables of the other loops.
pub record Answers (Cid Peer S : Type 0) : Type 0 where
  pub sender : Sender Cid Peer
  pub dont_haves : S
  pub prune_peers : List Peer

module _ {Peer : Type 0} ⦃pk : Key Peer⦄ where
  -- `if sentTo == upd.from { setWantSentTo(c, "") }`
  unfoldable pub clear_sent_to : Peer → WantInfo Peer → WantInfo Peer
  unfolding is_sent_to
  clear_sent_to p wi = if is_sent_to p wi then record wi { sent_to = none } else wi

module _ {Cid Peer : Type 0} ⦃ck : Key Cid⦄ ⦃pk : Key Peer⦄ where
  -- `removeWant` and what follows if the block was wanted
  unfoldable pub remove_want : Peer → Cid → Sender Cid Peer → Sender Cid Peer
  unfolding received_block_from
  remove_want p c s =
      if has_key c s.wants
      then record s {
        wants = delete c s.wants;
        first_responder = received_block_from p s.first_responder;
      }
      else s

  unfoldable pub protect_sender : Peer → Cid → Sender Cid Peer → List (Effect Cid Peer)
  protect_sender p c s =
      if has_key c s.wants then tells (SessionPeers.protect_connection s.peers p) ∷ [] else []

  -- the case of a DONT_HAVE from a peer that was sent a want-block
  unfoldable pub stop_waiting : Peer → Cid → Sender Cid Peer → Sender Cid Peer
  unfolding have_sent_want_block_to clear_sent_to
  stop_waiting p c s =
      if have_sent_want_block_to s.sent_want_blocks p c
      then record s { wants = modify c (clear_sent_to p) s.wants }
      else s

module _ {Cid Peer S : Type 0} ⦃ck : Key Cid⦄ ⦃pk : Key Peer⦄ ⦃sets : SetOps Cid S⦄ where
  unfoldable pub receive_block : Peer → Cid → Received Cid Peer S → Received Cid Peer S
  unfolding remove_want protect_sender reset_count
  receive_block p c r = record {
    sender = reset_count p (remove_want p c r.sender);
    blocks = sets.add r.blocks c;
    effects = r.effects ++ protect_sender p c r.sender;
  }

  unfoldable pub receive_blocks : Peer → List Cid → Received Cid Peer S → Received Cid Peer S
  unfolding receive_block
  receive_blocks p [] r = r
  receive_blocks p (c ∷ cs) r = receive_blocks p cs (receive_block p c r)

  unfoldable pub receive_all : List (Update Cid Peer) → Received Cid Peer S → Received Cid Peer S
  unfolding receive_blocks
  receive_all [] r = r
  receive_all (u ∷ us) r = receive_all us (receive_blocks u.from u.received r)

  -- the count of consecutive DONT_HAVEs, or the limit reached
  unfoldable pub count_dont_have : Peer → Answers Cid Peer S → Answers Cid Peer S
  unfolding insert_key
  count_dont_have p a =
      let n = or_default 0 (lookup p a.sender.consecutive_dont_haves) in
      if n == peer_dont_have_limit
      then record a { prune_peers = insert_key p a.prune_peers }
      else record a {
        sender = record a.sender {
          consecutive_dont_haves = insert p (n + 1) a.sender.consecutive_dont_haves;
        };
      }

module _ {Cid Peer S F : Type 0} ⦃ck : Key Cid⦄ ⦃pk : Key Peer⦄ ⦃sets : SetOps Cid S⦄
    ⦃fl : Floats F⦄ where
  unfoldable pub receive_dont_have :
      World Cid Peer F → S → Peer → Cid → Answers Cid Peer S → Answers Cid Peer S
  unfolding count_dont_have update_want_block_presence stop_waiting
  receive_dont_have w blocks p c a =
      let a' = count_dont_have p a in
      if sets.has blocks c then a' else record a' {
        dont_haves = sets.add a'.dont_haves c;
        sender = stop_waiting p c (update_want_block_presence w c p a'.sender);
      }

  unfoldable pub receive_dont_haves :
      World Cid Peer F → S → Peer → List Cid → Answers Cid Peer S → Answers Cid Peer S
  unfolding receive_dont_have
  receive_dont_haves w blocks p [] a = a
  receive_dont_haves w blocks p (c ∷ cs) a =
      receive_dont_haves w blocks p cs (receive_dont_have w blocks p c a)

  unfoldable pub all_dont_haves :
      World Cid Peer F → S → List (Update Cid Peer) → Answers Cid Peer S → Answers Cid Peer S
  unfolding receive_dont_haves
  all_dont_haves w blocks [] a = a
  all_dont_haves w blocks (u ∷ us) a =
      all_dont_haves w blocks us (receive_dont_haves w blocks u.from u.dont_haves a)

  unfoldable pub receive_have :
      World Cid Peer F → S → Peer → Cid → Answers Cid Peer S → Answers Cid Peer S
  unfolding update_want_block_presence reset_count without
  receive_have w blocks p c a = record a {
    sender =
        reset_count p
          (if sets.has blocks c then a.sender else update_want_block_presence w c p a.sender);
    prune_peers = without p a.prune_peers;
  }

  unfoldable pub receive_haves :
      World Cid Peer F → S → Peer → List Cid → Answers Cid Peer S → Answers Cid Peer S
  unfolding receive_have
  receive_haves w blocks p [] a = a
  receive_haves w blocks p (c ∷ cs) a = receive_haves w blocks p cs (receive_have w blocks p c a)

  unfoldable pub all_haves :
      World Cid Peer F → S → List (Update Cid Peer) → Answers Cid Peer S → Answers Cid Peer S
  unfolding receive_haves
  all_haves w blocks [] a = a
  all_haves w blocks (u ∷ us) a = all_haves w blocks us (receive_haves w blocks u.from u.haves a)

module _ {Cid Peer : Type 0} where
  -- the goroutine that signals the peers as unavailable
  unfoldable pub prune : List Peer → List (Effect Cid Peer)
  prune ps = if is_empty ps then [] else prunes ps ∷ []

module _ {Cid Peer F : Type 0} ⦃ck : Key Cid⦄ ⦃pk : Key Peer⦄ where
  -- whether the peer has one of the wanted blocks
  unfoldable pub has_wanted : World Cid Peer F → Peer → List Cid → Bool
  has_wanted w p [] = false
  has_wanted w p (c ∷ cs) = peer_has_block w.bpm p c || has_wanted w p cs

  -- the peers left to prune
  unfoldable pub to_prune : World Cid Peer F → Sender Cid Peer → List Peer → List Peer
  unfolding has_wanted
  to_prune w s ps = select (λ p. not (has_wanted w p (keys s.wants))) ps

module _ {Cid Peer F : Type 0} (S : Type 0) ⦃ck : Key Cid⦄ ⦃pk : Key Peer⦄ ⦃sets : SetOps Cid S⦄
    ⦃fl : Floats F⦄ where
  unfoldable pub process_updates :
      World Cid Peer F
      → List (Update Cid Peer)
      → Sender Cid Peer
      → Sender Cid Peer × List Cid × List (Effect Cid Peer)
  unfolding receive_all all_dont_haves all_haves to_prune prune
  process_updates w us s =
      let r = receive_all us (record { sender = s; blocks = sets.empty; effects = [] }) in
      let a = all_haves w r.blocks us (
        all_dont_haves w r.blocks us
          (record { sender = r.sender; dont_haves = sets.empty; prune_peers = [] })) in
      (a.sender, sets.keys a.dont_haves, r.effects ++ prune (to_prune w a.sender a.prune_peers))
