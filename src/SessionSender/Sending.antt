-- ===== src/SessionSender/Sending.antt =====
-- Which wants are sent to which peers, in bitswap/client/internal/session/sessionwantsender.go. `S` is
-- cid.Set.
use boxo.Base.{
  not, ◌&&◌, Option, none, some, List, [], ◌∷◌, ◌++◌, Key, if◌then◌else◌, or_default, is_some,
  select, ◌==◌,
}
use boxo.Base.Map.{Map, keys, lookup, insert, modify}
use boxo.Base.Sets.{SetOps}
use boxo.SessionSender.{WantInfo, Sender, Effect, sends_wants, on_send, WantSets}
use boxo.SessionSender.Trackers.{add_sent_want_blocks_to, have_sent_want_block_to}
use boxo.SessionSender.Infos.{rank, presence_of}

module _ {Cid S : Type 0} ⦃ck : Key Cid⦄ ⦃sets : SetOps Cid S⦄ where
  unfoldable pub add_all : S → List Cid → S
  add_all s [] = s
  add_all s (c ∷ cs) = add_all (sets.add s c) cs

module _ {Peer S : Type 0} ⦃pk : Key Peer⦄ where
  -- `allWants.forPeer`, with the empty set; the sets it makes are stored by the operations below.
  unfoldable pub for_peer : S → Map Peer (WantSets S) → Peer → WantSets S
  for_peer empty aw p =
      or_default (record { want_blocks = empty; want_haves = empty }) (lookup p aw)

module _ {Cid Peer S : Type 0} ⦃ck : Key Cid⦄ ⦃pk : Key Peer⦄ ⦃sets : SetOps Cid S⦄ where
  -- `toSend.forPeer(p).wantBlocks.Add(c)`
  unfoldable pub plan_block : Peer → Cid → Map Peer (WantSets S) → Map Peer (WantSets S)
  unfolding for_peer
  plan_block p c aw =
      let snd = for_peer sets.empty aw p in
      insert p (record snd { want_blocks = sets.add snd.want_blocks c }) aw

  -- the loops `toSend.forPeer(p).wantHaves.Add(c)`
  unfoldable pub plan_haves : List Peer → Cid → Map Peer (WantSets S) → Map Peer (WantSets S)
  unfolding for_peer
  plan_haves [] c aw = aw
  plan_haves (p ∷ ps) c aw =
      let snd = for_peer sets.empty aw p in
      plan_haves ps c (insert p (record snd { want_haves = sets.add snd.want_haves c }) aw)

module _ {Peer : Type 0} ⦃pk : Key Peer⦄ where
  -- The receiver of the want-block: the one before, unless it does not have the block.
  unfoldable pub next_receiver : Option Peer → WantInfo Peer → Option Peer
  unfolding presence_of
  next_receiver receiver wi = elim receiver [
    | none ↦ wi.best_peer
    | some r ↦ if rank (presence_of r wi.block_presence) == 0 then wi.best_peer else some r
  ]

  unfoldable pub set_sent_to : Peer → WantInfo Peer → WantInfo Peer
  set_sent_to p wi = record wi { sent_to = some p }

module _ {Cid Peer S : Type 0} ⦃ck : Key Cid⦄ ⦃pk : Key Peer⦄ ⦃sets : SetOps Cid S⦄ where
  -- The turn of the loop of `sendNextWants` for a want that no peer was asked for.
  unfoldable pub send_block :
      Cid
      → WantInfo Peer
      → Sender Cid Peer
      → Map Peer (WantSets S)
      → Sender Cid Peer × Map Peer (WantSets S)
  unfolding next_receiver set_sent_to plan_block
  send_block c wi s aw = elim (next_receiver s.want_receiver wi) [
    | none ↦ (s, aw)
    | some r ↦ (
      record s { want_receiver = some r; wants = modify c (set_sent_to r) s.wants },
      plan_block r c aw,
    )
  ]

  -- one turn of the loop of `sendNextWants`
  unfoldable pub send_next :
      List Peer
      → Cid
      → Sender Cid Peer
      → Map Peer (WantSets S)
      → Sender Cid Peer × Map Peer (WantSets S)
  unfolding plan_haves send_block
  send_next newly c s aw = elim (lookup c s.wants) [
    | none ↦ (s, aw)
    | some wi ↦
        if s.proxy
        then (s, plan_haves s.peers.peers c (plan_haves newly c aw))
        else if is_some wi.sent_to
        then (s, aw)
        else send_block c wi s aw
  ]

  unfoldable pub send_each :
      List Peer
      → List Cid
      → Sender Cid Peer
      → Map Peer (WantSets S)
      → Sender Cid Peer × Map Peer (WantSets S)
  unfolding send_next
  send_each newly [] s aw = (s, aw)
  send_each newly (c ∷ cs) s aw =
      let (s', aw') = send_next newly c s aw in send_each newly cs s' aw'

  unfoldable pub get_piggyback_want_haves : Peer → S → Sender Cid Peer → List Cid
  unfolding have_sent_want_block_to
  get_piggyback_want_haves p blocks s =
      select (λ c. not (sets.has blocks c) && not (have_sent_want_block_to s.sent_want_blocks p c))
        (keys s.wants)

  -- one turn of the loop of `sendWants`
  unfoldable pub send_to :
      Peer → WantSets S → Sender Cid Peer → Sender Cid Peer × List (Effect Cid Peer)
  unfolding get_piggyback_want_haves add_all add_sent_want_blocks_to
  send_to p snd s =
      let blocks = sets.keys snd.want_blocks in
      let haves =
        sets.keys (add_all snd.want_haves (get_piggyback_want_haves p snd.want_blocks s)) in
      (
        record s { sent_want_blocks = add_sent_want_blocks_to s.sent_want_blocks p blocks },
        sends_wants p blocks haves ∷ on_send p blocks haves ∷ [],
      )

  unfoldable pub send_wants :
      Map Peer (WantSets S) → Sender Cid Peer → Sender Cid Peer × List (Effect Cid Peer)
  unfolding send_to
  send_wants [] s = (s, [])
  send_wants ((p, snd) ∷ sends) s =
      let (s1, es1) = send_to p snd s in let (s2, es2) = send_wants sends s1 in (s2, es1 ++ es2)

module _ {Cid Peer : Type 0} (S : Type 0) ⦃ck : Key Cid⦄ ⦃pk : Key Peer⦄ ⦃sets : SetOps Cid S⦄ where
  unfoldable pub send_next_wants :
      List Peer → Sender Cid Peer → Sender Cid Peer × List (Effect Cid Peer)
  unfolding send_each send_wants
  send_next_wants newly s =
      let (s', aw) = send_each {S = S} newly (keys s.wants) s [] in send_wants aw s'
