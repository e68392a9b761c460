-- ===== src/Relay.antt =====
-- bitswap/relaymanager/relaymanager.go: want-forwards are relayed to one more peer or turned into a
-- proxy session, and forward-haves find their way back. Each call is one step, as under the lock.
pub mod Routes
pub mod Return
pub mod History
mod Tests
use boxo.Base.{
  Bool, true, false, Option, none, some, List, [], ◌∷◌, ◌++◌, Key, same, if◌then◌else◌, or_default,
}
use boxo.Base.Map.{Map, lookup, values}
use boxo.Base.Nested.{get2, put2, ensure, inner}

-- What a call makes the forwarder, the tagger and the session factory do, in order.
pub data Effect (Cid Peer Addr : Type 0) : Type 0 where
  protect unprotect : Peer → Cid → Effect Cid Peer Addr
  forward_wants : Cid → List Peer → Effect Cid Peer Addr
  forward_wants_to : Cid → Peer → Effect Cid Peer Addr
  forward_haves : Peer → Cid → List Addr → Effect Cid Peer Addr
  -- `addProxyDistance`, `CreateProxySession` and `GetBlocks`, for the peer that asked
  proxy_session : Peer → Cid → Effect Cid Peer Addr

-- What the world answers while one CID is processed: whether the random number is at most the
-- transition probability, the peer that `ForwardWants` chose outside the excluded ones (`none` for
-- an error), and whether `ForwardWantsTo` fails.
pub record Answers (Peer : Type 0) : Type 0 where
  pub transits : Bool
  pub forwarded : List Peer → Option Peer
  pub resend_fails : Peer → Bool

pub record RelayManager (Cid Peer : Type 0) : Type 0 where
  pub self : Peer
  -- CID, want source, relayed to
  pub from_map : Map Cid (Map Peer Peer)
  -- CID, want source, proxied
  pub proxy_map : Map Cid (Map Peer Bool)
  -- CID, relayed to, want source
  pub to_map : Map Cid (Map Peer Peer)

module _ {Cid Peer : Type 0} where
  pub new : Peer → RelayManager Cid Peer
  new self = record { self = self; from_map = []; proxy_map = []; to_map = [] }

module _ {Cid Peer : Type 0} ⦃ck : Key Cid⦄ ⦃pk : Key Peer⦄ where
  -- the three inner maps of a CID, made if they are missing
  pub prepare : RelayManager Cid Peer → Cid → RelayManager Cid Peer
  prepare rm c = record rm {
    from_map = ensure c rm.from_map;
    proxy_map = ensure c rm.proxy_map;
    to_map = ensure c rm.to_map;
  }

  -- the peers that a want-forward for the CID was already sent to
  pub already_sent_to : RelayManager Cid Peer → Cid → List Peer
  already_sent_to rm c = values (inner c rm.from_map)

  pub note_route : RelayManager Cid Peer → Cid → Peer → Peer → RelayManager Cid Peer
  note_route rm c source to = record rm {
    from_map = put2 c source to rm.from_map;
    to_map = put2 c to source rm.to_map;
  }

module _ {Cid Peer Addr : Type 0} ⦃ck : Key Cid⦄ ⦃pk : Key Peer⦄ where
  -- `startProxyPhase`, and the mark that follows each call of it
  pub start_proxy_phase :
      RelayManager Cid Peer → Peer → Cid → RelayManager Cid Peer × List (Effect Cid Peer Addr)
  start_proxy_phase rm sender c =
      (record rm { proxy_map = put2 c sender true rm.proxy_map }, proxy_session sender c ∷ [])

  -- a CID that was relayed for the same source before: to the same receiver again
  pub relay_again :
      RelayManager Cid Peer
      → Peer
      → Cid
      → Peer
      → Answers Peer
      → RelayManager Cid Peer × List (Effect Cid Peer Addr)
  unfolding start_proxy_phase
  relay_again rm source c to a =
      let (rm', started) = start_proxy_phase rm source c in
      if a.resend_fails to
      then (rm', forward_wants_to c to ∷ started)
      else (rm, forward_wants_to c to ∷ [])

  -- a CID that is new for the source, and not proxied by chance
  pub relay_further :
      RelayManager Cid Peer
      → Peer
      → Cid
      → Answers Peer
      → RelayManager Cid Peer × List (Effect Cid Peer Addr)
  unfolding start_proxy_phase already_sent_to note_route
  relay_further rm source c a =
      let excludes = source ∷ already_sent_to rm c in
      let (rm', started) = start_proxy_phase rm source c in
      elim (a.forwarded excludes) [
        | none ↦ (rm', forward_wants c excludes ∷ started)
        | some to ↦ (note_route rm c source to, forward_wants c excludes ∷ [])
      ]

  -- the body of the loop of `ProcessForwards`, after the protection of the connection
  pub choose_phase :
      RelayManager Cid Peer
      → Peer
      → Cid
      → Answers Peer
      → RelayManager Cid Peer × List (Effect Cid Peer Addr)
  unfolding relay_again relay_further start_proxy_phase
  choose_phase rm source c a =
      if or_default false (get2 c source rm.proxy_map)
      then (rm, [])
      else elim (get2 c source rm.from_map) [
        | some to ↦ relay_again rm source c to a
        | none ↦ if a.transits then start_proxy_phase rm source c else relay_further rm source c a
      ]

  pub process_forward :
      RelayManager Cid Peer
      → Peer
      → Cid
      → Answers Peer
      → RelayManager Cid Peer × List (Effect Cid Peer Addr)
  unfolding prepare choose_phase
  process_forward rm source c a =
      let (rm', effects) = choose_phase (prepare rm c) source c a in
      (rm', protect source c ∷ effects)

  -- `ProcessForwards`: the tracker's CIDs, each with the answers of the world at its time.
  pub process_forwards :
      RelayManager Cid Peer
      → Peer
      → List (Cid × Answers Peer)
      → RelayManager Cid Peer × List (Effect Cid Peer Addr)
  unfolding process_forward
  process_forwards rm source [] = (rm, [])
  process_forwards rm source ((c, a) ∷ cs) =
      let (rm', effects) = process_forward rm source c a in
      let (rm'', more) = process_forwards rm' source cs in (rm'', effects ++ more)

  -- `RelayHaves`
  pub relay_haves : Peer → Cid → List Addr → List (Effect Cid Peer Addr)
  relay_haves to c providers = forward_haves to c providers ∷ unprotect to c ∷ []

  -- The callback of a proxy session for `c` and `return_to`. No provider stands for one with an
  -- empty ID, and no received CID for an undefined one.
  pub proxy_discovery :
      RelayManager Cid Peer
      → Peer
      → Cid
      → Option Addr
      → Option Cid
      → Bool
      → RelayManager Cid Peer × List (Effect Cid Peer Addr)
  unfolding relay_haves
  proxy_discovery rm return_to c provider received session_closed =
      let rm₁ = record rm { proxy_map = ensure c rm.proxy_map } in
      let rm₂ =
        if session_closed
        then record rm₁ { proxy_map = put2 c return_to false rm₁.proxy_map }
        else rm₁ in
      (
        rm₂,
        elim provider [
          | none ↦ []
          | some p ↦ elim received [
            | none ↦ []
            | some k ↦ if same k c then relay_haves return_to c (p ∷ []) else []
          ]
        ],
      )

  -- the body of the loop of `ProcessForwardHaves`, for one CID
  pub return_haves : RelayManager Cid Peer → Peer → Cid → List Addr → List (Effect Cid Peer Addr)
  unfolding relay_haves
  return_haves rm sender c providers = elim (get2 c sender rm.to_map) [
    | none ↦ []
    | some source ↦ if same source rm.self then [] else relay_haves source c providers
  ]

  pub process_forward_haves :
      RelayManager Cid Peer → Peer → Map Cid (List Addr) → List (Effect Cid Peer Addr)
  unfolding return_haves
  process_forward_haves rm sender [] = []
  process_forward_haves rm sender ((c, providers) ∷ haves) =
      return_haves rm sender c providers ++ process_forward_haves rm sender haves

  -- `ForwardSearch`, of this peer's own session; false for an error.
  pub forward_search :
      RelayManager Cid Peer
      → Cid
      → Answers Peer
      → RelayManager Cid Peer × List (Effect Cid Peer Addr) × Bool
  unfolding prepare already_sent_to note_route
  forward_search rm c a =
      let rm' = prepare rm c in
      let excludes = already_sent_to rm' c in
      elim (a.forwarded excludes) [
        | none ↦ (rm', forward_wants c excludes ∷ [], false)
        | some to ↦ (note_route rm' c rm'.self to, forward_wants c excludes ∷ [], true)
      ]
