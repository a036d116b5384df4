-- ===== src/Reconfig/Changes.antt =====
-- What the members of a cluster agree on in the reconfiguration of src/hotstuff.cpp, read off the
-- messages: which node leaves or comes back, and when.
use ava_hotstuff.Prelude.{
  ◌+◌, ◌≡◌, refl, Bool, true, false, ◌&&◌, none, some, List, [], ◌∷◌, ◌++◌, ◌==◌, get_elem?,
  if◌then◌else◌,
}
use ava_hotstuff.Entity.Config.{PeerId}
use ava_hotstuff.Core.Messages.{Recs}
use ava_hotstuff.Reconfig.{Site, my_ready, tally}
use ava_hotstuff.Reconfig.Run.{Input, phase, react}

pub data Change : Type 0 where
  gone back : PeerId → Change

-- What a request asks for.
abbrev pub asked : Recs → List PeerId → List Change
asked r nodes = elim (get_elem? nodes r.node_number) [
  | none ↦ []
  | some peer ↦
      if r.reconfig_mode == 1
      then gone peer ∷ []
      else if r.reconfig_mode == 0
      then back peer ∷ []
      else []
]

-- A request is agreed on by the READY that makes its number a majority.
abbrev pub agreed : Input → Site → List Change
agreed (phase type r count) s =
    if type == my_ready && tally count s.reconfig_ready_counter + 1 == s.config.nmajority
    then asked r s.all_peers
    else []
agreed _ s = []

abbrev pub agreed_all : List Input → Site → List Change
agreed_all [] s = []
agreed_all (i ∷ is) s = agreed i s ++ elim (react i s) [ none ↦ [] | some t ↦ agreed_all is t ]

-- Whether a peer is away after changes; the last one of it decides.
abbrev pub is_away : PeerId → Bool → List Change → Bool
is_away p away [] = away
is_away p away (gone q ∷ cs) = is_away p (if q == p then true else away) cs
is_away p away (back q ∷ cs) = is_away p (if q == p then false else away) cs

pub is_away-append :
    (p : PeerId) (away : Bool) (cs ds : List Change)
    → is_away p away (cs ++ ds) ≡ is_away p (is_away p away cs) ds
is_away-append p away [] ds = refl
is_away-append p away (gone q ∷ cs) ds = is_away-append p (if q == p then true else away) cs ds
is_away-append p away (back q ∷ cs) ds = is_away-append p (if q == p then false else away) cs ds

-- Some of the elements, in their order.
pub data Among : List PeerId → List PeerId → Type 0 where
  none_of : Among [] []
  keeps : {p : PeerId} {ps qs : List PeerId} → Among ps qs → Among (p ∷ ps) (p ∷ qs)
  drops : {q : PeerId} {ps qs : List PeerId} → Among ps qs → Among ps (q ∷ qs)
