-- ===== src/Reconfig/Current.antt =====
-- The steps of the reconfiguration in src/hotstuff.cpp that keep the current peers as they are.
use ava_hotstuff.Reconfig.Changes.{Change, is_away, Among, none_of, keeps, drops}
use ava_hotstuff.Prelude.{
  Bool-cases, inl, inr, not, ◌&&◌, has, ap, ◌==◌, ==_iff, ℕ, zero, suc, ◌+◌, ◌-◌, ◌/◌, ◌<◌, ◌≡◌,
  refl, Option, some, List, [], ◌∷◌, arith, length, get_elem?,
}
use ava_hotstuff.Entity.Config.{PeerId, update_config_parameters}
use ava_hotstuff.Core.Messages.{Recs}
use ava_hotstuff.Reconfig.{
  Site, multicast, send_one, my_ready, send, count_echo, count_ready, count_recs, start_agreement,
  on_counted_recs, on_recs, acknowledge, on_agg, send_ready, staying, refresh, get_leave_set,
}

-- The current peers are those that have not left, in their order, and the configuration is of them
-- and of oneself.
pub record IsCurrent (s : Site) : Type 0 where
  pub members : (p : PeerId) → has p s.peers_current ≡ (has p s.peers && not (has p s.leave_set))
  pub in_order : Among s.peers_current s.peers
  pub nreplicas : s.config.nreplicas ≡ length s.peers_current + 1
  pub nmajority : s.config.nmajority ≡ length s.peers_current + 1 - length s.peers_current / 3

pub get_elem?_lt :
    {A : Type 0} (xs : List A) (i : ℕ) → i < length xs → (a : A) × (get_elem? xs i ≡ some a)
get_elem?_lt [] i h = absurd (omega arith)
get_elem?_lt (x ∷ xs) zero h = (x, refl)
get_elem?_lt (x ∷ xs) (suc i) h = get_elem?_lt xs i (omega arith)

-- What a step leaves that makes these changes: an access in range, and current peers among the same
-- nodes.
pub record Stays (s : Site) (cs : List Change) (o : Option Site) : Type 0 where
  pub next : Site
  pub returned : o ≡ some next
  pub kept : IsCurrent next
  pub same_nodes : next.all_peers ≡ s.all_peers
  pub same_names : next.peers ≡ s.peers
  pub left : (p : PeerId) → has p next.leave_set ≡ is_away p (has p s.leave_set) cs

has-staying :
    (p : PeerId) (gone ps : List PeerId) → has p (staying gone ps) ≡ (has p ps && not (has p gone))
unfolding staying has
has-staying p gone [] = refl
has-staying p gone (q ∷ ps) = elim (Bool-cases (p == q)) [
  | inl e ↦
      let same = (==_iff p q).0 e in
      elim (Bool-cases (has q gone)) [
        | inl g ↦ ground (arith, has-staying p gone ps, g, ap (λ x. has x gone) same)
        | inr g ↦ ground (arith, has-staying p gone ps, g, ap (λ x. has x gone) same)
      ]
  | inr e ↦ ground (arith, has-staying p gone ps, e)
]

staying-Among : (gone ps : List PeerId) → Among (staying gone ps) ps
unfolding staying
staying-Among gone [] = none_of
staying-Among gone (p ∷ ps) = elim (Bool-cases (has p gone)) [
  | inl e ↦ rw e (drops (staying-Among gone ps))
  | inr e ↦ rw e (keeps (staying-Among gone ps))
]

pub refresh-IsCurrent : (s : Site) → IsCurrent (refresh s)
unfolding refresh update_config_parameters
refresh-IsCurrent s = record {
  members = λ p. has-staying p s.leave_set s.peers;
  in_order = staying-Among s.leave_set s.peers;
  nreplicas = refl;
  nmajority = refl;
}

-- A step that keeps the peers, the leave set and the configuration.
pub record Same (s t : Site) : Type 0 where
  pub same_config : t.config ≡ s.config
  pub same_peers : t.peers ≡ s.peers
  pub same_current : t.peers_current ≡ s.peers_current
  pub same_leave_set : t.leave_set ≡ s.leave_set
  pub same_all_peers : t.all_peers ≡ s.all_peers

pub Same-IsCurrent : (s t : Site) → IsCurrent s → Same s t → IsCurrent t
Same-IsCurrent s t k e = record {
  members = λ p. rw (e.same_current, e.same_leave_set, e.same_peers) (k.members p);
  in_order = rw (e.same_current, e.same_peers) k.in_order;
  nreplicas = rw (e.same_config, e.same_current) k.nreplicas;
  nmajority = rw (e.same_config, e.same_current) k.nmajority;
}

pub Same-Stays : (s t : Site) → IsCurrent s → Same s t → Stays s [] (some t)
Same-Stays s t k e = record {
  next = t;
  returned = refl;
  kept = Same-IsCurrent s t k e;
  same_nodes = e.same_all_peers;
  same_names = e.same_peers;
  left = λ p. ap (has p) e.same_leave_set;
}

pub on_recs-Same : (p : ℕ) (r : Recs) (s : Site) → Same s (on_recs p r s)
unfolding on_recs on_counted_recs count_recs start_agreement send count_echo
on_recs-Same p r s = ground arith

pub acknowledge-Same : (p : ℕ) (r : Recs) (s : Site) → Same s (acknowledge p r s)
unfolding acknowledge count_recs send
acknowledge-Same p r s = ground arith

pub on_agg-Same : (r : Recs) (count : ℕ) (s : Site) → Same s (on_agg r count s)
unfolding on_agg count_echo send
on_agg-Same r count s = ground arith

pub get_leave_set-Same : (s : Site) → Same s (get_leave_set s).1
unfolding get_leave_set
get_leave_set-Same s = ground arith

ready_sent-Same :
    (r : Recs) (count : ℕ) (peer : PeerId) (s : Site)
    → Same s (
        count_ready count (
          send
            (send_one my_ready r count peer)
            (send (multicast my_ready r count s.peers_current) s)))
unfolding count_ready send
ready_sent-Same r count peer s = ground arith

pub send_ready-Stays :
    (r : Recs) (count : ℕ) (s : Site)
    → IsCurrent s
    → r.node_number < length s.all_peers
    → Stays s [] (send_ready r count s)
unfolding send_ready
send_ready-Stays r count s k named =
    let (peer, e) = get_elem?_lt s.all_peers r.node_number named in
    rw (e, send_ready) (Same-Stays s _ k (ready_sent-Same r count peer s))

pub count_echo-Same : (count : ℕ) (s : Site) → Same s (count_echo count s)
unfolding count_echo
count_echo-Same count s = ground arith

pub count_ready-Same : (count : ℕ) (s : Site) → Same s (count_ready count s)
unfolding count_ready
count_ready-Same count s = ground arith
