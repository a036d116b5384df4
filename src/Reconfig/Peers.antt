-- ===== src/Reconfig/Peers.antt =====
-- The peers and the quorums of src/hotstuff.cpp stay those of the nodes that have not left.
use ava_hotstuff.Reconfig.Changes.{
  Change, gone, back, asked, agreed, agreed_all, is_away, is_away-append,
}
use ava_hotstuff.Reconfig.Ready.{tally-bump_tally}
use ava_hotstuff.Prelude.{
  Bool-cases, inl, inr, has, has-insert, has-erase, ap, sym, subst, ==_iff, ◌+◌, ◌++◌, none, arith,
  ℕ, ◌<◌, ◌≡◌, refl, ◌∙◌, Option, some, List, [], ◌∷◌, length, Bool, true, false, insert, erase,
  ◌==◌, if◌then◌else◌,
}
use ava_hotstuff.Entity.Config.{PeerId}
use ava_hotstuff.Core.Messages.{Recs}
use ava_hotstuff.Reconfig.{
  Site, tally, my_agg, my_echo, my_ready, count_echo, count_ready, on_agg, send_ready, on_echo,
  leave, join, take_over, on_ready, on_recs_agg_echo_ready,
}
use ava_hotstuff.Reconfig.Run.{Input, recs, ack, phase, ask_leave_set, react, react_all}
use ava_hotstuff.Reconfig.Current.{
  IsCurrent, get_elem?_lt, Stays, refresh-IsCurrent, Same, Same-IsCurrent, Same-Stays, on_recs-Same,
  acknowledge-Same, on_agg-Same, get_leave_set-Same, send_ready-Stays, count_echo-Same,
  count_ready-Same,
}

-- A message names a node that there is.
abbrev pub IsNamed : ℕ → Input → Type 0
IsNamed n (phase type r count) = r.node_number < n
IsNamed n _ = Unit {0}

abbrev pub AreNamed : ℕ → List Input → Type 0
AreNamed n [] = Unit {0}
AreNamed n (i ∷ is) = IsNamed n i × AreNamed n is

-- A step that keeps, and then another.
then_Stays :
    (s t : Site) (cs : List Change) (o : Option Site)
    → IsCurrent s
    → Same s t
    → (IsCurrent t → Stays t cs o)
    → Stays s cs o
then_Stays s t cs o k e next =
    let h = Same-IsCurrent s t k e in
    let n = next h in
    record {
      next = n.next;
      returned = n.returned;
      kept = n.kept;
      same_nodes = n.same_nodes ∙ e.same_all_peers;
      same_names = n.same_names ∙ e.same_peers;
      left = λ p. n.left p ∙ ap (λ l. is_away p (has p l) cs) e.same_leave_set;
    }

unmoved-Stays : (s : Site) → IsCurrent s → Stays s [] (some s)
unmoved-Stays s k = record {
  next = s;
  returned = refl;
  kept = k;
  same_nodes = refl;
  same_names = refl;
  left = λ p. refl;
}

on_echo-Stays :
    (r : Recs) (count : ℕ) (s : Site)
    → IsCurrent s
    → r.node_number < length s.all_peers
    → Stays s [] (on_echo r count s)
unfolding on_echo
on_echo-Stays r count s k named =
    then_Stays s (count_echo count s) [] _ k (count_echo-Same count s) λ k'. go k' (
      tally count (count_echo count s).reconfig_echo_counter
      == (count_echo count s).config.nmajority)
  where
    go :
        IsCurrent (count_echo count s)
        → (b : Bool)
        → Stays
            (count_echo count s)
            []
            (if b then send_ready r count (count_echo count s) else some (count_echo count s))
    go k' true =
        send_ready-Stays r count (count_echo count s) k'
          (rw (count_echo-Same count s).same_all_peers named)
    go k' false = unmoved-Stays (count_echo count s) k'

take_over-Stays :
    (r : Recs) (s : Site)
    → IsCurrent s
    → r.node_number < length s.all_peers
    → Stays s (asked r s.all_peers) (take_over r s)
unfolding take_over leave join
take_over-Stays r s k named =
    let (peer, e) = get_elem?_lt s.all_peers r.node_number named in
    rw (e, take_over, asked) (go (r.reconfig_mode == 1) (r.reconfig_mode == 0) peer)
  where
    go :
        (x y : Bool) (peer : PeerId)
        → Stays s (if x then gone peer ∷ [] else if y then back peer ∷ [] else []) (
            some (
              if x then leave peer r.node_number s else if y then join peer r.node_number s else s))
    go true y peer = record {
      next = leave peer r.node_number s;
      returned = refl;
      kept = refresh-IsCurrent (record s {
        leave_set = insert peer s.leave_set;
        leave_set_int = insert r.node_number s.leave_set_int;
      });
      same_nodes = refl;
      same_names = refl;
      left = λ p. ground (arith, has-insert peer p s.leave_set);
    }
    go false true peer = record {
      next = join peer r.node_number s;
      returned = refl;
      kept = refresh-IsCurrent (record s {
        leave_set = erase peer s.leave_set;
        leave_set_int = erase r.node_number s.leave_set_int;
      });
      same_nodes = refl;
      same_names = refl;
      left = λ p. ground (arith, has-erase peer p s.leave_set);
    }
    go false false peer = unmoved-Stays s k

one_more :
    (count : ℕ) (s : Site)
    → tally count (count_ready count s).reconfig_ready_counter
      ≡ tally count s.reconfig_ready_counter + 1
unfolding count_ready
one_more count s = ground (arith, tally-bump_tally count count s.reconfig_ready_counter)

on_ready-Stays :
    (r : Recs) (count : ℕ) (s : Site)
    → IsCurrent s
    → r.node_number < length s.all_peers
    → Stays s (agreed (phase my_ready r count) s) (on_ready r count s)
unfolding on_ready
on_ready-Stays r count s k named =
    subst
      (λ n.
        Stays s (agreed (phase my_ready r count) s)
          (if n == s.config.nmajority then take_over r t else some t))
      (sym (one_more count s))
      (then_Stays s t _ _ k same
        λ k'. go k' (tally count s.reconfig_ready_counter + 1 == s.config.nmajority))
  where
    t : Site
    t = count_ready count s

    same : Same s t
    same = count_ready-Same count s

    go :
        IsCurrent t
        → (b : Bool)
        → Stays t (if b then asked r s.all_peers else []) (if b then take_over r t else some t)
    go k' true =
        subst (λ nodes. Stays t (asked r nodes) (take_over r t)) same.same_all_peers
          (take_over-Stays r t k' (rw same.same_all_peers named))
    go k' false = unmoved-Stays t k'

react-Stays :
    (i : Input) (s : Site)
    → IsCurrent s
    → IsNamed (length s.all_peers) i
    → Stays s (agreed i s) (react i s)
unfolding react on_recs_agg_echo_ready
react-Stays (recs p r) s k named = Same-Stays s _ k (on_recs-Same p r s)
react-Stays (ack p r) s k named = Same-Stays s _ k (acknowledge-Same p r s)
react-Stays ask_leave_set s k named = Same-Stays s _ k (get_leave_set-Same s)
react-Stays (phase type r count) s k named = elim (Bool-cases (type == my_ready)) [
  | inl e ↦
      subst (λ n. Stays s (agreed (phase n r count) s) (on_recs_agg_echo_ready n r count s))
        (sym ((==_iff type my_ready).0 e)) (on_ready-Stays r count s k named)
  | inr e ↦ rw e (go (type == my_agg) (type == my_echo))
]
  where
    go :
        (x y : Bool)
        → Stays s []
            (if x then some (on_agg r count s) else if y then on_echo r count s else some s)
    go true y = Same-Stays s (on_agg r count s) k (on_agg-Same r count s)
    go false true = on_echo-Stays r count s k named
    go false false = unmoved-Stays s k

-- Where every message names a node that there is, any sequence of inputs is handled, without an
-- access out of range. A peer is then in the leave set if and only if the last request about it that
-- was agreed on, by the READY that makes its number a majority, was to leave, or none was and it was
-- there before; the current peers are the peers that are not in the leave set, in their order; and the
-- configuration has as many replicas as these and oneself and all but a third of these peers as its
-- majority, if so it was at the start.
pub react_all-IsCurrent :
    (is : List Input) (s : Site)
    → IsCurrent s
    → AreNamed (length s.all_peers) is
    → (t : Site) × (react_all is s ≡ some t)
      × IsCurrent t
      × (t.peers ≡ s.peers)
      × ((p : PeerId) → has p t.leave_set ≡ is_away p (has p s.leave_set) (agreed_all is s))
unfolding react_all
react_all-IsCurrent [] s k named = (s, refl, k, refl, λ p. refl)
react_all-IsCurrent (i ∷ is) s k (named, rest) =
    let n = react-Stays i s k named in
    let (t, e, k', names, away) = react_all-IsCurrent is n.next n.kept (rw n.same_nodes rest) in
    (
      t,
      rw n.returned e,
      k',
      names ∙ n.same_names,
      λ p.
          away p
          ∙ ap (λ b. is_away p b (agreed_all is n.next)) (n.left p)
          ∙ sym (is_away-append p (has p s.leave_set) (agreed i s) (agreed_all is n.next))
          ∙ ap (λ o. is_away p (has p s.leave_set) (agreed i s ++ after o)) (sym n.returned),
    )
  where
    after : Option Site → List Change
    after o = elim o [ none ↦ [] | some u ↦ agreed_all is u ]
