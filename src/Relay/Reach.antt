-- ===== src/Relay/Reach.antt =====
-- A third and one of the peers of a cluster are enough to reach one that is not faulty
-- (`do_broadcast_proposal_other_clusters` of src/hotstuff.cpp).
use ava_hotstuff.Prelude.{
  ℕ, zero, suc, ◌+◌, ◌/◌, ◌≤◌, ◌<◌, ◌≡◌, ◌≢◌, ◌⊎◌, refl, sym, ap, subst, ◌∙◌, true, false, List, [],
  ◌∷◌, ◌++◌, ◌==◌, ltb, leb, ==_iff, arith, has, take, length, length-take, Distinct, Bool-cases,
  inl, inr,
}
use ava_hotstuff.Prelude.Counting.{Subset, length-Subset, has-append}
use ava_hotstuff.Entity.Config.{PeerId}
use ava_hotstuff.Relay.{
  Sending, propose, complain, Relay, transmit, initial_others, init_others,
  do_broadcast_proposal_other_clusters, update_other_f_plus_one, count_nodes, send_rcomplain_others,
}
use ava_hotstuff.Relay.Run.{Relaying, broadcast, update, complains, relay, relay_all}

abbrev pub IsCluster : ℕ → List PeerId → List (ℕ × List PeerId) → Type 0
IsCluster c ps [] = ⊥
IsCluster c ps ((d, qs) ∷ m) = ((d ≡ c) × (qs ≡ ps)) ⊎ IsCluster c ps m

abbrev pub IsSent : List PeerId → List Sending → Type 0
IsSent xs [] = ⊥
IsSent xs (propose ys ∷ es) = (ys ≡ xs) ⊎ IsSent xs es
IsSent xs (complain ys ∷ es) = IsSent xs es

pub Subset-left : (xs ys : List ℕ) → Subset xs (xs ++ ys)
Subset-left xs ys a h = has-append a xs ys ∙ rw h refl

Subset-right : (xs ys : List ℕ) → Subset ys (xs ++ ys)
Subset-right xs ys a h = has-append a xs ys ∙ rw h (ground arith)

take-Subset : (n : ℕ) (xs : List ℕ) → Subset (take n xs) xs
unfolding has
take-Subset zero xs a h = cc
take-Subset (suc n) [] a h = h
take-Subset (suc n) (x ∷ xs) a h = ground (arith, take-Subset n xs a)

absent : (a : ℕ) (xs ys : List ℕ) → Subset xs ys → has a ys ≡ false → has a xs ≡ false
absent a xs ys s e = elim (Bool-cases (has a xs)) [ inl h ↦ absurd (clash (s a h) e) | inr h ↦ h ]
  where
    clash : has a ys ≡ true → has a ys ≡ false → ⊥
    clash e f = cc

take-Distinct : (n : ℕ) (xs : List ℕ) → Distinct xs → Distinct (take n xs)
take-Distinct zero xs d = tt
take-Distinct (suc n) [] d = tt
take-Distinct (suc n) (x ∷ xs) d =
    (absent x (take n xs) xs (take-Subset n xs) d.0, take-Distinct n xs d.1)

-- One of the list that is not of the other, or there is none.
search : (xs ys : List ℕ) → ((a : ℕ) × (has a xs ≡ true) × (has a ys ≡ false)) ⊎ Subset xs ys
unfolding has
search [] ys = inr λ a h. cc
search (x ∷ xs) ys = elim (Bool-cases (has x ys)) [
  | inr new ↦ inl (x, ground arith, new)
  | inl old ↦ elim (search xs ys) [
    | inl (a, h, e) ↦ inl (a, ground (arith, h), e)
    | inr s ↦ inr λ a h. elim (Bool-cases (a == x)) [
      | inl e ↦ ap (λ i. has i ys) ((==_iff a x).0 e) ∙ old
      | inr e ↦ s a (ground (arith, h, e))
    ]
  ]
]

-- More pigeons than holes.
outside :
    (xs ys : List ℕ)
    → Distinct xs
    → Distinct ys
    → length ys < length xs
    → (a : ℕ) × (has a xs ≡ true) × (has a ys ≡ false)
outside xs ys d e more = elim (search xs ys) [
  | inl found ↦ found
  | inr s ↦ absurd (omega (arith, length-Subset xs ys d e s))
]

module _ (own : ℕ) where
  initial_others-Subset :
      (c : ℕ) (ps : List PeerId) (m : List (ℕ × List PeerId))
      → IsCluster c ps m
      → c ≢ own
      → Subset (take (length ps / 3 + 1) ps) (initial_others own m)
  unfolding initial_others
  initial_others-Subset c ps [] k other a h = absurd k
  initial_others-Subset c ps ((d, qs) ∷ m) k other a h = elim (Bool-cases (d == own)) [
    | inl same ↦ rw same (elim k [
      | inl (e, _) ↦ absurd (other (sym e ∙ (==_iff d own).0 same))
      | inr later ↦ initial_others-Subset c ps m later other a h
    ])
    | inr new ↦ rw new (elim k [
      | inl (_, e) ↦
          Subset-left (take (length qs / 3 + 1) qs) (initial_others own m) a
            (ap (λ l. has a (take (length l / 3 + 1) l)) e ∙ h)
      | inr later ↦
          Subset-right (take (length qs / 3 + 1) qs) (initial_others own m) a
            (initial_others-Subset c ps m later other a h)
    ])
  ]

  -- Each proposal that was sent went to the first peers of the other clusters.
  abbrev Reach : List (ℕ × List PeerId) → List Sending → Type 0
  Reach m [] = Unit {0}
  Reach m (propose xs ∷ es) = Subset (initial_others own m) xs × Reach m es
  Reach m (complain xs ∷ es) = Reach m es

  record Reaching (m : List (ℕ × List PeerId)) (s : Relay) : Type 0 where
    itself : s.cluster_id ≡ own
    nodes : s.cluster_to_nodes ≡ m
    listed :
        (s.other_peers_f_plus_one_init == 0) ≡ false
        → Subset (initial_others own m) s.other_peers_f_plus_one
    reached : Reach m s.sent

  arrives :
      (m : List (ℕ × List PeerId)) (s : Relay)
      → Reaching m s
      → Subset
          (initial_others own m)
          (s.other_peers_f_plus_one ++ initial_others s.cluster_id s.cluster_to_nodes)
  arrives m s k a h =
      Subset-right s.other_peers_f_plus_one (initial_others s.cluster_id s.cluster_to_nodes) a (
        ap (λ i. has a (initial_others i s.cluster_to_nodes)) k.itself
        ∙ ap (λ x. has a (initial_others own x)) k.nodes
        ∙ h)

  relay-Reaching :
      (m : List (ℕ × List PeerId)) (c : Relaying) (s : Relay)
      → Reaching m s
      → Reaching m (relay c s)
  unfolding relay do_broadcast_proposal_other_clusters init_others transmit update_other_f_plus_one
      send_rcomplain_others
  relay-Reaching m broadcast s k = elim (Bool-cases (s.other_peers_f_plus_one_init == 0)) [
    | inl start ↦ rw start (record {
      itself = k.itself;
      nodes = k.nodes;
      listed = λ e. arrives m s k;
      reached = (arrives m s k, k.reached);
    })
    | inr later ↦ rw later (record {
      itself = k.itself;
      nodes = k.nodes;
      listed = k.listed;
      reached = (k.listed later, k.reached);
    })
  ]
  relay-Reaching m (update leave_set changed) s k = record {
    itself = k.itself;
    nodes = k.nodes;
    listed = λ e a h. Subset-left s.other_peers_f_plus_one _ a (k.listed e a h);
    reached = k.reached;
  }
  relay-Reaching m complains s k = elim (Bool-cases (ltb 0 (length s.other_peers_f_plus_one))) [
    | inl some_peers ↦
        elim (Bool-cases (leb s.id (count_nodes s.cluster_id s.cluster_map / 3 + 1))) [
          | inl among ↦ rw some_peers (
              rw among (record {
                itself = k.itself;
                nodes = k.nodes;
                listed = k.listed;
                reached = k.reached;
              }))
          | inr beyond ↦ rw some_peers (rw beyond k)
        ]
    | inr nobody ↦ rw nobody k
  ]

  relay_all-Reaching :
      (m : List (ℕ × List PeerId)) (calls : List Relaying) (s : Relay)
      → Reaching m s
      → Reaching m (relay_all calls s)
  unfolding relay_all
  relay_all-Reaching m [] s k = k
  relay_all-Reaching m (c ∷ calls) s k =
      relay_all-Reaching m calls (relay c s) (relay-Reaching m c s k)

  sent-Subset :
      (m : List (ℕ × List PeerId)) (xs : List PeerId) (es : List Sending)
      → IsSent xs es
      → Reach m es
      → Subset (initial_others own m) xs
  sent-Subset m xs [] k r = absurd k
  sent-Subset m xs (propose ys ∷ es) (inl e) r = subst (Subset (initial_others own m)) e r.0
  sent-Subset m xs (propose ys ∷ es) (inr k) r = sent-Subset m xs es k r.1
  sent-Subset m xs (complain ys ∷ es) k r = sent-Subset m xs es k r

-- Along any sequence of broadcasts, updates of the peers and remote complaints, from a replica that has
-- sent nothing: each proposal for the other clusters goes, in each other cluster that has peers, to one
-- outside of any set of at most a third of its peers, so that it is not faulty if no more are.
pub relay_all-reaches :
    (calls : List Relaying) (s : Relay) (xs : List PeerId) (c : ℕ) (ps faulty : List PeerId)
    → s.other_peers_f_plus_one_init ≡ 0
    → s.sent ≡ []
    → IsSent xs (relay_all calls s).sent
    → IsCluster c ps s.cluster_to_nodes
    → c ≢ s.cluster_id
    → Distinct ps
    → 0 < length ps
    → Distinct faulty
    → length faulty ≤ length ps / 3
    → (p : PeerId) × (has p ps ≡ true) × (has p faulty ≡ false) × (has p xs ≡ true)
relay_all-reaches calls s xs c ps faulty start none_sent is_sent is_cluster other d some_peers e
      few =
    let k = relay_all-Reaching s.cluster_id s.cluster_to_nodes calls s (record {
      itself = refl;
      nodes = refl;
      listed = λ late. absurd (clash late);
      reached = subst (Reach s.cluster_id s.cluster_to_nodes) (sym none_sent) tt;
    }) in
    let n = length ps / 3 + 1 in
    let (p, among, good) =
      outside (take n ps) faulty (take-Distinct n ps d) e (omega (arith, length-take n ps)) in
    (
      p,
      take-Subset n ps p among,
      good,
      sent-Subset s.cluster_id s.cluster_to_nodes xs (relay_all calls s).sent is_sent k.reached p
          (initial_others-Subset s.cluster_id c ps s.cluster_to_nodes is_cluster other p among),
    )
  where
    clash : (s.other_peers_f_plus_one_init == 0) ≡ false → ⊥
    clash late = ground (arith, start, late)
