-- ===== src/Clusters/Finished.antt =====
-- What the rows and the sets of `receive_mc_local` (src/hotstuff.cpp) say of the messages received.
use ava_hotstuff.Prelude.{
  ℕ, zero, suc, ◌+◌, ◌<◌, ◌≡◌, refl, sym, ap, subst, ◌∙◌, Bool, true, false, ◌||◌, some, List, [],
  ◌∷◌, ◌==◌, ==_iff, arith, lt→ltb, Bool-cases, inl, inr, has, insert, length, length-set, set,
  has-insert, Distinct,
}
use ava_hotstuff.Prelude.Assoc.{lookup, put, or_new, lookup-put}
use ava_hotstuff.Clusters.Row.{write_at, clear_from, all_from}
use ava_hotstuff.Clusters.Tracking.{
  Tracker, init_tracker, store_row, finish, after_test, reconfigure,
}
use ava_hotstuff.Clusters.Heard.{Message, heard, is_finished, IsRow}

-- The fields after the messages `ms`.
pub record IsTracking (n own : ℕ) (s : Tracker) (ms : List Message) : Type 0 where
  pub clusters : s.n_clusters ≡ n
  pub itself : s.cluster_id ≡ own
  pub rows :
      (h : ℕ)
      → has h s.finished_mc_cids ≡ false
      → IsRow n own (heard h ms) (lookup h s.cid_to_cluster_tracker_array)
  pub done : (h : ℕ) → has h s.finished_mc_cids ≡ is_finished n own (heard h ms)
  pub handed_over : s.decided ≡ s.finished_mc_cids
  pub once : Distinct s.decided

length-clear_from : (n i : ℕ) (row : List ℕ) → length (clear_from n i row) ≡ length row
unfolding clear_from
length-clear_from zero i row = refl
length-clear_from (suc n) i row = length-clear_from n (i + 1) (set row i 0) ∙ length-set row i 0

all_from_more :
    (n i own c : ℕ) (cs : List ℕ)
    → all_from n i (λ j. j == own || has j cs) ≡ true
    → all_from n i (λ j. j == own || has j (c ∷ cs)) ≡ true
unfolding has
all_from_more zero i own c cs h = refl
all_from_more (suc n) i own c cs h = ground (arith, all_from_more n (i + 1) own c cs, h)

-- A finished height stays finished.
pub is_finished_more :
    (n own c : ℕ) (cs : List ℕ) → is_finished n own cs ≡ true → is_finished n own (c ∷ cs) ≡ true
is_finished_more n own c [] h = cc
is_finished_more n own c (d ∷ cs) h = all_from_more n 0 own c (d ∷ cs) h

pub init-IsTracking : (n own : ℕ) → IsTracking n own (init_tracker n own) []
unfolding has lookup
init-IsTracking n own = record {
  clusters = refl;
  itself = refl;
  rows = λ h e. refl;
  done = λ h. refl;
  handed_over = refl;
  once = tt;
}

pub reconfigure-IsTracking :
    (n own c count : ℕ) (leave_set : List ℕ) (s : Tracker) (ms : List Message)
    → IsTracking n own s ms
    → IsTracking n own (reconfigure c count leave_set s) ms
unfolding reconfigure
reconfigure-IsTracking n own c count leave_set s ms k =
    elim (Bool-cases (or_new (lookup c s.clusterid_to_reconfig_count) 0 == count)) [
      | inl same ↦ rw same (record {
        clusters = k.clusters;
        itself = k.itself;
        rows = k.rows;
        done = k.done;
        handed_over = k.handed_over;
        once = k.once;
      })
      | inr other ↦ rw other (record {
        clusters = k.clusters;
        itself = k.itself;
        rows = k.rows;
        done = k.done;
        handed_over = k.handed_over;
        once = k.once;
      })
    ]

clash : (a b : ℕ) (xs : List ℕ) → a ≡ b → has a xs ≡ true → has b xs ≡ false → ⊥
clash a b xs e f g = cc

-- The new list of heard clusters, at the message's height and at the others.
heard_here :
    (n own h : ℕ) (m : Message) (ms : List Message) (b : Bool)
    → m.height ≡ h
    → is_finished n own (m.cluster ∷ heard m.height ms) ≡ b
    → is_finished n own (heard h (m ∷ ms)) ≡ b
heard_here n own h m ms b e f =
    rw ((==_iff m.height h).1 e) (ap (λ x. is_finished n own (m.cluster ∷ heard x ms)) (sym e) ∙ f)

-- A message about a height that is finished already.
pub late-IsTracking :
    (n own : ℕ) (s : Tracker) (m : Message) (ms : List Message)
    → IsTracking n own s ms
    → has m.height s.finished_mc_cids ≡ true
    → IsTracking n own s (m ∷ ms)
late-IsTracking n own s m ms k e = record {
  clusters = k.clusters;
  itself = k.itself;
  rows = λ h f. elim (Bool-cases (m.height == h)) [
    | inl same ↦ absurd (clash m.height h s.finished_mc_cids ((==_iff m.height h).0 same) e f)
    | inr other ↦ rw other (k.rows h f)
  ];
  done = λ h. elim (Bool-cases (m.height == h)) [
    | inl same ↦
        let at = (==_iff m.height h).0 same in
        ap (λ x. has x s.finished_mc_cids) (sym at)
        ∙ e
        ∙ sym (
            heard_here n own h m ms true at
              (is_finished_more n own m.cluster (heard m.height ms) (sym (k.done m.height) ∙ e)))
    | inr other ↦ rw other (k.done h)
  ];
  handed_over = k.handed_over;
  once = k.once;
}

lookup_other :
    (a h : ℕ) (row : List ℕ) (rows : List (ℕ × List ℕ))
    → (a == h) ≡ false
    → lookup h (put a row rows) ≡ lookup h rows
lookup_other a h row rows other = ground (arith, lookup-put a h row rows, other)

lookup_same :
    (a h : ℕ) (row : List ℕ) (rows : List (ℕ × List ℕ))
    → (a == h) ≡ true
    → lookup h (put a row rows) ≡ some row
lookup_same a h row rows same = ground (arith, lookup-put a h row rows, same)

-- A message that is counted: the row as it is then, and what the test of it finds.
pub after_test-IsTracking :
    (n own : ℕ) (s : Tracker) (m : Message) (ms : List Message) (row : List ℕ) (b : Bool)
    → IsTracking n own s ms
    → own < n
    → has m.height s.finished_mc_cids ≡ false
    → IsRow n own (m.cluster ∷ heard m.height ms) (some row)
    → is_finished n own (m.cluster ∷ heard m.height ms) ≡ b
    → (t : Tracker) × (after_test (some b) m.height row s ≡ some t) × IsTracking n own t (m ∷ ms)
unfolding after_test store_row finish write_at
after_test-IsTracking n own s m ms row false k inside e r f = (
  store_row m.height row s,
  refl,
  record {
    clusters = k.clusters;
    itself = k.itself;
    rows = λ h g. elim (Bool-cases (m.height == h)) [
      | inl same ↦ rw same (
          subst (IsRow n own (m.cluster ∷ heard h ms))
            (sym (lookup_same m.height h row s.cid_to_cluster_tracker_array same))
            (subst (λ x. IsRow n own (m.cluster ∷ heard x ms) (some row))
              ((==_iff m.height h).0 same) r))
      | inr other ↦ rw other (
          subst (IsRow n own (heard h ms))
            (sym (lookup_other m.height h row s.cid_to_cluster_tracker_array other)) (k.rows h g))
    ];
    done = λ h. elim (Bool-cases (m.height == h)) [
      | inl same ↦
          let at = (==_iff m.height h).0 same in
          ap (λ x. has x s.finished_mc_cids) (sym at) ∙ e ∙ sym (heard_here n own h m ms false at f)
      | inr other ↦ rw other (k.done h)
    ];
    handed_over = k.handed_over;
    once = k.once;
  },
)
after_test-IsTracking n own s m ms row true k inside e r f = (
  store_row m.height cleared (finish m.height s),
  rw (after_test, lt→ltb s.cluster_id (length (clear_from s.n_clusters 0 row)) fits) refl,
  record {
    clusters = k.clusters;
    itself = k.itself;
    rows = λ h g. elim (Bool-cases (m.height == h)) [
      | inl same ↦ absurd (
          clash m.height h (insert m.height s.finished_mc_cids) ((==_iff m.height h).0 same)
            (ground (arith, has-insert m.height m.height s.finished_mc_cids)) g)
      | inr other ↦ rw other (
          subst (IsRow n own (heard h ms))
            (sym (lookup_other m.height h cleared s.cid_to_cluster_tracker_array other))
            (k.rows h (ground (arith, has-insert m.height h s.finished_mc_cids, g))))
    ];
    done = λ h. elim (Bool-cases (m.height == h)) [
      | inl same ↦
          let at = (==_iff m.height h).0 same in
          ground (arith, has-insert m.height h s.finished_mc_cids, at)
          ∙ sym (heard_here n own h m ms true at f)
      | inr other ↦
          rw other (ground (arith, has-insert m.height h s.finished_mc_cids, other) ∙ k.done h)
    ];
    handed_over =
        ap (λ xs. m.height ∷ xs) k.handed_over ∙ sym (fresh m.height s.finished_mc_cids e);
    once = (ap (has m.height) k.handed_over ∙ e, k.once);
  },
)
  where
    fits : s.cluster_id < length (clear_from s.n_clusters 0 row)
    fits = omega (arith, length-clear_from s.n_clusters 0 row, r.0, k.itself, inside)

    cleared : List ℕ
    cleared = set (clear_from s.n_clusters 0 row) s.cluster_id 1

    fresh : (h : ℕ) (xs : List ℕ) → has h xs ≡ false → insert h xs ≡ h ∷ xs
    fresh h xs g = unfold insert in rw g refl
