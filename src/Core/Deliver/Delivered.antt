-- ===== src/Core/Deliver/Delivered.antt =====
-- What `on_deliver_blk` of src/consensus.cpp has done when it returns.
use ava_hotstuff.Prelude.{
  ℕ, ◌≡◌, refl, sym, ap, subst, ◌∙◌, Bool, true, false, Option, none, some, List, [], ◌∷◌, ◌==◌,
  ==_iff, if◌then◌else◌, insert, Bool-cases, Option-cases, inl, inr,
}
use ava_hotstuff.Exec.{Exec, pure, throw, crash, gets, modify, ◌>>=◌, ◌>>◌}
use ava_hotstuff.Exec.Returns.{Returns, Returns-bind}
use ava_hotstuff.Entity.Config.{Hash}
use ava_hotstuff.Entity.Block.{Ref, Block, Heap, write, next_height}
use ava_hotstuff.Entity.Storage.{find_blk, add_cid_blkhash}
use ava_hotstuff.Crypto.{QuorumCert, get_obj_hash}
use ava_hotstuff.Core.State.{State, load, store, first}
use ava_hotstuff.Core.Deliver.{
  clear_parents, push_parents, set_height, set_qc_ref, refer_qc, replace_tails, mark_delivered,
  store_in_map_for_mc, deliver, on_deliver_blk, erase_all,
}
use ava_hotstuff.Core.Deliver.Parents.{
  AreDelivered, Changes, written, written-eq, written-Changes, Pushed, push_parents-Returns,
}

-- `n` is one more than the height of the first of the parents, which is there.
abbrev pub IsNextHeight : Heap → List Ref → ℕ → Type 0
IsNextHeight heap [] n = ⊥
IsNextHeight heap (p ∷ ps) n = n ≡ next_height (heap p).height

module _ {B : Type 0} (r : Ref) (s : State B) where
  pub record HasHeight (ps : List Ref) (t : State B) : Type 0 where
    pub changes : Changes r s.core t.core
    pub its_parents : (t.core.heap r).parents ≡ ps
    pub its_height : IsNextHeight s.core.heap ps (t.core.heap r).height

  pub distinct :
      (p : Ref)
      → (s.core.heap r).delivered ≡ false
      → (s.core.heap p).delivered ≡ true
      → (p == r) ≡ false
  distinct p early ready = elim (Bool-cases (p == r)) [
    | inr ne ↦ ne
    | inl same ↦ absurd (clash (ap (λ x. (s.core.heap x).delivered) ((==_iff p r).0 same) ∙ early))
  ]
    where
      clash : (s.core.heap p).delivered ≡ false → ⊥
      clash f = cc

  abbrev with_height : Ref → List Ref → State B → Block
  with_height p ps u = record (u.core.heap r) {
    parents = p ∷ ps;
    height = next_height (u.core.heap p).height;
  }

  with_height-HasHeight :
      (p : Ref) (ps : List Ref) (u : State B)
      → Changes r s.core u.core
      → (p == r) ≡ false
      → HasHeight (p ∷ ps) (written r s (with_height p ps u) u)
  with_height-HasHeight p ps u k ne = record {
    changes = written-Changes r s (with_height p ps u) u k.early k;
    its_parents = ap (λ (b : Block). b.parents) (written-eq r s (with_height p ps u) u);
    its_height =
        ap (λ (b : Block). b.height) (written-eq r s (with_height p ps u) u)
        ∙ ap (λ (b : Block). next_height b.height) (k.others p ne);
  }

  pub set_height-Returns :
      (hs : List Hash) (ps : List Ref) (u : State B)
      → (s.core.heap r).delivered ≡ false
      → Changes r s.core u.core
      → (u.core.heap r).parents ≡ ps
      → AreDelivered s.core hs ps
      → Returns (λ _. HasHeight ps) (set_height r u)
  unfolding set_height first pure crash load store ◌>>=◌
  set_height-Returns hs [] u early k e ds = rw e tt
  set_height-Returns [] (p ∷ ps) u early k e ds = absurd ds
  set_height-Returns (h ∷ hs) (p ∷ ps) u early k e (found, ready, ds) =
      rw e (with_height-HasHeight p ps u k (distinct p early ready))

  abbrev with_qc : Ref → State B → Block
  with_qc q u = record (u.core.heap r) { qc_ref = some q }

  with_qc-HasHeight :
      (ps : List Ref) (q : Ref) (u : State B)
      → HasHeight ps u
      → HasHeight ps (written r s (with_qc q u) u)
  with_qc-HasHeight ps q u h = record {
    changes = written-Changes r s (with_qc q u) u h.changes.early h.changes;
    its_parents = ap (λ (b : Block). b.parents) (written-eq r s (with_qc q u) u) ∙ h.its_parents;
    its_height =
        subst (IsNextHeight s.core.heap ps)
          (sym (ap (λ (b : Block). b.height) (written-eq r s (with_qc q u) u))) h.its_height;
  }

  pub refer_qc-Returns :
      (q : Option QuorumCert) (ps : List Ref) (u : State B)
      → HasHeight ps u
      → Returns (λ _. HasHeight ps) (refer_qc r q u)
  unfolding refer_qc set_qc_ref pure throw gets load store ◌>>=◌
  refer_qc-Returns none ps u h = h
  refer_qc-Returns (some qc) ps u h =
      elim (Option-cases (find_blk u.core.storage (get_obj_hash qc))) [
        | inl e ↦ rw e tt
        | inr (q, e) ↦ rw e (with_qc-HasHeight ps q u h)
      ]

  -- What the delivery of `r` leaves in `t`.
  pub record Delivers (t : State B) : Type 0 where
    pub parents : List Ref
    pub are_delivered : AreDelivered s.core (s.core.heap r).parent_hashes parents
    pub its_parents : (t.core.heap r).parents ≡ parents
    pub its_height : IsNextHeight s.core.heap parents (t.core.heap r).height
    pub is_delivered : (t.core.heap r).delivered ≡ true
    pub others : (q : Ref) → (q == r) ≡ false → t.core.heap q ≡ s.core.heap q
    pub its_next : t.core.next ≡ s.core.next
    pub its_tails : t.core.tails ≡ insert r (erase_all parents s.core.tails)
    pub its_storage :
        t.core.storage ≡ add_cid_blkhash s.core.storage (t.core.heap r).height (t.core.heap r).hash

  -- The rest of `on_deliver_blk`, after the block of the certificate.
  abbrev pub finish : Exec (State B) Bool
  finish = do
    b ← load r
    replace_tails b.parents r
    mark_delivered r
    store_in_map_for_mc r
    pure true

  abbrev pub Delivery : Bool → State B → Type 0
  Delivery false t = ((s.core.heap r).delivered ≡ true) × (s ≡ t)
  Delivery true t = ((s.core.heap r).delivered ≡ false) × Delivers t

  same : (r == r) ≡ true
  same = (==_iff r r).1 refl

  pub finish-Returns :
      (ps : List Ref) (u : State B)
      → (s.core.heap r).delivered ≡ false
      → AreDelivered s.core (s.core.heap r).parent_hashes ps
      → HasHeight ps u
      → Returns Delivery (finish u)
  unfolding load pure replace_tails mark_delivered store_in_map_for_mc modify store write ◌>>=◌
  finish-Returns ps u early ds h = (
    early,
    record {
      parents = ps;
      are_delivered = ds;
      its_parents = rw same h.its_parents;
      its_height = rw same h.its_height;
      is_delivered = rw same refl;
      others = λ q ne. rw ne (h.changes.others q ne);
      its_next = h.changes.same_next;
      its_tails =
          ap (λ qs. insert r (erase_all qs u.core.tails)) h.its_parents
          ∙ ap (λ ts. insert r (erase_all ps ts)) h.changes.same_tails;
      its_storage = rw same (
          ap (λ c. add_cid_blkhash c (u.core.heap r).height (u.core.heap r).hash)
            h.changes.same_storage);
    },
  )

  abbrev pub cleared : State B
  cleared = written r s (record (s.core.heap r) { parents = [] }) s

  pub unchanged : (s.core.heap r).delivered ≡ false → Changes r s.core s.core
  unchanged early = record {
    others = λ q ne. refl;
    same_storage = refl;
    same_tails = refl;
    same_next = refl;
    early = early;
  }

  deliver-Returns :
      (s.core.heap r).delivered ≡ false → Returns Delivery (deliver r (s.core.heap r) s)
  unfolding deliver clear_parents load store pure ◌>>=◌
  deliver-Returns early =
      Returns-bind (λ _. Pushed r s hs []) Delivery (push_parents r hs) _ cleared
        (push_parents-Returns r s hs [] cleared
          (written-Changes r s (record (s.core.heap r) { parents = [] }) s early (unchanged early))
          (ap (λ (b : Block). b.parents)
            (written-eq r s (record (s.core.heap r) { parents = [] }) s)))
        λ _ t (k, ps, e, ds).
          Returns-bind (λ _. HasHeight ps) Delivery (set_height r) _ t
            (set_height-Returns hs ps t early k e ds)
            λ _ u h.
              Returns-bind (λ _. HasHeight ps) Delivery (refer_qc r (s.core.heap r).qc) _ u
                (refer_qc-Returns (s.core.heap r).qc ps u h)
                λ _ v h'. finish-Returns ps v early ds h'
    where
      hs : List Hash
      hs = (s.core.heap r).parent_hashes

  -- When `on_deliver_blk` returns false, the block was delivered already and nothing has changed. When
  -- it returns true, the block was not delivered and is now; its parents are the blocks of its hashes,
  -- in their order, each delivered before, and it is one higher than the first of them; it has taken
  -- their place among the tails and is stored under its height; no other block has changed.
  pub on_deliver_blk-Delivery : Returns Delivery (on_deliver_blk r s)
  unfolding on_deliver_blk load pure ◌>>=◌
  on_deliver_blk-Delivery = go (s.core.heap r).delivered refl
    where
      go :
          (d : Bool)
          → (s.core.heap r).delivered ≡ d
          → Returns Delivery ((if d then pure false else deliver r (s.core.heap r)) s)
      go true e = (e, refl)
      go false e = deliver-Returns e
