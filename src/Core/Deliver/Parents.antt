-- ===== src/Core/Deliver/Parents.antt =====
-- The loop of `on_deliver_blk` of src/consensus.cpp over the hashes of the parents.
use ava_hotstuff.Prelude.{
  ◌≡◌, refl, sym, ap, subst, ◌∙◌, true, false, some, List, [], ◌∷◌, ◌++◌, ◌==◌, ==_iff, arith,
  Bool-cases, Option-cases, inl, inr,
}
use mathlib.Core.List.{append_assoc, append-nil}
use ava_hotstuff.Exec.{pure, throw, ◌>>=◌}
use ava_hotstuff.Exec.Returns.{Returns, Returns-bind, Returns-mono}
use ava_hotstuff.Entity.Config.{Hash}
use ava_hotstuff.Entity.Block.{Ref, Block, write}
use ava_hotstuff.Entity.Storage.{find_blk}
use ava_hotstuff.Core.State.{Core, State, on_core, load, store}
use ava_hotstuff.Core.Deliver.{
  get_delivered_blk, need_delivered, sanity_check_delivered, push_parent, push_parents,
}

-- The hashes are those of delivered blocks, in their order.
abbrev pub AreDelivered : Core → List Hash → List Ref → Type 0
AreDelivered c [] [] = Unit {0}
AreDelivered c (h ∷ hs) (p ∷ ps) =
    (find_blk c.storage h ≡ some p) × ((c.heap p).delivered ≡ true) × AreDelivered c hs ps
AreDelivered c [] (p ∷ ps) = ⊥
AreDelivered c (h ∷ hs) [] = ⊥

-- Only the block `r`, which is not delivered yet, has changed from `c` to `d`.
pub record Changes (r : Ref) (c d : Core) : Type 0 where
  pub others : (q : Ref) → (q == r) ≡ false → d.heap q ≡ c.heap q
  pub same_storage : d.storage ≡ c.storage
  pub same_tails : d.tails ≡ c.tails
  pub same_next : d.next ≡ c.next
  pub early : (d.heap r).delivered ≡ false

module _ {B : Type 0} (r : Ref) (s : State B) where
  abbrev pub written : Block → State B → State B
  written b u = on_core (λ c. record c { heap = write c.heap r b }) u

  pub written-eq : (b : Block) (u : State B) → (written b u).core.heap r ≡ b
  unfolding write
  written-eq b u = ground arith

  pub written-Changes :
      (b : Block) (u : State B)
      → b.delivered ≡ false
      → Changes r s.core u.core
      → Changes r s.core (written b u).core
  unfolding write
  written-Changes b u e k = record {
    others = λ q ne. rw ne (k.others q ne);
    same_storage = k.same_storage;
    same_tails = k.same_tails;
    same_next = k.same_next;
    early = ap (λ (x : Block). x.delivered) (written-eq b u) ∙ e;
  }

  -- A delivered block is another one, and was delivered at the start.
  at_start :
      (u : State B) (p : Ref)
      → Changes r s.core u.core
      → (u.core.heap p).delivered ≡ true
      → u.core.heap p ≡ s.core.heap p
  at_start u p k e = elim (Bool-cases (p == r)) [
    | inr ne ↦ k.others p ne
    | inl same ↦
        absurd (clash (ap (λ x. (u.core.heap x).delivered) ((==_iff p r).0 same) ∙ k.early))
  ]
    where
      clash : (u.core.heap p).delivered ≡ false → ⊥
      clash f = cc

  abbrev Found : State B → Hash → Ref → State B → Type 0
  Found u h p t =
      (u ≡ t) × (find_blk u.core.storage h ≡ some p) × ((u.core.heap p).delivered ≡ true)

  get_delivered_blk-Returns : (h : Hash) (u : State B) → Returns (Found u h) (get_delivered_blk h u)
  unfolding get_delivered_blk need_delivered sanity_check_delivered load pure throw ◌>>=◌
  get_delivered_blk-Returns h u = elim (Option-cases (find_blk u.core.storage h)) [
    | inl e ↦ rw e tt
    | inr (p, e) ↦ rw e (elim (Bool-cases (u.core.heap p).delivered) [
      | inl f ↦ rw f (refl, e, f)
      | inr f ↦ rw f tt
    ])
  ]

  -- The parents `done` are there; those of the hashes are pushed behind them.
  abbrev pub Pushed : List Hash → List Ref → State B → Type 0
  Pushed hs done t =
      Changes r s.core t.core
      × (ps : List Ref) × ((t.core.heap r).parents ≡ done ++ ps)
      × AreDelivered s.core hs ps

  abbrev pushed : Ref → State B → State B
  pushed p u = written (record (u.core.heap r) { parents = (u.core.heap r).parents ++ p ∷ [] }) u

  push_one :
      (h : Hash) (hs : List Hash) (done : List Ref) (u t : State B) (p : Ref)
      → Changes r s.core u.core
      → Found u h p u
      → Pushed hs (done ++ p ∷ []) t
      → Pushed (h ∷ hs) done t
  push_one h hs done u t p k (_, found, ready) (k', ps, e, ds) = (
    k',
    p ∷ ps,
    e ∙ append_assoc done (p ∷ []) ps,
    (
      ap (λ c. find_blk c h) (sym k.same_storage) ∙ found,
      sym (ap (λ (b : Block). b.delivered) (at_start u p k ready)) ∙ ready,
      ds,
    ),
  )

  pub push_parents-Returns :
      (hs : List Hash) (done : List Ref) (u : State B)
      → Changes r s.core u.core
      → (u.core.heap r).parents ≡ done
      → Returns (λ _. Pushed hs done) (push_parents r hs u)
  unfolding push_parents push_parent pure load store ◌>>=◌
  push_parents-Returns [] done u k e = (k, [], e ∙ sym (append-nil done), tt)
  push_parents-Returns (h ∷ hs) done u k e =
      Returns-bind (Found u h) (λ _. Pushed (h ∷ hs) done) (get_delivered_blk h) _ u
        (get_delivered_blk-Returns h u)
        λ p t (same, found, ready).
          subst (λ t. Returns (λ _. Pushed (h ∷ hs) done) (push_parents r hs (pushed p t))) same
            (Returns-mono (push_parents r hs (pushed p u))
              (λ _ v. push_one h hs done u v p k (refl, found, ready))
              (push_parents-Returns hs (done ++ p ∷ []) (pushed p u) (written-Changes _ u k.early k)
                (ap (λ (b : Block). b.parents) (written-eq _ u) ∙ ap (λ l. l ++ p ∷ []) e)))
