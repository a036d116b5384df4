-- ===== src/Core/Commit/Chain.antt =====
-- When `update` of src/consensus.cpp commits, and what: the first block of a chain of three, whose
-- certificates and parents agree, and with it every block below it down to the last executed one.
use ava_hotstuff.Prelude.{
  ◌≡◌, refl, sym, ap, subst, ◌∙◌, ◌⊎◌, inl, inr, true, Option, none, some, List, ◌∷◌, ◌==◌, ==_iff,
}
use ava_hotstuff.Exec.{returns, ◌>>=◌}
use ava_hotstuff.Exec.Keeps.{bind-returns, Keeps-returns}
use ava_hotstuff.Entity.Block.{Ref, Block, Heap}
use ava_hotstuff.Core.State.{Core, State, Hooks, load}
use ava_hotstuff.Core.Update.{
  commit_direct, update_blk, update_blk1, update_blk2, update, update_hqc, raise_lock,
}
use ava_hotstuff.Core.Commit.{Settled, Settled-preorder, at_once}
use ava_hotstuff.Core.Commit.Steps.{update_hqc-Settled, raise_lock-Settled}
use ava_hotstuff.Core.Commit.Walk.{
  Commits, Commits-after, first-returns, when-returns, commit_sound,
}

-- `blk2`, `blk1`, `blk`: each is the block that the one before has a certificate for, and the
-- first parent of the one before; none is decided.
pub record IsThreeChain (c : Core) (nblk blk2 blk1 blk : Ref) : Type 0 where
  pub certified2 : (c.heap nblk).qc_ref ≡ some blk2
  pub certified1 : (c.heap blk2).qc_ref ≡ some blk1
  pub certified : (c.heap blk1).qc_ref ≡ some blk
  pub parent1 : (ps : List Ref) × ((c.heap blk2).parents ≡ blk1 ∷ ps)
  pub parent : (ps : List Ref) × ((c.heap blk1).parents ≡ blk ∷ ps)
  pub undecided2 : (c.heap blk2).decision ≡ 0
  pub undecided1 : (c.heap blk1).decision ≡ 0
  pub undecided : (c.heap blk).decision ≡ 0

-- The blocks that `update` commits, in `path`, and the three blocks that let it.
pub record CommitsChain (c : Core) (nblk : Ref) (d : Core) : Type 0 where
  pub blk2 : Ref
  pub blk1 : Ref
  pub blk : Ref
  pub chain : IsThreeChain c nblk blk2 blk1 blk
  pub path : List Ref
  pub commits : Commits blk path c d

module _ {B : Type 0} (hooks : Hooks B) where
  Settled-of_same : {s t : State B} → s ≡ t → Settled s t
  Settled-of_same {s} {t} e = subst (Settled s) e (Settled-preorder.same s)

  record Tail (b2 : Block) (blk1 : Ref) (b1 : Block) (blk : Ref) (s t : State B) : Type 0 where
    pub parent1 : (ps : List Ref) × (b2.parents ≡ blk1 ∷ ps)
    pub parent : (ps : List Ref) × (b1.parents ≡ blk ∷ ps)
    pub commits : (path : List Ref) × Commits blk path s.core t.core

  commit_direct-returns :
      (b2 : Block) (blk1 : Ref) (b1 : Block) (blk : Ref) (s t : State B)
      → commit_direct hooks b2 blk1 b1 blk s ≡ returns tt t
      → (s ≡ t) ⊎ Tail b2 blk1 b1 blk s t
  unfolding commit_direct
  commit_direct-returns b2 blk1 b1 blk s t e =
      let (p2, qs, at2, e2) = first-returns b2.parents _ s t tt e in
      elim (when-returns (p2 == blk1) _ s t e2) [
        | inr same ↦ inl same
        | inl (is1, e3) ↦
            let (p1, ps, at1, e4) = first-returns b1.parents _ s t tt e3 in
            elim (when-returns (p1 == blk) _ s t e4) [
              | inr same ↦ inl same
              | inl (is, e5) ↦ inr (record {
                parent1 = (qs, at2 ∙ ap (λ p. p ∷ qs) ((==_iff p2 blk1).0 is1));
                parent = (ps, at1 ∙ ap (λ p. p ∷ ps) ((==_iff p1 blk).0 is));
                commits = commit_sound hooks blk s t e5;
              })
            ]
      ]

  update_blk-returns :
      (b2 : Block) (blk1 : Ref) (b1 : Block) (o : Option Ref) (s t : State B)
      → update_blk hooks b2 blk1 b1 o s ≡ returns tt t
      → (s ≡ t)
        ⊎ ((blk : Ref) × (o ≡ some blk)
            × ((s.core.heap blk).decision ≡ 0)
            × Tail b2 blk1 b1 blk s t)
  unfolding update_blk ◌>>=◌ load
  update_blk-returns b2 blk1 b1 none s t e = inl (at_once tt tt e)
  update_blk-returns b2 blk1 b1 (some blk) s t e =
      elim (when-returns ((s.core.heap blk).decision == 0) (commit_direct hooks b2 blk1 b1 blk) s t
        e) [
          | inr same ↦ inl same
          | inl (undecided, e1) ↦ elim (commit_direct-returns b2 blk1 b1 blk s t e1) [
            | inl same ↦ inl same
            | inr tail ↦ inr (blk, refl, (==_iff _ 0).0 undecided, tail)
          ]
        ]

  -- `update` from `blk1` on.
  record Tail1 (b2 : Block) (o : Option Ref) (s t : State B) : Type 0 where
    blk1 : Ref
    blk : Ref
    is_blk1 : o ≡ some blk1
    is_blk : (s.core.heap blk1).qc_ref ≡ some blk
    undecided1 : (s.core.heap blk1).decision ≡ 0
    undecided : (s.core.heap blk).decision ≡ 0
    parent1 : (ps : List Ref) × (b2.parents ≡ blk1 ∷ ps)
    parent : (ps : List Ref) × ((s.core.heap blk1).parents ≡ blk ∷ ps)
    commits : (path : List Ref) × Commits blk path s.core t.core

  update_blk1-returns :
      (b2 : Block) (o : Option Ref) (s t : State B)
      → update_blk1 hooks b2 o s ≡ returns tt t
      → Settled s t ⊎ Tail1 b2 o s t
  unfolding update_blk1 ◌>>=◌ load
  update_blk1-returns b2 none s t e = inl (Settled-of_same (at_once tt tt e))
  update_blk1-returns b2 (some blk1) s t e =
      elim (when-returns ((s.core.heap blk1).decision == 0) _ s t e) [
        | inr same ↦ inl (Settled-of_same same)
        | inl (undecided1, e1) ↦
            let b1 = s.core.heap blk1 in
            let (_, u, f, e2) = bind-returns (raise_lock hooks blk1) _ s t tt e1 in
            let up = Keeps-returns (raise_lock-Settled hooks blk1) s u tt f in
            elim (update_blk-returns b2 blk1 b1 b1.qc_ref u t e2) [
              | inl same ↦ inl (Settled-preorder.trans s u t up (Settled-of_same same))
              | inr (blk, is_blk, undecided, tail) ↦ inr (record {
                blk1 = blk1;
                blk = blk;
                is_blk1 = refl;
                is_blk = is_blk;
                undecided1 = (==_iff _ 0).0 undecided1;
                undecided = sym (ap (λ (h : Heap). (h blk).decision) up.same_heap) ∙ undecided;
                parent1 = tail.parent1;
                parent = tail.parent;
                commits =
                    let (path, k) = tail.commits in
                    (path, Commits-after blk path s.core u.core t.core up k);
              })
            ]
      ]

  chain_of :
      (nblk blk2 : Ref) (s u t : State B)
      → (s.core.heap nblk).qc_ref ≡ some blk2
      → ((s.core.heap blk2).decision == 0) ≡ true
      → Settled s u
      → Tail1 (s.core.heap blk2) (s.core.heap blk2).qc_ref u t
      → CommitsChain s.core nblk t.core
  chain_of nblk blk2 s u t at undecided2 up k =
      let heap : (q : Ref) → u.core.heap q ≡ s.core.heap q =
        λ q. ap (λ (h : Heap). h q) up.same_heap in
      let (ps, is_parent) = k.parent in
      let (path, done) = k.commits in
      record {
        blk2 = blk2;
        blk1 = k.blk1;
        blk = k.blk;
        chain = record {
          certified2 = at;
          certified1 = k.is_blk1;
          certified = sym (ap (λ (b : Block). b.qc_ref) (heap k.blk1)) ∙ k.is_blk;
          parent1 = k.parent1;
          parent = (ps, sym (ap (λ (b : Block). b.parents) (heap k.blk1)) ∙ is_parent);
          undecided2 = (==_iff _ 0).0 undecided2;
          undecided1 = sym (ap (λ (b : Block). b.decision) (heap k.blk1)) ∙ k.undecided1;
          undecided = sym (ap (λ (b : Block). b.decision) (heap k.blk)) ∙ k.undecided;
        };
        path = path;
        commits = Commits-after k.blk path s.core u.core t.core up done;
      }

  update_blk2-returns :
      (nblk : Ref) (o : Option Ref) (s t : State B)
      → (s.core.heap nblk).qc_ref ≡ o
      → update_blk2 hooks (s.core.heap nblk) o s ≡ returns tt t
      → Settled s t ⊎ CommitsChain s.core nblk t.core
  unfolding update_blk2 ◌>>=◌ load
  update_blk2-returns nblk none s t at e = inl (Settled-of_same (at_once tt tt e))
  update_blk2-returns nblk (some blk2) s t at e =
      let b2 = s.core.heap blk2 in
      elim (when-returns (b2.decision == 0) _ s t e) [
        | inr same ↦ inl (Settled-of_same same)
        | inl (undecided2, e1) ↦
            let (_, u, f, e2) =
              bind-returns (update_hqc hooks blk2 (s.core.heap nblk).qc) _ s t tt e1 in
            let up = Keeps-returns (update_hqc-Settled hooks blk2 _) s u tt f in
            elim (update_blk1-returns b2 b2.qc_ref u t e2) [
              | inl same ↦ inl (Settled-preorder.trans s u t up same)
              | inr k ↦ inr (chain_of nblk blk2 s u t at undecided2 up k)
            ]
      ]

  -- In the three-step build, `update` leaves every block, the last executed one and the decisions
  -- made so far as they are, unless the new block has certificates back over three undecided blocks
  -- that are each other's direct parents: then the third is executed, and exactly it and the blocks
  -- below it down to the last executed one are decided and announced, each once, parents first.
  pub update_three_chain :
      (nblk : Ref) (s t : State B)
      → update hooks nblk s ≡ returns tt t
      → Settled s t ⊎ CommitsChain s.core nblk t.core
  unfolding update ◌>>=◌ load
  update_three_chain nblk s t e = update_blk2-returns nblk (s.core.heap nblk).qc_ref s t refl e
