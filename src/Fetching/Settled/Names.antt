-- ===== src/Fetching/Settled/Names.antt =====
-- `on_deliver_blk` of src/consensus.cpp does not change the hash or the parents' hashes of a block.
use ava_hotstuff.Prelude.{
  ◌≡◌, refl, ◌∙◌, true, List, [], ◌∷◌, ◌++◌, some, ◌==◌, Bool-cases, inl, inr, ==_iff,
}
use ava_hotstuff.Exec.{continue, pure, crash, gets, ◌>>=◌}
use ava_hotstuff.Exec.Keeps.{Preorder, Keeps, Keeps-bind, Keeps-modify, Leaves}
use ava_hotstuff.Entity.Block.{Ref, Block, write, next_height}
use ava_hotstuff.Core.State.{State, load, store, first}
use ava_hotstuff.Core.Deliver.{
  on_deliver_blk, clear_parents, push_parent, set_height, set_qc_ref, replace_tails, mark_delivered,
  store_in_map_for_mc,
}
use ava_hotstuff.Core.Rules.{load-Keeps}
use ava_hotstuff.Core.Rules.Delivery.{DeliveryRules, on_deliver_blk-Keeps}

pub record Renames (b d : Block) : Type 0 where
  pub same_hash : d.hash ≡ b.hash
  pub same_parent_hashes : d.parent_hashes ≡ b.parent_hashes

module _ {B : Type 0} where
  abbrev pub SameNames : State B → State B → Type 0
  SameNames s t = (q : Ref) → Renames (s.core.heap q) (t.core.heap q)

  alike : (s : State B) → SameNames s s
  alike s q = record { same_hash = refl; same_parent_hashes = refl }

  SameNames-Preorder : Preorder SameNames
  SameNames-Preorder = record {
    same = alike;
    trans = λ s t u h k q. record {
      same_hash = (k q).same_hash ∙ (h q).same_hash;
      same_parent_hashes = (k q).same_parent_hashes ∙ (h q).same_parent_hashes;
    };
  }

  written-Renames :
      (r : Ref) (d : Block) (s : State B)
      → Renames (s.core.heap r) d
      → (q : Ref) → Renames (s.core.heap q) (write s.core.heap r d q)
  unfolding write
  written-Renames r d s h q = elim (Bool-cases (q == r)) [
    | inl e ↦ rw e (rw ((==_iff q r).0 e) h)
    | inr e ↦ rw e (alike s q)
  ]

  change-SameNames :
      (r : Ref) (f : Block → Block)
      → ((b : Block) → (f b).hash ≡ b.hash)
      → ((b : Block) → (f b).parent_hashes ≡ b.parent_hashes)
      → Keeps SameNames (do b ← load {B = B} r; store r (f b))
  unfolding load store ◌>>=◌
  change-SameNames r f h k = record {
    at = λ s.
        written-Renames r (f (s.core.heap r)) s
          (record { same_hash = h (s.core.heap r); same_parent_hashes = k (s.core.heap r) });
  }

  set_height-SameNames : (r : Ref) → Keeps SameNames (set_height {B = B} r)
  unfolding set_height load store first pure crash gets ◌>>=◌
  set_height-SameNames r = record { at = λ s. go s (s.core.heap r).parents }
    where
      raised : State B → Ref → Block
      raised s p = record (s.core.heap r) { height = next_height (s.core.heap p).height }

      go :
          (s : State B) (ps : List Ref)
          → Leaves (SameNames s) (
              continue (first ps s) λ p. do
                pb ← load p
                store r (record (s.core.heap r) { height = next_height pb.height }))
      go s [] = tt
      go s (p ∷ ps) =
          written-Renames r (raised s p) s (record { same_hash = refl; same_parent_hashes = refl })

  name-DeliveryRules : (r : Ref) → DeliveryRules SameNames r
  unfolding clear_parents push_parent set_qc_ref replace_tails mark_delivered store_in_map_for_mc
  name-DeliveryRules r = record {
    references = record {
      preorder = SameNames-Preorder;
      clears = change-SameNames r (λ b. record b { parents = [] }) (λ b. refl) (λ b. refl);
      pushes = λ p.
          change-SameNames r (λ b. record b { parents = b.parents ++ p ∷ [] }) (λ b. refl)
            (λ b. refl);
      sets_height = set_height-SameNames r;
      refers = λ q. change-SameNames r (λ b. record b { qc_ref = some q }) (λ b. refl) (λ b. refl);
    };
    moves_tails = λ ps. Keeps-modify _ alike;
    delivers = change-SameNames r (λ b. record b { delivered = true }) (λ b. refl) (λ b. refl);
    maps_cid =
        Keeps-bind SameNames-Preorder (load-Keeps SameNames-Preorder r) λ b. Keeps-modify _ alike;
  }

  pub on_deliver_blk-SameNames : (r : Ref) → Keeps SameNames (on_deliver_blk {B = B} r)
  on_deliver_blk-SameNames r = on_deliver_blk-Keeps r (name-DeliveryRules r)
