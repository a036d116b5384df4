-- ===== src/Core/Ancestry/Partly.antt =====
-- What `on_deliver_blk` of src/consensus.cpp leaves when it throws: a block that is delivered in part.
use ava_hotstuff.Prelude.{◌≡◌, refl, ◌∙◌, ◌++◌, true, false, some, List, [], ◌∷◌, ◌==◌, ==_iff}
use ava_hotstuff.Exec.{pure, crash, gets, modify, continue, ◌>>=◌, ◌>>◌}
use ava_hotstuff.Exec.Keeps.{Preorder, Keeps, Leaves}
use ava_hotstuff.Exec.Returns.{Fails, Fails-bind}
use ava_hotstuff.Entity.Block.{Ref, Block, write, next_height}
use ava_hotstuff.Core.State.{Core, State, load, store, first}
use ava_hotstuff.Core.Deliver.{
  clear_parents, push_parent, set_height, set_qc_ref, replace_tails, mark_delivered,
  store_in_map_for_mc, deliver,
}
use ava_hotstuff.Core.Rules.Delivery.{ReferenceRules, push_parents-Keeps, refer_qc-Keeps}

-- Only `r` has changed, and neither its delivery nor the hashes that it names.
pub record IsPartly (r : Ref) (c d : Core) : Type 0 where
  pub others : (q : Ref) → (q == r) ≡ false → d.heap q ≡ c.heap q
  pub same_next : d.next ≡ c.next
  pub same_hashes : (d.heap r).parent_hashes ≡ (c.heap r).parent_hashes
  pub same_delivered : (d.heap r).delivered ≡ (c.heap r).delivered

write-IsPartly :
    (r : Ref) (c : Core) (b : Block)
    → b.parent_hashes ≡ (c.heap r).parent_hashes
    → b.delivered ≡ (c.heap r).delivered
    → IsPartly r c (record c { heap = write c.heap r b })
unfolding write
write-IsPartly r c b h d = record {
  others = λ q ne. rw ne refl;
  same_next = refl;
  same_hashes = rw ((==_iff r r).1 refl) h;
  same_delivered = rw ((==_iff r r).1 refl) d;
}

module _ {B : Type 0} (r : Ref) where
  abbrev pub Partly : State B → State B → Type 0
  Partly s t = IsPartly r s.core t.core

  Partly-preorder : Preorder Partly
  Partly-preorder = record {
    same = λ s. record {
      others = λ q ne. refl;
      same_next = refl;
      same_hashes = refl;
      same_delivered = refl;
    };
    trans = λ s t u h k. record {
      others = λ q ne. k.others q ne ∙ h.others q ne;
      same_next = k.same_next ∙ h.same_next;
      same_hashes = k.same_hashes ∙ h.same_hashes;
      same_delivered = k.same_delivered ∙ h.same_delivered;
    };
  }

  change-Partly :
      (f : Block → Block)
      → ((b : Block) → (f b).parent_hashes ≡ b.parent_hashes)
      → ((b : Block) → (f b).delivered ≡ b.delivered)
      → Keeps Partly (do b ← load {B = B} r; store r (f b))
  unfolding load store ◌>>=◌
  change-Partly f h d = record {
    at = λ s. write-IsPartly r s.core (f (s.core.heap r)) (h (s.core.heap r)) (d (s.core.heap r));
  }

  set_height-Partly : Keeps Partly (set_height {B = B} r)
  unfolding set_height load store first pure crash gets ◌>>=◌
  set_height-Partly = record { at = λ s. go s (s.core.heap r).parents }
    where
      go :
          (s : State B) (ps : List Ref)
          → Leaves (Partly s) (
              continue (first ps s) λ p. do
                pb ← load p
                store r (record (s.core.heap r) { height = next_height pb.height }))
      go s [] = tt
      go s (p ∷ ps) =
          write-IsPartly r s.core
            (record (s.core.heap r) { height = next_height (s.core.heap p).height }) refl refl

  Partly-rules : ReferenceRules Partly r
  unfolding clear_parents push_parent set_qc_ref
  Partly-rules = record {
    preorder = Partly-preorder;
    clears = change-Partly (λ b. record b { parents = [] }) (λ b. refl) (λ b. refl);
    pushes = λ p.
        change-Partly (λ b. record b { parents = b.parents ++ p ∷ [] }) (λ b. refl) (λ b. refl);
    sets_height = set_height-Partly;
    refers = λ q. change-Partly (λ b. record b { qc_ref = some q }) (λ b. refl) (λ b. refl);
  }

  finish-Fails : Fails Partly (do
    b ← load {B = B} r
    replace_tails b.parents r
    mark_delivered r
    store_in_map_for_mc r
    pure true)
  unfolding replace_tails mark_delivered store_in_map_for_mc load store pure modify ◌>>=◌
  finish-Fails = record { at = λ s. tt }

  -- An exception is thrown before the block is marked.
  pub deliver-Fails : (b : Block) → Fails Partly (deliver {B = B} r b)
  unfolding deliver
  deliver-Fails b = Fails-bind Partly-preorder Partly-rules.clears λ _.
      Fails-bind Partly-preorder (push_parents-Keeps r Partly-rules b.parent_hashes) λ _.
        Fails-bind Partly-preorder set_height-Partly
          λ _. Fails-bind Partly-preorder (refer_qc-Keeps r Partly-rules b.qc) λ _. finish-Fails
