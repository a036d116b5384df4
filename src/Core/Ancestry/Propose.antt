-- ===== src/Core/Ancestry/Propose.antt =====
-- `on_propose` of src/consensus.cpp and the allocation of blocks keep the ancestry of the delivered
-- blocks.
use ava_hotstuff.Prelude.{
  ℕ, ◌+◌, ◌^◌, ◌<◌, ◌≡◌, refl, inl, inr, true, false, List, [], ◌∷◌, arith, ◌==◌, Bool-cases,
  Option-cases, leb, if◌then◌else◌,
}
use ava_hotstuff.Prelude.Int.{ℤ}
use ava_hotstuff.Exec.{
  Outcome, Exec, returns, throws, fault, endless, pure, continue, ◌>>=◌, ◌>>◌, not_above_vheight,
  gets, run, throw,
}
use ava_hotstuff.Exec.Keeps.{
  Keeps, Keeps-pure, Keeps-throw, Keeps-gets, Keeps-bind, Keeps-if, Keeps-from, Leaves, Leaves-then,
}
use ava_hotstuff.Entity.Config.{Hash}
use ava_hotstuff.Entity.Block.{Ref, Block, Heap, write}
use ava_hotstuff.Core.Messages.{plain_proposal}
use ava_hotstuff.Core.State.{
  Core, State, Hooks, load, deref, first, emit, proposed, broadcast_proposal,
}
use ava_hotstuff.Core.Deliver.{on_deliver_blk}
use ava_hotstuff.Core.Update.{update}
use ava_hotstuff.Core.Receive.{on_receive_proposal}
use ava_hotstuff.Crypto.{create_quorum_cert}
use ava_hotstuff.Core.Propose.{
  add_new, allocate, drop_tails, hashed, make_block, propose_block, on_propose,
}
use ava_hotstuff.Core.Rules.{load-Keeps}
use ava_hotstuff.Core.Rules.Methods.{update-Keeps}
use ava_hotstuff.Core.Progress.{Advances, Advances-preorder, emit-Advances, other-Advances}
use ava_hotstuff.Core.Progress.Handlers.{aside, Advances-rules, on_receive_proposal-Advances}
use ava_hotstuff.Core.Ancestry.{
  IsGrounded, IsGrounded-mono, AdvancesCore-IsGrounded, extend-IsGrounded, keeps_delivered,
}
use ava_hotstuff.Core.Ancestry.Delivery.{on_deliver_blk-IsGrounded}

write_other : (heap : Heap) (r q : Ref) (b : Block) → (q == r) ≡ false → write heap r b q ≡ heap q
unfolding write
write_other heap r q b ne = rw ne refl

write_early :
    (heap : Heap) (r q : Ref) (b : Block)
    → b.delivered ≡ false
    → (write heap r b q).delivered ≡ true
    → (heap q).delivered ≡ true
unfolding write
write_early heap r q b early e = elim (Bool-cases (q == r)) [
  | inr ne ↦ rw ne at e
  | inl same ↦ absurd (clash (rw same at e))
]
  where
    clash : b.delivered ≡ true → ⊥
    clash f = cc

-- A block that is added is not delivered yet.
add_new-IsGrounded :
    (n : ℕ) (b : Block) (c : Core)
    → b.delivered ≡ false
    → IsGrounded n c
    → IsGrounded n (add_new b c).1
unfolding add_new
add_new-IsGrounded n b c early g =
    extend-IsGrounded n c (add_new b c).1
      (keeps_delivered c.next c (add_new b c).1 (g.unused c.next (omega arith)).1
        λ q ne. write_other c.heap c.next q b ne)
      (λ q e. inl (write_early c.heap c.next q b early e))
      (λ q le. rw (write_other c.heap c.next q b (ground arith)) (g.unused q (omega arith))) g

module _ {B : Type 0} (n : ℕ) where
  abbrev pub Grounded : State B → Type 0
  Grounded s = IsGrounded n s.core

  -- What only advances keeps the ancestry.
  pub Advances-Grounded :
      {A : Type 0} {m : Exec (State B) A}
      → Keeps Advances m
      → (s : State B) → Grounded s
      → Leaves Grounded (m s)
  Advances-Grounded k s g = Keeps-from k s λ t a. AdvancesCore-IsGrounded n s.core t.core a g

  -- A new block is made without a change, and not delivered.
  abbrev Builds : State B → Outcome (State B) Block → Type 0
  Builds s (returns b t) = (b.delivered ≡ false) × (t ≡ s)
  Builds s (throws e t) = ⊥
  Builds s fault = Unit {0}
  Builds s endless = Unit {0}

  make_block-Builds :
      (hooks : Hooks B) (cmds : List Hash) (keys vals : List ℤ) (parents : List Ref)
      (extra : List ℕ) (s : State B)
      → Builds s (make_block hooks cmds keys vals parents extra s)
  unfolding make_block hashed deref first load ◌>>=◌
  make_block-Builds hooks cmds keys vals [] extra s = elim (Option-cases s.core.hqc) [
    | inl e ↦ rw e tt
    | inr (high, e) ↦ rw e tt
  ]
  make_block-Builds hooks cmds keys vals (p ∷ ps) extra s = elim (Option-cases s.core.hqc) [
    | inl e ↦ rw e tt
    | inr (high, e) ↦ rw e (refl, refl)
  ]

  continue-Builds :
      {A : Type 0} (P : State B → Type 0) (s : State B) (k : Block → Exec (State B) A)
      (o : Outcome (State B) Block)
      → Builds s o
      → ((b : Block) → b.delivered ≡ false → Leaves P (k b s))
      → Leaves P (continue o k)
  continue-Builds P s k (returns b t) (early, same) next = rw same (next b early)
  continue-Builds P s k (throws e t) never next = absurd never
  continue-Builds P s k fault h next = tt
  continue-Builds P s k endless h next = tt

  bind-Builds :
      {A : Type 0} (P : State B → Type 0) (m : Exec (State B) Block) (k : Block → Exec (State B) A)
      (s : State B)
      → Builds s (m s)
      → ((b : Block) → b.delivered ≡ false → Leaves P (k b s))
      → Leaves P ((m >>= k) s)
  unfolding ◌>>=◌
  bind-Builds P m k s h next = continue-Builds P s k (m s) h next

  pub allocate-Grounded :
      (hooks : Hooks B) (b : Block) (s : State B)
      → b.delivered ≡ false
      → Grounded s
      → Leaves Grounded (allocate hooks b s)
  unfolding allocate run
  allocate-Grounded hooks b s early g = add_new-IsGrounded n b s.core early g

module _ {B : Type 0} (hooks : Hooks B) where
  drops-Advances : (ps : List Ref) → Keeps Advances (drop_tails hooks ps)
  unfolding drop_tails
  drops-Advances ps = other-Advances _ λ c. aside c _ refl refl refl refl refl refl refl

  -- `on_propose` from the delivery of the new block on.
  rest-Advances :
      (r : Ref)
      → Keeps Advances (do
        update hooks r
        b ← load r
        c ← gets λ s. s.core
        if leb b.height c.vheight then throw not_above_vheight else (do
          on_receive_proposal hooks (plain_proposal c.id r)
          emit hooks (proposed (plain_proposal c.id r))
          emit hooks (broadcast_proposal (plain_proposal c.id r))
          pure r))
  rest-Advances r = Keeps-bind Advances-preorder (update-Keeps hooks (Advances-rules hooks) r) λ _.
      Keeps-bind Advances-preorder (load-Keeps Advances-preorder r) λ b.
        Keeps-bind Advances-preorder (Keeps-gets Advances-preorder _) λ c.
          Keeps-if (leb b.height c.vheight) (Keeps-throw Advances-preorder not_above_vheight) (
            Keeps-bind Advances-preorder
              (on_receive_proposal-Advances hooks (plain_proposal c.id r))
              λ _. Keeps-bind Advances-preorder (emit-Advances hooks _) λ _.
                Keeps-bind Advances-preorder (emit-Advances hooks _)
                  λ _. Keeps-pure Advances-preorder r)

  module _ (n : ℕ) (low : n + 1 < 2 ^ 32) where
    raise : (t : State B) → Grounded n t → Grounded (n + 1) t
    raise t g = IsGrounded-mono n (n + 1) t.core (omega arith) g

    -- A part that only advances, and the rest.
    advance_then :
        {A X : Type 0} {m : Exec (State B) A} (k : A → Exec (State B) X)
        → Keeps Advances m
        → (s : State B) → Grounded n s
        → ((a : A) (t : State B) → Grounded n t → Leaves (Grounded (n + 1)) (k a t))
        → Leaves (Grounded (n + 1)) ((m >>= k) s)
    advance_then {m = m} k keep s g next =
        Leaves-then (Grounded n) (Grounded (n + 1)) m k s (Advances-Grounded n keep s g) raise next

    propose_block-Grounded :
        (r : Ref) (s : State B) → Grounded n s → Leaves (Grounded (n + 1)) (propose_block hooks r s)
    unfolding propose_block
    propose_block-Grounded r s g = advance_then _ (load-Keeps Advances-preorder r) s g λ b t g1.
        advance_then _ (Keeps-gets Advances-preorder λ (s : State B). s.core.config) t g1
          λ config u g2.
            advance_then _ ((Advances-rules hooks).stores_qc r (create_quorum_cert config b.hash)) u
              g2
              λ _ v g3.
                Leaves-then (Grounded (n + 1)) (Grounded (n + 1)) (on_deliver_blk r) _ v
                  (on_deliver_blk-IsGrounded n low r v g3) (λ w h. h)
                  λ _ w g4. Advances-Grounded (n + 1) (rest-Advances r) w g4

    pub on_propose-Grounded :
        (cmds : List Hash) (keys vals : List ℤ) (parents : List Ref) (extra : List ℕ) (s : State B)
        → Grounded n s
        → Leaves (Grounded (n + 1)) (on_propose hooks cmds keys vals parents extra s)
    unfolding on_propose throw
    on_propose-Grounded cmds keys vals [] extra s g = raise s g
    on_propose-Grounded cmds keys vals (p ∷ ps) extra s g =
        advance_then _ (drops-Advances (p ∷ ps)) s g λ _ t g1.
          bind-Builds n (Grounded (n + 1)) (make_block hooks cmds keys vals (p ∷ ps) extra) _ t
            (make_block-Builds n hooks cmds keys vals (p ∷ ps) extra t)
            λ b early.
              Leaves-then (Grounded n) (Grounded (n + 1)) (allocate hooks b) _ t
                (allocate-Grounded n hooks b t early g1) raise
                λ r u g2. propose_block-Grounded r u g2
