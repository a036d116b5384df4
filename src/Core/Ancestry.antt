-- ===== src/Core/Ancestry.antt =====
-- The ancestry of the blocks of `HotStuffCore` (src/consensus.cpp): what `on_deliver_blk` establishes
-- of every delivered block, its parents and its height, and what the loops over parents owe to it.
pub mod Climbing
pub mod Commit
pub mod Decided
pub mod Delivery
pub mod Partly
pub mod Propose
pub mod Run
pub mod Start
use ava_hotstuff.Prelude.{
  ℕ, ◌+◌, ◌≤◌, ◌≡◌, refl, sym, subst, ap, ◌∙◌, ◌⊎◌, inl, inr, true, false, List, [], ◌∷◌, arith,
  ◌==◌, ==_iff, Bool-cases,
}
use ava_hotstuff.Entity.Block.{Ref, Block, Heap}
use ava_hotstuff.Core.State.{Core, State}
use ava_hotstuff.Core.Progress.{SameBlock, AdvancesCore}

abbrev pub AllDelivered : Heap → List Ref → Type 0
AllDelivered heap [] = Unit {0}
AllDelivered heap (p ∷ ps) = ((heap p).delivered ≡ true) × AllDelivered heap ps

-- The genesis block, at height 0 and with no parents; or a block whose parents are all delivered, and
-- which is one higher than the first.
abbrev pub IsRoot : Ref → Block → Type 0
IsRoot r b = (r ≡ 0) × (b.parents ≡ []) × (b.height ≡ 0)

abbrev pub HasParent : Heap → Block → Type 0
HasParent heap b =
    (p : Ref) × (ps : List Ref) × (b.parents ≡ p ∷ ps)
    × AllDelivered heap (p ∷ ps)
    × (b.height ≡ (heap p).height + 1)

abbrev pub IsChild : Heap → Ref → Block → Type 0
IsChild heap r b = IsRoot r b ⊎ HasParent heap b

-- No delivered block is above `n`; each has its parents; the blocks from `next` on are not in use.
pub record IsGrounded (n : ℕ) (c : Core) : Type 0 where
  pub bounded : (r : Ref) → (c.heap r).delivered ≡ true → (c.heap r).height ≤ n
  pub child : (r : Ref) → (c.heap r).delivered ≡ true → IsChild c.heap r (c.heap r)
  pub unused :
      (r : Ref) → c.next ≤ r → ((c.heap r).parent_hashes ≡ []) × ((c.heap r).delivered ≡ false)

pub IsGrounded-mono : (m n : ℕ) (c : Core) → m ≤ n → IsGrounded m c → IsGrounded n c
IsGrounded-mono m n c le g = record {
  bounded = λ r d. omega (arith, g.bounded r d);
  child = g.child;
  unused = g.unused;
}

-- A heap in which each delivered block is still delivered and as high.
pub AllDelivered-mono :
    (g h : Heap) (ps : List Ref)
    → ((r : Ref) → (g r).delivered ≡ true → (h r).delivered ≡ true)
    → AllDelivered g ps
    → AllDelivered h ps
AllDelivered-mono g h [] keep d = tt
AllDelivered-mono g h (p ∷ ps) keep (d, ds) = (keep p d, AllDelivered-mono g h ps keep ds)

IsChild-mono :
    (g h : Heap) (r : Ref) (b d : Block)
    → ((p : Ref) → (g p).delivered ≡ true → (h p).delivered ≡ true)
    → ((p : Ref) → (g p).delivered ≡ true → (h p).height ≡ (g p).height)
    → d.parents ≡ b.parents
    → d.height ≡ b.height
    → IsChild g r b
    → IsChild h r d
IsChild-mono g h r b d keep level ps hs (inl (at, e, f)) = inl (at, ps ∙ e, hs ∙ f)
IsChild-mono g h r b d keep level ps hs (inr (p, qs, e, ds, f)) =
    inr (p, qs, ps ∙ e, AllDelivered-mono g h (p ∷ qs) keep ds, omega (arith, hs, f, level p ds.0))

-- A step that leaves each block in its place.
pub record SamePlace (b d : Block) : Type 0 where
  pub same_height : d.height ≡ b.height
  pub same_parents : d.parents ≡ b.parents
  pub same_parent_hashes : d.parent_hashes ≡ b.parent_hashes
  pub same_delivered : d.delivered ≡ b.delivered

pub SamePlace-IsGrounded :
    (n : ℕ) (c d : Core)
    → d.next ≡ c.next
    → ((r : Ref) → SamePlace (c.heap r) (d.heap r))
    → IsGrounded n c
    → IsGrounded n d
SamePlace-IsGrounded n c d same_next same g = record {
  bounded = λ r e. omega (arith, g.bounded r (back r e), (same r).same_height);
  child = λ r e.
      IsChild-mono c.heap d.heap r (c.heap r) (d.heap r) (λ p f. (same p).same_delivered ∙ f)
        (λ p f. (same p).same_height) (same r).same_parents (same r).same_height
        (g.child r (back r e));
  unused = λ r le.
      let (no_hashes, early) = g.unused r (omega (arith, same_next)) in
      ((same r).same_parent_hashes ∙ no_hashes, (same r).same_delivered ∙ early);
}
  where
    back : (r : Ref) → (d.heap r).delivered ≡ true → (c.heap r).delivered ≡ true
    back r e = sym (same r).same_delivered ∙ e

-- What only advances keeps all this.
pub AdvancesCore-IsGrounded :
    (n : ℕ) (c d : Core) → AdvancesCore c d → IsGrounded n c → IsGrounded n d
AdvancesCore-IsGrounded n c d a g = SamePlace-IsGrounded n c d a.same_next same g
  where
    same : (r : Ref) → SamePlace (c.heap r) (d.heap r)
    same r = record {
      same_height = (a.blocks r).same_height;
      same_parents = (a.blocks r).same_parents;
      same_parent_hashes = (a.blocks r).same_parent_hashes;
      same_delivered = (a.blocks r).same_delivered;
    }

-- A step that leaves the delivered blocks as they are, and after which each new one has its parents.
pub extend-IsGrounded :
    (n : ℕ) (c d : Core)
    → ((q : Ref) → (c.heap q).delivered ≡ true → d.heap q ≡ c.heap q)
    → ((q : Ref)
        → (d.heap q).delivered ≡ true
        → ((c.heap q).delivered ≡ true) ⊎ (((d.heap q).height ≤ n) × IsChild d.heap q (d.heap q)))
    → ((q : Ref) → d.next ≤ q → ((d.heap q).parent_hashes ≡ []) × ((d.heap q).delivered ≡ false))
    → IsGrounded n c
    → IsGrounded n d
extend-IsGrounded n c d kept each unused g = record {
  bounded = λ q e. elim (each q e) [
    | inl f ↦ omega (arith, g.bounded q f, ap (λ (b : Block). b.height) (kept q f))
    | inr (le, _) ↦ le
  ];
  child = λ q e. elim (each q e) [
    | inl f ↦
        IsChild-mono c.heap d.heap q (c.heap q) (d.heap q)
          (λ p f. ap (λ (b : Block). b.delivered) (kept p f) ∙ f)
          (λ p f. ap (λ (b : Block). b.height) (kept p f))
          (ap (λ (b : Block). b.parents) (kept q f)) (ap (λ (b : Block). b.height) (kept q f))
          (g.child q f)
    | inr (_, h) ↦ h
  ];
  unused = unused;
}

-- A step that changes one block, which is not delivered.
pub keeps_delivered :
    (r : Ref) (c d : Core)
    → (c.heap r).delivered ≡ false
    → ((q : Ref) → (q == r) ≡ false → d.heap q ≡ c.heap q)
    → (q : Ref) → (c.heap q).delivered ≡ true
    → d.heap q ≡ c.heap q
keeps_delivered r c d early others q f = elim (Bool-cases (q == r)) [
  | inr ne ↦ others q ne
  | inl same ↦ absurd (clash (ap (λ x. (c.heap x).delivered) ((==_iff q r).0 same) ∙ early))
]
  where
    clash : (c.heap q).delivered ≡ false → ⊥
    clash e = cc
