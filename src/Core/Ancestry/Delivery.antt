-- ===== src/Core/Ancestry/Delivery.antt =====
-- `on_deliver_blk` of src/consensus.cpp gives each block its ancestry, where heights do not wrap.
use ava_hotstuff.Prelude.{
  ℕ, ◌+◌, ◌^◌, ◌<◌, ◌≤◌, ◌≡◌, refl, sym, ap, ◌∙◌, ◌⊎◌, inl, inr, Bool, true, false, List, [], ◌∷◌,
  arith, ◌==◌, ==_iff, Bool-cases, if◌then◌else◌,
}
use ava_hotstuff.Exec.{Outcome, returns, throws, fault, endless, pure, ◌>>=◌}
use ava_hotstuff.Exec.Keeps.{Leaves}
use ava_hotstuff.Exec.Returns.{Returns-mono, Throws, Returns-Throws}
use ava_hotstuff.Entity.Config.{Hash}
use ava_hotstuff.Entity.Block.{Ref, Block, next_height}
use ava_hotstuff.Core.State.{Core, State, load}
use ava_hotstuff.Core.Deliver.{deliver, on_deliver_blk}
use ava_hotstuff.Core.Deliver.Parents.{AreDelivered}
use ava_hotstuff.Core.Deliver.Delivered.{IsNextHeight, Delivers, Delivery, on_deliver_blk-Delivery}
use ava_hotstuff.Core.Ancestry.{
  AllDelivered, AllDelivered-mono, IsChild, IsGrounded, IsGrounded-mono, extend-IsGrounded,
  keeps_delivered,
}
use ava_hotstuff.Core.Ancestry.Partly.{IsPartly, Partly, deliver-Fails}

-- A block that has changed only in part is still not delivered.
IsPartly-IsGrounded :
    (n : ℕ) (r : Ref) (c d : Core)
    → (c.heap r).delivered ≡ false
    → IsPartly r c d
    → IsGrounded n c
    → IsGrounded n d
IsPartly-IsGrounded n r c d early k g =
    extend-IsGrounded n c d (keeps_delivered r c d early k.others) (λ q e. inl (back q e)) unused g
  where
    back : (q : Ref) → (d.heap q).delivered ≡ true → (c.heap q).delivered ≡ true
    back q e = elim (Bool-cases (q == r)) [
      | inr ne ↦ ap (λ (b : Block). b.delivered) (sym (k.others q ne)) ∙ e
      | inl same ↦
          let at : q ≡ r = (==_iff q r).0 same in
          ap (λ x. (c.heap x).delivered) at
          ∙ sym k.same_delivered
          ∙ ap (λ x. (d.heap x).delivered) (sym at)
          ∙ e
    ]

    unused :
        (q : Ref) → d.next ≤ q → ((d.heap q).parent_hashes ≡ []) × ((d.heap q).delivered ≡ false)
    unused q le = elim (Bool-cases (q == r)) [
      | inr ne ↦ rw (k.others q ne) (g.unused q (omega (arith, k.same_next)))
      | inl same ↦
          let at : q ≡ r = (==_iff q r).0 same in
          let (no_hashes, _) = g.unused q (omega (arith, k.same_next)) in
          (
            ap (λ x. (d.heap x).parent_hashes) at
                ∙ k.same_hashes
                ∙ ap (λ x. (c.heap x).parent_hashes) (sym at)
                ∙ no_hashes,
            ap (λ x. (d.heap x).delivered) at ∙ k.same_delivered ∙ early,
          )
    ]

AreDelivered-AllDelivered :
    (c : Core) (hs : List Hash) (ps : List Ref) → AreDelivered c hs ps → AllDelivered c.heap ps
AreDelivered-AllDelivered c hs [] ds = tt
AreDelivered-AllDelivered c [] (p ∷ ps) ds = absurd ds
AreDelivered-AllDelivered c (h ∷ hs) (p ∷ ps) (_, d, ds) = (d, AreDelivered-AllDelivered c hs ps ds)

module _ {B : Type 0} (n : ℕ) (r : Ref) (s t : State B) (early : (s.core.heap r).delivered ≡ false)
    (d : Delivers r s t) (g : IsGrounded n s.core) (low : n + 1 < 2 ^ 32) where
  kept : (q : Ref) → (s.core.heap q).delivered ≡ true → t.core.heap q ≡ s.core.heap q
  kept = keeps_delivered r s.core t.core early d.others

  new_child :
      (hs : List Hash) (ps : List Ref)
      → (t.core.heap r).parents ≡ ps
      → AreDelivered s.core hs ps
      → IsNextHeight s.core.heap ps (t.core.heap r).height
      → ((t.core.heap r).height ≤ n + 1) × IsChild t.core.heap r (t.core.heap r)
  unfolding next_height
  new_child hs [] e ds h = absurd h
  new_child hs (p ∷ ps) e ds h =
      let all = AreDelivered-AllDelivered s.core hs (p ∷ ps) ds in
      let up : (t.core.heap r).height ≡ (s.core.heap p).height + 1 =
        omega (arith, h, g.bounded p all.0) in
      (
        omega (arith, up, g.bounded p all.0),
        inr (
          p,
          ps,
          e,
          AllDelivered-mono s.core.heap t.core.heap (p ∷ ps)
              (λ q f. ap (λ (b : Block). b.delivered) (kept q f) ∙ f) all,
          omega (arith, up, ap (λ (b : Block). b.height) (kept p all.0)),
        ),
      )

  names :
      (hs : List Hash) (ps : List Ref)
      → hs ≡ []
      → AreDelivered s.core hs ps
      → IsNextHeight s.core.heap ps (t.core.heap r).height
      → ⊥
  names hs [] e ds h = h
  names [] (p ∷ ps) e ds h = ds
  names (x ∷ hs) (p ∷ ps) e ds h = cc

  Delivers-IsGrounded : IsGrounded (n + 1) t.core
  Delivers-IsGrounded =
      extend-IsGrounded (n + 1) s.core t.core kept each unused
        (IsGrounded-mono n (n + 1) s.core (omega arith) g)
    where
      each :
          (q : Ref)
          → (t.core.heap q).delivered ≡ true
          → ((s.core.heap q).delivered ≡ true)
            ⊎ (((t.core.heap q).height ≤ n + 1) × IsChild t.core.heap q (t.core.heap q))
      each q e = elim (Bool-cases (q == r)) [
        | inr ne ↦ inl (ap (λ (b : Block). b.delivered) (sym (d.others q ne)) ∙ e)
        | inl same ↦ inr (
            rw ((==_iff q r).0 same)
              (new_child _ d.parents d.its_parents d.are_delivered d.its_height))
      ]

      unused :
          (q : Ref)
          → t.core.next ≤ q
          → ((t.core.heap q).parent_hashes ≡ []) × ((t.core.heap q).delivered ≡ false)
      unused q le = elim (Bool-cases (q == r)) [
        | inr ne ↦ rw (d.others q ne) (g.unused q (omega (arith, d.its_next)))
        | inl same ↦ absurd (
            names _ d.parents
              (ap (λ x. (s.core.heap x).parent_hashes) (sym ((==_iff q r).0 same))
                ∙ (g.unused q (omega (arith, d.its_next))).0)
              d.are_delivered d.its_height)
      ]

module _ {B : Type 0} (n : ℕ) (low : n + 1 < 2 ^ 32) where
  abbrev Raised : State B → Type 0
  Raised t = IsGrounded (n + 1) t.core

  -- A call of `on_deliver_blk` adds at most one to the greatest height.
  pub on_deliver_blk-IsGrounded :
      (r : Ref) (s : State B) → IsGrounded n s.core → Leaves Raised (on_deliver_blk r s)
  unfolding on_deliver_blk load pure ◌>>=◌
  on_deliver_blk-IsGrounded r s g =
      Returns-Throws Raised (on_deliver_blk r s)
        (Returns-mono (on_deliver_blk r s) delivers (on_deliver_blk-Delivery r s))
        (fails (s.core.heap r).delivered refl)
    where
      delivers : (ok : Bool) (t : State B) → Delivery r s ok t → Raised t
      delivers true t (early, d) = Delivers-IsGrounded n r s t early d g low
      delivers false t (_, same) = rw (← same) (IsGrounded-mono n (n + 1) s.core (omega arith) g)

      partly :
          (s.core.heap r).delivered ≡ false
          → (o : Outcome (State B) Bool) → Throws (Partly r s) o
          → Throws Raised o
      partly early (returns a t) h = tt
      partly early (throws e t) h =
          IsPartly-IsGrounded (n + 1) r s.core t.core early h
            (IsGrounded-mono n (n + 1) s.core (omega arith) g)
      partly early fault h = tt
      partly early endless h = tt

      fails :
          (d : Bool)
          → (s.core.heap r).delivered ≡ d
          → Throws Raised ((if d then pure false else deliver r (s.core.heap r)) s)
      fails true e = tt
      fails false e = partly e _ ((deliver-Fails r (s.core.heap r)).at s)
