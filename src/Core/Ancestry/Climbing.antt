-- ===== src/Core/Ancestry/Climbing.antt =====
-- The loops over parents of src/consensus.cpp, from a delivered block: they come to an end.
use ava_hotstuff.Prelude.{
  ℕ, zero, suc, ◌+◌, ◌≤◌, ◌<◌, ◌≡◌, refl, sym, ap, ◌∙◌, length, ◌⊎◌, inl, inr, Bool, true, false,
  List, [], ◌∷◌, arith, ltb, ltb→lt, ◌==◌, Bool-cases,
}
use ava_hotstuff.Exec.{Outcome, returns, throws, fault, endless, ◌>>=◌}
use ava_hotstuff.Exec.Returns.{Ends, Succeeds}
use ava_hotstuff.Entity.Block.{Ref}
use ava_hotstuff.Core.State.{Core, State, load}
use ava_hotstuff.Core.Climb.{climb, reached, Climbs, stop, step, above, climb_stop, climb_step}
use ava_hotstuff.Core.Receive.{accept, extends_lock, qc_above_lock}
use ava_hotstuff.Core.Voting.Rule.{
  Accepts, accept-Accepts, IsLive, Extends, accept_sound, accept_short, agreed, false_ne_true,
}
use ava_hotstuff.Core.Ancestry.{IsGrounded, IsChild, HasParent}

module _ (n : ℕ) (c : Core) (g : IsGrounded n c) where
  -- A block above some height has a parent.
  parent_of :
      (b : Ref) (limit : ℕ)
      → limit < (c.heap b).height
      → IsChild c.heap b (c.heap b)
      → HasParent c.heap (c.heap b)
  parent_of b limit high (inl (_, _, low)) = absurd (omega (arith, low))
  parent_of b limit high (inr h) = h

  first_of :
      (b p : Ref) (ps : List Ref)
      → (c.heap b).parents ≡ p ∷ ps
      → HasParent c.heap (c.heap b)
      → ((c.heap p).delivered ≡ true) × ((c.heap b).height ≡ (c.heap p).height + 1)
  first_of b p ps e (q, qs, f, ds, up) = let same : q ≡ p = cc in rw (← same) (ds.0, up)

  -- The parents lead down from a delivered block to any height, and the loop follows them.
  pub climb_grounded :
      (limit rounds : ℕ) (b : Ref)
      → (c.heap b).delivered ≡ true
      → (c.heap b).height < rounds
      → (path : List Ref) × (e : Ref) × (climb c.heap limit rounds b ≡ reached path e)
  climb_grounded limit zero b d enough = absurd (omega arith)
  climb_grounded limit (suc rounds) b d enough = elim (Bool-cases (ltb limit (c.heap b).height)) [
    | inr lo ↦ ([], b, climb_stop c.heap limit rounds b lo)
    | inl hi ↦
        let (p, ps, e, ds, up) = parent_of b limit (ltb→lt _ _ hi) (g.child b d) in
        let (path, last, there) = climb_grounded limit rounds p ds.0 (omega (arith, up)) in
        (b ∷ path, last, climb_step c.heap limit rounds b p ps hi e ∙ ap (above b) there)
  ]

  -- And the way down is not longer than the block is high.
  Climbs-length_grounded :
      (limit : ℕ) {b e : Ref} {path : List Ref}
      → (c.heap b).delivered ≡ true
      → Climbs c.heap limit b path e
      → length path ≤ (c.heap b).height
  Climbs-length_grounded limit d (stop lo) = omega arith
  Climbs-length_grounded limit d (step {b} {p} {ps = ps} hi parents way) =
      let (ready, up) = first_of b p ps parents (parent_of b limit hi (g.child b d)) in
      omega (arith, up, Climbs-length_grounded limit ready way)

module _ {B : Type 0} where
  -- The rule of the protocol, decided.
  abbrev pub MayVote : State B → Ref → Type 0
  MayVote s r = (s.core.vheight < (s.core.heap r).height) × (IsLive s.core r ⊎ Extends s.core r)

  abbrev pub Decides : State B → Ref → Bool → State B → Type 0
  Decides s r true t = MayVote s r × (t ≡ agreed s (s.core.heap r).height)
  Decides s r false t = ¬ MayVote s r × (t ≡ s)

  extends_lock_ends :
      (s : State B) (h : ℕ) (lock last : Ref) (path : List Ref)
      → Succeeds (extends_lock h lock (reached path last) s)
  unfolding extends_lock ◌>>=◌
  extends_lock_ends s h lock last path = elim (Bool-cases (last == lock)) [
    | inl same ↦ rw same tt
    | inr other ↦ rw other tt
  ]

  accept_ends :
      (s : State B) (r : Ref) (n : ℕ)
      → IsGrounded n s.core
      → (s.core.heap r).delivered ≡ true
      → Succeeds (accept r s)
  unfolding accept ◌>>=◌ load
  accept_ends s r n g d = elim (Bool-cases (ltb s.core.vheight (s.core.heap r).height)) [
    | inr low ↦ rw low tt
    | inl high ↦
        rw high
          (elim (Bool-cases (qc_above_lock s.core.heap s.core.b_lock (s.core.heap r).qc_ref)) [
            | inl live ↦ rw live tt
            | inr stale ↦ rw stale (
                let limit = (s.core.heap s.core.b_lock).height in
                let (path, last, there) =
                  climb_grounded n s.core g limit (suc (s.core.heap r).height) r d (omega arith) in
                rw there (extends_lock_ends s (s.core.heap r).height s.core.b_lock last path))
          ])
  ]

  -- The opinion on a delivered block is given, and by that rule.
  pub accept-Decides :
      (s : State B) (r : Ref) (n : ℕ)
      → IsGrounded n s.core
      → (s.core.heap r).delivered ≡ true
      → Ends (Decides s r) (accept r s)
  accept-Decides s r n g d = decides (accept r s) refl (accept-Accepts s r) (accept_ends s r n g d)
    where
      good : MayVote s r → accept r s ≡ returns true (agreed s (s.core.heap r).height)
      good (high, why) =
          accept_short s r (λ path way. Climbs-length_grounded n s.core g _ d way) high why

      decides :
          (o : Outcome (State B) Bool)
          → accept r s ≡ o
          → Accepts s r o
          → Succeeds o
          → Ends (Decides s r) o
      decides (returns true t) e (same, _) _ = (accept_sound s t r e, same)
      decides (returns false t) e same _ = ((λ may. false_ne_true t _ (sym e ∙ good may)), same)
      decides (throws x t) e never _ = absurd never
      decides fault e _ never = absurd never
      decides endless e _ never = absurd never
