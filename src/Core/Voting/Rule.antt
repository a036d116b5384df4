-- ===== src/Core/Voting/Rule.antt =====
-- The opinion that `on_receive_proposal` forms of a block.
use ava_hotstuff.Prelude.{
  ℕ, suc, ◌<◌, ◌≤◌, length, ◌≡◌, refl, ◌⊎◌, inl, inr, Bool, true, false, Option, none, some, List,
  arith, ltb, ltb→lt, lt→ltb, ◌==◌, Bool-cases,
}
use ava_hotstuff.Exec.{Outcome, returns, throws, fault, endless, ◌>>=◌}
use ava_hotstuff.Entity.Block.{Ref}
use ava_hotstuff.Core.State.{Core, State, load}
use ava_hotstuff.Core.Climb.{
  climb, Walk, reached, no_parent, no_rounds, Climbs, Climbs-length, Descends, climb_sound,
  climb_complete,
}
use ava_hotstuff.Core.Receive.{accept, extends_lock, qc_above_lock}

module _ {B : Type 0} where
  -- With a good opinion the height of the block, above the old `vheight`, becomes the new one, and
  -- nothing else changes; with a bad one nothing changes at all.
  abbrev pub Accepts : State B → Ref → Outcome (State B) Bool → Type 0
  Accepts s r (returns true t) =
      (t ≡ record s { core = record s.core { vheight = (s.core.heap r).height } })
      × (s.core.vheight < (s.core.heap r).height)
  Accepts s r (returns false t) = t ≡ s
  Accepts s r (throws e t) = ⊥
  Accepts s r fault = Unit {0}
  Accepts s r endless = Unit {0}

  extends_lock-Accepts :
      (s : State B) (r : Ref) (w : Walk)
      → s.core.vheight < (s.core.heap r).height
      → Accepts s r (extends_lock (s.core.heap r).height s.core.b_lock w s)
  unfolding extends_lock ◌>>=◌
  extends_lock-Accepts s r no_parent h = tt
  extends_lock-Accepts s r no_rounds h = tt
  extends_lock-Accepts s r (reached path last) h = elim (Bool-cases (last == s.core.b_lock)) [
    | inl e ↦ rw e (refl, h)
    | inr e ↦ rw e refl
  ]

  pub accept-Accepts : (s : State B) (r : Ref) → Accepts s r (accept r s)
  unfolding accept ◌>>=◌ load
  accept-Accepts s r = elim (Bool-cases (ltb s.core.vheight (s.core.heap r).height)) [
    | inr low ↦ rw low refl
    | inl high ↦
        rw high
          (elim (Bool-cases (qc_above_lock s.core.heap s.core.b_lock (s.core.heap r).qc_ref)) [
            | inl live ↦ rw live (refl, ltb→lt _ _ high)
            | inr stale ↦ rw stale (extends_lock-Accepts s r _ (ltb→lt _ _ high))
          ])
  ]

-- The block extends the locked one: first parents lead from it down to the lock.
abbrev pub Extends : Core → Ref → Type 0
Extends c r = (path : List Ref) × Climbs c.heap (c.heap c.b_lock).height r path c.b_lock

-- The block carries a certificate of a block above the locked one.
abbrev pub IsLive : Core → Ref → Type 0
IsLive c r =
    (q : Ref) × ((c.heap r).qc_ref ≡ some q) × ((c.heap c.b_lock).height < (c.heap q).height)

qc_above_lock-IsLive :
    (c : Core) (r : Ref) (o : Option Ref)
    → (c.heap r).qc_ref ≡ o
    → qc_above_lock c.heap c.b_lock o ≡ true
    → IsLive c r
unfolding qc_above_lock
qc_above_lock-IsLive c r none e h = cc
qc_above_lock-IsLive c r (some q) e h = (q, e, ltb→lt _ _ h)

not_stale :
    (c : Core) (r : Ref) → IsLive c r → qc_above_lock c.heap c.b_lock (c.heap r).qc_ref ≡ false → ⊥
unfolding qc_above_lock
not_stale c r (q, e, h) stale = ground arith

==_refl : (n : ℕ) → (n == n) ≡ true
==_refl n = ground arith

module _ {B : Type 0} where
  pub false_ne_true : (s t : State B) → returns false s ≡ returns true t → ⊥
  false_ne_true s t e = cc

  abbrev pub agreed : State B → ℕ → State B
  agreed s h = record s { core = record s.core { vheight = h } }

  extends_lock-reached :
      (s t : State B) (h : ℕ) (lock : Ref) (w : Walk)
      → extends_lock h lock w s ≡ returns true t
      → (path : List Ref) × (w ≡ reached path lock)
  unfolding extends_lock ◌>>=◌
  extends_lock-reached s t h lock no_parent e = cc
  extends_lock-reached s t h lock no_rounds e = cc
  extends_lock-reached s t h lock (reached path last) e = elim (Bool-cases (last == lock)) [
    | inl same ↦ (path, ground arith)
    | inr other ↦ ground arith
  ]

  -- A good opinion means that the block is higher than the last one voted for, and that it carries
  -- a certificate above the lock or extends the locked block.
  pub accept_sound :
      (s t : State B) (r : Ref)
      → accept r s ≡ returns true t
      → (s.core.vheight < (s.core.heap r).height) × (IsLive s.core r ⊎ Extends s.core r)
  unfolding accept ◌>>=◌ load
  accept_sound s t r e = elim (Bool-cases (ltb s.core.vheight (s.core.heap r).height)) [
    | inr low ↦ absurd (false_ne_true s t (rw low at e))
    | inl high ↦ (
      ltb→lt _ _ high,
      elim (Bool-cases (qc_above_lock s.core.heap s.core.b_lock (s.core.heap r).qc_ref)) [
        | inl live ↦ inl (qc_above_lock-IsLive s.core r _ refl live)
        | inr stale ↦
            let e' = rw stale at (rw high at e) in
            let h = (s.core.heap r).height in
            let limit = (s.core.heap s.core.b_lock).height in
            let (path, there) =
              extends_lock-reached s t h s.core.b_lock (climb s.core.heap limit (suc h) r) e' in
            inr (path, climb_sound s.core.heap limit (suc h) r path s.core.b_lock there)
      ],
    )
  ]

  -- The loop is given rounds enough for the way down to the lock.
  pub accept_short :
      (s : State B) (r : Ref)
      → ((path : List Ref)
          → Climbs s.core.heap (s.core.heap s.core.b_lock).height r path s.core.b_lock
          → length path ≤ (s.core.heap r).height)
      → s.core.vheight < (s.core.heap r).height
      → IsLive s.core r ⊎ Extends s.core r
      → accept r s ≡ returns true (agreed s (s.core.heap r).height)
  unfolding accept ◌>>=◌ load extends_lock
  accept_short s r short high why =
      rw (lt→ltb _ _ high)
        (elim (Bool-cases (qc_above_lock s.core.heap s.core.b_lock (s.core.heap r).qc_ref)) [
          | inl live ↦ rw live refl
          | inr stale ↦ rw stale (elim why [
            | inl live ↦ absurd (not_stale s.core r live stale)
            | inr (path, c) ↦
                rw (climb_complete _ _ (suc (s.core.heap r).height) c (omega (arith, short path c)))
                  (rw (==_refl s.core.b_lock) refl)
          ])
        ])

  -- And such a block gets a good opinion, where every parent is lower than its child.
  pub accept_complete :
      (s : State B) (r : Ref)
      → Descends s.core.heap
      → s.core.vheight < (s.core.heap r).height
      → IsLive s.core r ⊎ Extends s.core r
      → accept r s ≡ returns true (agreed s (s.core.heap r).height)
  accept_complete s r d high why =
      accept_short s r (λ path c. omega (arith, Climbs-length _ _ d c)) high why
