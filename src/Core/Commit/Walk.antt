-- ===== src/Core/Commit/Walk.antt =====
-- What `commit` does, the last part of `update` of src/consensus.cpp: it executes a block with all
-- those below it down to the last executed one, or throws.
use ava_hotstuff.Prelude.{
  suc, ◌≡◌, ◌≢◌, refl, ap, subst, ◌∙◌, ◌⊎◌, inl, inr, Bool, true, false, List, [], ◌∷◌, ◌++◌, ◌==◌,
  ==_iff, ◌||◌, reverse, arith, if◌then◌else◌, has, Bool-cases,
}
use mathlib.Core.List.{reverse_aux}
use ava_hotstuff.Exec.{
  Exec, returns, throws, safety_breached, pure, throw, crash, stuck, modify, ◌>>=◌,
}
use ava_hotstuff.Exec.Keeps.{bind-returns}
use ava_hotstuff.Entity.Block.{Ref, Heap}
use ava_hotstuff.Core.State.{Core, State, Hooks, first}
use ava_hotstuff.Core.Climb.{
  climb, Walk, reached, no_parent, no_rounds, Climbs, climb_sound, climb_complete, Climbs-length,
  Descends,
}
use ava_hotstuff.Core.Update.{commit_all, set_exec, commit_walk, commit}
use ava_hotstuff.Core.Commit.{consensus_of, decided, SettledCore, at_once}
use ava_hotstuff.Core.Commit.Steps.{commit_all-Committed}

reverse_aux-reverse_aux :
    (xs ys zs : List Ref) → reverse_aux (reverse_aux xs ys) zs ≡ reverse_aux ys (xs ++ zs)
reverse_aux-reverse_aux [] ys zs = refl
reverse_aux-reverse_aux (x ∷ xs) ys zs = reverse_aux-reverse_aux xs (x ∷ ys) zs

has-reverse_aux : (q : Ref) (xs ys : List Ref) → has q (reverse_aux xs ys) ≡ (has q xs || has q ys)
unfolding has
has-reverse_aux q [] ys = refl
has-reverse_aux q (x ∷ xs) ys = has-reverse_aux q xs (x ∷ ys) ∙ swap (q == x) (has q xs) (has q ys)
  where
    swap : (a b c : Bool) → (b || (a || c)) ≡ ((a || b) || c)
    swap true true c = refl
    swap true false c = refl
    swap false true c = refl
    swap false false c = refl

has-reverse : (q : Ref) (xs : List Ref) → has q (reverse xs) ≡ has q xs
has-reverse q xs = has-reverse_aux q xs [] ∙ or_none (has q xs)
  where
    or_none : (b : Bool) → (b || has q []) ≡ b
    or_none true = refl
    or_none false = unfold has in refl

-- The blocks from `r` down to the last executed one, highest first in `path`, are decided, and were
-- handed to `do_consensus` in rising order; `r` is the last executed one now.
pub record Commits (r : Ref) (path : List Ref) (c d : Core) : Type 0 where
  pub down : Climbs c.heap (c.heap c.b_exec).height r path c.b_exec
  pub exec : d.b_exec ≡ r
  pub ordered : consensus_of d.trace ≡ path ++ consensus_of c.trace
  pub decides : (q : Ref) → d.heap q ≡ (if has q path then decided (c.heap q) else c.heap q)

-- A commit after changes that touch none of the blocks.
pub Commits-after :
    (r : Ref) (path : List Ref) (c d e : Core)
    → SettledCore c d
    → Commits r path d e
    → Commits r path c e
Commits-after r path c d e h k = record {
  down = subst (λ (x : Heap × Ref). Climbs x.0 (x.0 x.1).height r path x.1) (cc) k.down;
  exec = k.exec;
  ordered = k.ordered ∙ ap (λ es. path ++ es) h.same_consensus;
  decides =
      λ q. k.decides q ∙ ap (λ (g : Heap). if has q path then decided (g q) else g q) h.same_heap;
}

module _ {B : Type 0} where
  pub first-returns :
      {A : Type 0} (rs : List Ref) (k : Ref → Exec (State B) A) (s t : State B) (a : A)
      → (first rs >>= k) s ≡ returns a t
      → (p : Ref) × (qs : List Ref) × (rs ≡ p ∷ qs) × (k p s ≡ returns a t)
  unfolding first crash ◌>>=◌
  first-returns [] k s t a e = cc
  first-returns (p ∷ qs) k s t a e = (p, qs, refl, e)

  pub when-returns :
      (b : Bool) (m : Exec (State B) (Unit {0})) (s t : State B)
      → (if b then m else pure tt) s ≡ returns tt t
      → ((b ≡ true) × (m s ≡ returns tt t)) ⊎ (s ≡ t)
  when-returns true m s t e = inl (refl, e)
  when-returns false m s t e = inr (at_once tt tt e)

module _ {B : Type 0} (hooks : Hooks B) where
  executed :
      (r : Ref) (s t : State B)
      → set_exec hooks r s ≡ returns tt t
      → (t.core.b_exec ≡ r) × (t.core.heap ≡ s.core.heap) × (t.core.trace ≡ s.core.trace)
  unfolding set_exec modify
  executed r s t e = (cc, cc, cc)

  queue_committed :
      (r : Ref) (path : List Ref) (s t : State B)
      → (commit_all hooks (reverse path) >>= λ _. set_exec hooks r) s ≡ returns tt t
      → Climbs s.core.heap (s.core.heap s.core.b_exec).height r path s.core.b_exec
      → Commits r path s.core t.core
  queue_committed r path s t e c =
      let (_, u, f, g) = bind-returns (commit_all hooks (reverse path)) _ s t tt e in
      let done = commit_all-Committed hooks (reverse path) s u f in
      let (at, same_heap, same_trace) = executed r u t g in
      record {
        down = c;
        exec = at;
        ordered = ap consensus_of same_trace ∙ done.in_order ∙ reverse_aux-reverse_aux path [] _;
        decides = λ q.
            ap (λ (h : Heap). h q) same_heap
            ∙ done.blocks q
            ∙ ap (λ b. if b then decided (s.core.heap q) else s.core.heap q) (has-reverse q path);
      }

  -- A throw is no return.
  commit_walk-returns :
      (r exec : Ref) (w : Walk) (s t : State B)
      → commit_walk hooks r exec w s ≡ returns tt t
      → (path : List Ref) × (w ≡ reached path exec)
        × ((commit_all hooks (reverse path) >>= λ _. set_exec hooks r) s ≡ returns tt t)
  unfolding commit_walk crash stuck throw
  commit_walk-returns r exec no_parent s t e = cc
  commit_walk-returns r exec no_rounds s t e = cc
  commit_walk-returns r exec (reached queue last) s t e = elim (Bool-cases (last == exec)) [
    | inl same ↦ (queue, ap (reached queue) ((==_iff last exec).0 same), rw same at e)
    | inr other ↦ absurd (never (rw other at e))
  ]
    where
      never : throws safety_breached s ≡ returns tt t → ⊥
      never h = cc

  -- What a commit that returns has done.
  pub commit_sound :
      (r : Ref) (s t : State B)
      → commit hooks r s ≡ returns tt t
      → (path : List Ref) × Commits r path s.core t.core
  unfolding commit ◌>>=◌
  commit_sound r s t e =
      let limit = (s.core.heap s.core.b_exec).height in
      let (path, w, f) =
        commit_walk-returns r s.core.b_exec (climb s.core.heap limit (suc (s.core.heap r).height) r)
          s t e in
      (
        path,
        queue_committed r path s t f
            (climb_sound s.core.heap limit (suc (s.core.heap r).height) r path s.core.b_exec w),
      )

  commit_walk_conflict :
      (r exec last : Ref) (path : List Ref) (s : State B)
      → last ≢ exec
      → commit_walk hooks r exec (reached path last) s ≡ throws safety_breached s
  unfolding commit_walk throw
  commit_walk_conflict r exec last path s ne = elim (Bool-cases (last == exec)) [
    | inl same ↦ absurd (ne ((==_iff last exec).0 same))
    | inr other ↦ rw other refl
  ]

  -- Where the parents of a block lead past the last executed one, to another block that is not higher,
  -- a commit of it throws the exception of a safety breach, and nothing has changed.
  pub commit_conflict :
      (r last : Ref) (path : List Ref) (s : State B)
      → Descends s.core.heap
      → Climbs s.core.heap (s.core.heap s.core.b_exec).height r path last
      → last ≢ s.core.b_exec
      → commit hooks r s ≡ throws safety_breached s
  unfolding commit ◌>>=◌
  commit_conflict r last path s d c ne =
      rw
        (climb_complete s.core.heap _ (suc (s.core.heap r).height) c
          (omega (arith, Climbs-length s.core.heap _ d c)))
        (commit_walk_conflict r s.core.b_exec last path s ne)
  -- What is left of `update` once `blk1` is known to be certified.
