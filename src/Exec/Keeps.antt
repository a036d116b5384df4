-- ===== src/Exec/Keeps.antt =====
-- Relations between the state before and after an action: one rule for each way to build one.
-- A relation that is reflexive and transitive passes from the parts of a method to the method.
use ava_hotstuff.Prelude.{◌≡◌, refl, subst, Bool, true, false, if◌then◌else◌}
use ava_hotstuff.Exec.{
  Error, Outcome, returns, throws, fault, endless, Exec, pure, throw, crash, stuck, gets, run,
  modify, continue, ◌>>=◌, zoom, zoomed,
}

-- The state that an action leaves, on return or on a throw, satisfies `P`.
abbrev pub Leaves : {S A : Type 0} → (S → Type 0) → Outcome S A → Type 0
Leaves P (returns a s) = P s
Leaves P (throws e s) = P s
Leaves P fault = Unit {0}
Leaves P endless = Unit {0}

pub record Preorder {S : Type 0} (R : S → S → Type 0) : Type 0 where
  pub same : (s : S) → R s s
  pub trans : (s t u : S) → R s t → R t u → R s u

pub record Keeps {S A : Type 0} (R : S → S → Type 0) (m : Exec S A) : Type 0 where
  pub at : (s : S) → Leaves (R s) (m s)

module _ {S : Type 0} {R : S → S → Type 0} (p : Preorder R) where
  Leaves-trans :
      {A : Type 0} (s t : S) → R s t → (o : Outcome S A) → Leaves (R t) o → Leaves (R s) o
  Leaves-trans s t h (returns a u) k = p.trans s t u h k
  Leaves-trans s t h (throws e u) k = p.trans s t u h k
  Leaves-trans s t h fault k = tt
  Leaves-trans s t h endless k = tt

  pub Keeps-pure : {A : Type 0} (a : A) → Keeps R (pure a)
  unfolding ◌>>=◌
  Keeps-pure a = record { at = p.same }

  pub Keeps-throw : {A : Type 0} (e : Error) → Keeps R (throw {A = A} e)
  unfolding ◌>>=◌
  Keeps-throw e = record { at = p.same }

  pub Keeps-gets : {A : Type 0} (f : S → A) → Keeps R (gets f)
  unfolding ◌>>=◌
  Keeps-gets f = record { at = p.same }

  pub Keeps-bind :
      {A B : Type 0} {m : Exec S A} {k : A → Exec S B}
      → Keeps R m
      → ((a : A) → Keeps R (k a))
      → Keeps R (m >>= k)
  unfolding ◌>>=◌
  Keeps-bind {A} {B} {m} {k} km kk = record { at = λ s. go s (m s) (km.at s) }
    where
      go : (s : S) (o : Outcome S A) → Leaves (R s) o → Leaves (R s) (continue o k)
      go s (returns a t) h = Leaves-trans s t h (k a t) ((kk a).at t)
      go s (throws e t) h = h
      go s fault h = tt
      go s endless h = tt

module _ {S : Type 0} {R : S → S → Type 0} where
  pub Keeps-crash : {A : Type 0} → Keeps R (crash {A = A})
  unfolding ◌>>=◌
  Keeps-crash = record { at = λ s. tt }

  pub Keeps-stuck : {A : Type 0} → Keeps R (stuck {A = A})
  unfolding ◌>>=◌
  Keeps-stuck = record { at = λ s. tt }

  pub Keeps-run : {A : Type 0} (f : S → A × S) → ((s : S) → R s (f s).1) → Keeps R (run f)
  unfolding ◌>>=◌
  Keeps-run f h = record { at = h }

  pub Keeps-modify : (f : S → S) → ((s : S) → R s (f s)) → Keeps R (modify f)
  unfolding ◌>>=◌
  Keeps-modify f h = record { at = h }

  pub Keeps-if :
      {A : Type 0} (b : Bool) {m n : Exec S A}
      → Keeps R m
      → Keeps R n
      → Keeps R (if b then m else n)
  Keeps-if true km kn = km
  Keeps-if false km kn = kn

  pub Keeps-mono :
      {T : S → S → Type 0} {A : Type 0} {m : Exec S A}
      → ((s t : S) → R s t → T s t)
      → Keeps R m
      → Keeps T m
  Keeps-mono {T} {A} {m} f k = record { at = λ s. go s (m s) (k.at s) }
    where
      go : (s : S) (o : Outcome S A) → Leaves (R s) o → Leaves (T s) o
      go s (returns a t) h = f s t h
      go s (throws e t) h = f s t h
      go s fault h = tt
      go s endless h = tt

-- From what the first part of an action leaves to what the whole leaves.
pub Leaves-continue :
    {S A B : Type 0} {P Q : S → Type 0} (o : Outcome S A) (k : A → Exec S B)
    → ((t : S) → P t → Q t)
    → ((a : A) (t : S) → P t → Leaves Q (k a t))
    → Leaves P o
    → Leaves Q (continue o k)
Leaves-continue (returns a t) k weak next h = next a t h
Leaves-continue (throws e t) k weak next h = weak t h
Leaves-continue fault k weak next h = tt
Leaves-continue endless k weak next h = tt

pub Leaves-mono :
    {S A : Type 0} {P Q : S → Type 0} (o : Outcome S A)
    → ((t : S) → P t → Q t)
    → Leaves P o
    → Leaves Q o
Leaves-mono (returns a t) f h = f t h
Leaves-mono (throws e t) f h = f t h
Leaves-mono fault f h = tt
Leaves-mono endless f h = tt

pub Keeps-from :
    {S A : Type 0} {R : S → S → Type 0} {Q : S → Type 0} {m : Exec S A}
    → Keeps R m
    → (s : S) → ((t : S) → R s t → Q t)
    → Leaves Q (m s)
Keeps-from {m} k s f = Leaves-mono (m s) f (k.at s)

-- The rest of a block after a part that keeps a relation.
pub Leaves-bind :
    {S A B : Type 0} {R : S → S → Type 0} {Q : S → Type 0} {m : Exec S A} (k : A → Exec S B)
    → Keeps R m
    → (s : S) → ((t : S) → R s t → Q t)
    → ((a : A) (t : S) → R s t → Leaves Q (k a t))
    → Leaves Q ((m >>= k) s)
unfolding ◌>>=◌
Leaves-bind {m} k keep s weak next = Leaves-continue (m s) k weak next (keep.at s)

-- A property that an action leaves whenever it holds before.
pub Leaves-under :
    {S A X : Type 0} (P : S → Type 0) (o : Outcome S A) → (X → Leaves P o) → Leaves (λ t. X → P t) o
Leaves-under P (returns a t) f = f
Leaves-under P (throws e t) f = f
Leaves-under P fault f = tt
Leaves-under P endless f = tt

pub Leaves-given :
    {S A X : Type 0} (P : S → Type 0) (o : Outcome S A) → Leaves (λ t. X → P t) o → X → Leaves P o
Leaves-given P (returns a t) f x = f x
Leaves-given P (throws e t) f x = f x
Leaves-given P fault f x = tt
Leaves-given P endless f x = tt

-- What returns from a block has returned from its parts.
pub bind-returns :
    {S A B : Type 0} (m : Exec S A) (k : A → Exec S B) (s t : S) (b : B)
    → (m >>= k) s ≡ returns b t
    → (a : A) × (u : S) × (m s ≡ returns a u) × (k a u ≡ returns b t)
unfolding ◌>>=◌
bind-returns m k s t b h = go (m s) refl h
  where
    go :
        (o : Outcome _ _)
        → m s ≡ o
        → continue o k ≡ returns b t
        → (a : _) × (u : _) × (m s ≡ returns a u) × (k a u ≡ returns b t)
    go (returns a u) e h = (a, u, e, h)
    go (throws x u) e h = cc
    go fault e h = cc
    go endless e h = cc

pub Keeps-returns :
    {S A : Type 0} {R : S → S → Type 0} {m : Exec S A}
    → Keeps R m
    → (s t : S) (a : A) → m s ≡ returns a t
    → R s t
Keeps-returns {R} {m} k s t a e = subst (Leaves (R s)) e (k.at s)

-- The rest of a block after a part that leaves `P`.
pub Leaves-then :
    {S A B : Type 0} (P Q : S → Type 0) (m : Exec S A) (k : A → Exec S B) (s : S)
    → Leaves P (m s)
    → ((t : S) → P t → Q t)
    → ((a : A) (t : S) → P t → Leaves Q (k a t))
    → Leaves Q ((m >>= k) s)
unfolding ◌>>=◌
Leaves-then P Q m k s h weak next = Leaves-continue (m s) k weak next h

-- From a part of the state to the whole.
pub Keeps-zoom :
    {S N A : Type 0} (get : S → N) (put : N → S → S) {R : N → N → Type 0} {T : S → S → Type 0}
    {m : Exec N A}
    → ((s : S) (n : N) → R (get s) n → T s (put n s))
    → Keeps R m
    → Keeps T (zoom get put m)
unfolding zoom
Keeps-zoom {S} {N} {A} get put {R} {T} {m} f k = record {
  at = λ s. go s (m (get s)) (k.at (get s));
}
  where
    go : (s : S) (o : Outcome N A) → Leaves (R (get s)) o → Leaves (T s) (zoomed get put s o)
    go s (returns a n) h = f s n h
    go s (throws e n) h = f s n h
    go s fault h = tt
    go s endless h = tt

pub Keeps-any : {S A : Type 0} (m : Exec S A) → Keeps (λ _ _. Unit {0}) m
Keeps-any {S} {A} m = record { at = λ s. go (m s) }
  where
    go : (o : Outcome S A) → Leaves (λ _. Unit {0}) o
    go (returns a t) = tt
    go (throws e t) = tt
    go fault = tt
    go endless = tt
