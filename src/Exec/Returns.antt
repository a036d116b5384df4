-- ===== src/Exec/Returns.antt =====
-- What holds of the result and the state if an action returns, and that it returns.
use ava_hotstuff.Exec.{Outcome, returns, throws, fault, endless, Exec, continue, ◌>>=◌}
use ava_hotstuff.Exec.Keeps.{Preorder, Keeps, Leaves}

abbrev pub Returns : {S A : Type 0} → (A → S → Type 0) → Outcome S A → Type 0
Returns P (returns a s) = P a s
Returns P (throws e s) = Unit {0}
Returns P fault = Unit {0}
Returns P endless = Unit {0}

pub Returns-bind :
    {S A X : Type 0} (P : A → S → Type 0) (Q : X → S → Type 0) (m : Exec S A) (k : A → Exec S X)
    (s : S)
    → Returns P (m s)
    → ((a : A) (t : S) → P a t → Returns Q (k a t))
    → Returns Q ((m >>= k) s)
unfolding ◌>>=◌
Returns-bind {S} {A} {X} P Q m k s h next = go (m s) h
  where
    go : (o : Outcome S A) → Returns P o → Returns Q (continue o k)
    go (returns a t) g = next a t g
    go (throws e t) g = tt
    go fault g = tt
    go endless g = tt

pub Returns-mono :
    {S A : Type 0} {P Q : A → S → Type 0} (o : Outcome S A)
    → ((a : A) (t : S) → P a t → Q a t)
    → Returns P o
    → Returns Q o
Returns-mono (returns a t) f h = f a t h
Returns-mono (throws e t) f h = tt
Returns-mono fault f h = tt
Returns-mono endless f h = tt

-- The action returns, and `P` holds of the result and the state.
abbrev pub Ends : {S A : Type 0} → (A → S → Type 0) → Outcome S A → Type 0
Ends P (returns a s) = P a s
Ends P (throws e s) = ⊥
Ends P fault = ⊥
Ends P endless = ⊥

abbrev pub Succeeds : {S A : Type 0} → Outcome S A → Type 0
Succeeds o = Ends (λ _ _. Unit {0}) o

pub Succeeds-bind :
    {S A X : Type 0} (P : A → S → Type 0) (m : Exec S A) (k : A → Exec S X) (s : S)
    → Returns P (m s)
    → Succeeds (m s)
    → ((a : A) (t : S) → P a t → Succeeds (k a t))
    → Succeeds ((m >>= k) s)
unfolding ◌>>=◌
Succeeds-bind {S} {A} {X} P m k s h ends next = go (m s) h ends
  where
    go : (o : Outcome S A) → Returns P o → Succeeds o → Succeeds (continue o k)
    go (returns a t) g _ = next a t g
    go (throws e t) g never = never
    go fault g never = never
    go endless g never = never

pub Ends-bind :
    {S A X : Type 0} (P : A → S → Type 0) (Q : X → S → Type 0) (m : Exec S A) (k : A → Exec S X)
    (s : S)
    → Ends P (m s)
    → ((a : A) (t : S) → P a t → Ends Q (k a t))
    → Ends Q ((m >>= k) s)
unfolding ◌>>=◌
Ends-bind {S} {A} {X} P Q m k s ends next = go (m s) ends
  where
    go : (o : Outcome S A) → Ends P o → Ends Q (continue o k)
    go (returns a t) g = next a t g
    go (throws e t) never = never
    go fault never = never
    go endless never = never

-- What an action that returns leaves, besides.
pub Ends-Leaves :
    {S A : Type 0} (P : A → S → Type 0) (Q : S → Type 0) (o : Outcome S A)
    → Ends P o
    → Leaves Q o
    → Ends (λ a t. P a t × Q t) o
Ends-Leaves P Q (returns a t) g h = (g, h)
Ends-Leaves P Q (throws e t) never _ = never
Ends-Leaves P Q fault never _ = never
Ends-Leaves P Q endless never _ = never

pub Ends-mono :
    {S A : Type 0} {P Q : A → S → Type 0} (o : Outcome S A)
    → ((a : A) (t : S) → P a t → Q a t)
    → Ends P o
    → Ends Q o
Ends-mono (returns a t) f h = f a t h
Ends-mono (throws e t) f never = never
Ends-mono fault f never = never
Ends-mono endless f never = never

-- What holds of the state that an exception leaves.
abbrev pub Throws : {S A : Type 0} → (S → Type 0) → Outcome S A → Type 0
Throws Q (returns a s) = Unit {0}
Throws Q (throws e s) = Q s
Throws Q fault = Unit {0}
Throws Q endless = Unit {0}

pub record Fails {S A : Type 0} (R : S → S → Type 0) (m : Exec S A) : Type 0 where
  pub at : (s : S) → Throws (R s) (m s)

pub Fails-bind :
    {S A X : Type 0} {R : S → S → Type 0} (p : Preorder R) {m : Exec S A} {k : A → Exec S X}
    → Keeps R m
    → ((a : A) → Fails R (k a))
    → Fails R (m >>= k)
unfolding ◌>>=◌
Fails-bind {S} {A} {X} {R} p {m} {k} keep next = record { at = λ s. go s (m s) (keep.at s) }
  where
    weaken : (s t : S) → R s t → (o : Outcome S X) → Throws (R t) o → Throws (R s) o
    weaken s t h (returns a u) f = tt
    weaken s t h (throws e u) f = p.trans s t u h f
    weaken s t h fault f = tt
    weaken s t h endless f = tt

    go : (s : S) (o : Outcome S A) → Leaves (R s) o → Throws (R s) (continue o k)
    go s (returns a t) h = weaken s t h (k a t) ((next a).at t)
    go s (throws e t) h = h
    go s fault h = tt
    go s endless h = tt

-- Both exits of an action.
pub Returns-Throws :
    {S A : Type 0} (P : S → Type 0) (o : Outcome S A) → Returns (λ _. P) o → Throws P o → Leaves P o
Returns-Throws P (returns a t) g h = g
Returns-Throws P (throws e t) g h = h
Returns-Throws P fault g h = tt
Returns-Throws P endless g h = tt
