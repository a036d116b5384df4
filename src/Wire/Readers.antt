-- ===== src/Wire/Readers.antt =====
-- Readers in a row, the loops over the elements of a vector, and the rules by which what was written is read back.
use ava_hotstuff.Prelude.{
  ℕ, zero, suc, ◌%◌, ◌^◌, ◌<◌, refl, sym, subst, Option, none, some, List, [], ◌∷◌, ◌++◌, length,
}
use native.Mathlib.Nat.{mod-eq_of_lt}
use mathlib.Core.List.{append_assoc}
use ava_hotstuff.Wire.{Bytes, Reader, Serial, Stream, Reads, IsFaithful}

-- Bytes before those of a part that may fail to be written.
abbrev pub prepend : Bytes → Option Bytes → Option Bytes
prepend bs none = none
prepend bs (some cs) = some (bs ++ cs)

module _ {A : Type 0} where
  unfoldable pub done : A → Reader A
  done a bs = some (a, bs)

module _ {A B : Type 0} where
  abbrev pub feed : Option (A × Bytes) → (A → Reader B) → Option (B × Bytes)
  feed none k = none
  feed (some (a, bs)) k = k a bs

  infixl 5 ◌>>=◌
  unfoldable pub ◌>>=◌ : Reader A → (A → Reader B) → Reader B
  unfolding done
  ◌>>=◌ m k bs = feed (m bs) k

  pub Reads-bind :
      (m : Reader A) (k : A → Reader B) (a : A) (b : B) (bs cs : Bytes)
      → Reads m a bs
      → Reads (k a) b cs
      → Reads (m >>= k) b (bs ++ cs)
  unfolding ◌>>=◌
  Reads-bind m k a b bs cs h g rest = rw (append_assoc bs cs rest) (rw (h (cs ++ rest)) (g rest))

  -- A reader before one that reads nothing.
  pub Reads-end :
      (m : Reader A) (k : A → Reader B) (a : A) (b : B) (bs : Bytes)
      → Reads m a bs
      → Reads (k a) b []
      → Reads (m >>= k) b bs
  unfolding ◌>>=◌
  Reads-end m k a b bs h g rest = rw (h rest) (g rest)

  -- The last reader of a row.
  pub Reads-last :
      (m : Reader A) (f : A → B) (a : A) (bs : Bytes)
      → Reads m a bs
      → Reads (m >>= λ x. done (f x)) (f a) bs
  unfolding ◌>>=◌ done
  Reads-last m f a bs h rest = rw (h rest) refl

abbrev pub All : {A : Type 0} → (A → Type 0) → List A → Type 0
All P [] = Unit {0}
All P (x ∷ xs) = P x × All P xs

pub All-of :
    {A : Type 0} (P Q : A → Type 0) → ((x : A) → P x → Q x) → (xs : List A) → All P xs → All Q xs
All-of P Q h [] k = tt
All-of P Q h (x ∷ xs) (k, ks) = (h x k, All-of P Q h xs ks)

pub All-any : {A : Type 0} (P : A → Type 0) → ((x : A) → P x) → (xs : List A) → All P xs
All-any P h [] = tt
All-any P h (x ∷ xs) = (h x, All-any P h xs)

module _ {A : Type 0} (c : Serial A) where
  -- `for (const auto &x: xs) s << x;`
  unfoldable pub put_each : List A → Bytes
  put_each [] = []
  put_each (x ∷ xs) = c.put x ++ put_each xs

  -- `xs.resize(n); for (auto &x: xs) s >> x;`
  unfoldable pub get_each : ℕ → Reader (List A)
  unfolding ◌>>=◌ done
  get_each zero = done []
  get_each (suc n) = do x ← c.get; xs ← get_each n; done (x ∷ xs)

  pub get_each-Reads :
      (xs : List A)
      → All (λ x. Reads c.get x (c.put x)) xs
      → Reads (get_each (length xs)) xs (put_each xs)
  unfolding get_each put_each done
  get_each-Reads [] back = λ rest. refl
  get_each-Reads (x ∷ xs) (back, others) =
      Reads-bind c.get _ x (x ∷ xs) (c.put x) (put_each xs) back
        (Reads-last (get_each (length xs)) (λ l. x ∷ l) xs (put_each xs) (get_each-Reads xs others))

module _ (st : Stream) where
  -- `s << htole((uint32_t)n)`, and `s >> n; n = letoh(n);`
  unfoldable pub put_count : ℕ → Bytes
  put_count n = st.u32.put (st.htole (n % 2 ^ 32))

  unfoldable pub get_count : Reader ℕ
  unfolding ◌>>=◌ done
  get_count = do n ← st.u32.get; done (st.letoh n)

  pub get_count-Reads : IsFaithful st → (n : ℕ) → n < 2 ^ 32 → Reads get_count n (put_count n)
  unfolding get_count put_count
  get_count-Reads laws n fits =
      subst (λ m. Reads get_count n (st.u32.put (st.htole m))) (sym (mod-eq_of_lt fits))
        (subst (λ m. Reads get_count m (st.u32.put (st.htole n))) (laws.letoh-htole n fits)
          (Reads-last st.u32.get st.letoh (st.htole n) (st.u32.put (st.htole n))
            (laws.u32_back (st.htole n) (laws.htole_range n fits))))
