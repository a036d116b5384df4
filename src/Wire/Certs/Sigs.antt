-- ===== src/Wire/Certs/Sigs.antt =====
-- The signatures of a certificate as the other side's loop reads them, for `serialize` and
-- `unserialize` of include/hotstuff/crypto.h.
use ava_hotstuff.Prelude.{
  ℕ, zero, suc, ◌+◌, ◌≤◌, ◌<◌, ◌≡◌, refl, sym, ap, subst, ◌∙◌, true, false, none, some, List, ◌++◌,
  arith, has, if◌then◌else◌, Bool-cases, Option-cases, some-inj, none-ne-some, inl, inr, ◌==◌,
  ==_iff,
}
use ava_hotstuff.Prelude.Assoc.{lookup, put, lookup-put}
use mathlib.Core.List.{append_assoc}
use ava_hotstuff.Entity.Config.{ReplicaId}
use ava_hotstuff.Crypto.{Sig, Secp256k1}
use ava_hotstuff.Wire.{Bytes, Stream, Reads, SameBits, IsFaithful}
use ava_hotstuff.Wire.Certs.{put_sigs, get_sigs}

-- What the loop reads of the signatures that the other side wrote.
pub sigs_read : Secp256k1 → ℕ → ℕ → List (ReplicaId × Sig) → List (ReplicaId × Sig)
unfolding has lookup put
sigs_read q zero i sigs = sigs
sigs_read q (suc n) i sigs =
    let skip = sigs_read q n (i + 1) sigs in
    if has i q.rids
    then elim (lookup i q.sigs) [ none ↦ skip | some x ↦ sigs_read q n (i + 1) (put i x sigs) ]
    else skip

lookup-sigs_read_below :
    (q : Secp256k1) (n i : ℕ) (sigs : List (ReplicaId × Sig)) (j : ℕ)
    → j < i
    → lookup j (sigs_read q n i sigs) ≡ lookup j sigs
unfolding sigs_read
lookup-sigs_read_below q zero i sigs j h = refl
lookup-sigs_read_below q (suc n) i sigs j h = elim (Bool-cases (has i q.rids)) [
  | inr off ↦ rw off (lookup-sigs_read_below q n (i + 1) sigs j (omega arith))
  | inl on ↦ elim (Option-cases (lookup i q.sigs)) [
    | inl missing ↦ rw on (rw missing (lookup-sigs_read_below q n (i + 1) sigs j (omega arith)))
    | inr (x, found) ↦ rw on (
        rw found (
          lookup-sigs_read_below q n (i + 1) (put i x sigs) j (omega arith)
          ∙ ground (arith, lookup-put i j x sigs)))
  ]
]

module _ (st : Stream) where
  pub get_sigs-Reads :
      (laws : IsFaithful st) (q : Secp256k1) (rids : List ReplicaId)
      → SameBits q.rids rids
      → (n i : ℕ) (sigs : List (ReplicaId × Sig)) (bs : Bytes) → put_sigs st q n i ≡ some bs
      → Reads (get_sigs st rids n i sigs) (sigs_read q n i sigs) bs
  unfolding put_sigs get_sigs sigs_read
  get_sigs-Reads laws q rids same zero i sigs bs e rest =
      ap (λ b. some (sigs, b ++ rest)) (sym (some-inj e))
  get_sigs-Reads laws q rids same (suc n) i sigs bs e rest = elim (Bool-cases (has i q.rids)) [
    | inr off ↦ rw off (
        rw (sym (same i) ∙ off)
          (get_sigs-Reads laws q rids same n (i + 1) sigs bs (rw off at e) rest))
    | inl on ↦ elim (Option-cases (lookup i q.sigs)) [
      | inl missing ↦ absurd (none-ne-some (rw missing at (rw on at e)))
      | inr (x, found) ↦ elim (Option-cases (put_sigs st q n (i + 1))) [
        | inl failed ↦ absurd (none-ne-some (rw failed at (rw found at (rw on at e))))
        | inr (cs, there) ↦
            subst
              (λ b.
                get_sigs st rids (suc n) i sigs (b ++ rest)
                ≡ some (sigs_read q (suc n) i sigs, rest))
              (some-inj (rw there at (rw found at (rw on at e))))
              (rw (sym (same i) ∙ on) (
                rw on (
                  rw found (
                    rw (append_assoc (st.sig.put x) cs rest) (
                      rw (laws.sig_back x (cs ++ rest)) (
                        get_sigs-Reads laws q rids same n (i + 1) (put i x sigs) cs there rest))))))
      ]
    ]
  ]

  pub lookup-sigs_read :
      (q : Secp256k1) (n i : ℕ) (sigs : List (ReplicaId × Sig)) (bs : Bytes) (j : ℕ)
      → put_sigs st q n i ≡ some bs
      → i ≤ j
      → j < i + n
      → has j q.rids ≡ true
      → lookup j (sigs_read q n i sigs) ≡ lookup j q.sigs
  unfolding put_sigs sigs_read
  lookup-sigs_read q zero i sigs bs j e lo hi on = absurd (omega arith)
  lookup-sigs_read q (suc n) i sigs bs j e lo hi on = elim (Bool-cases (has i q.rids)) [
    | inr off ↦
        rw off (lookup-sigs_read q n (i + 1) sigs bs j (rw off at e) (above off) (omega arith) on)
    | inl here ↦ elim (Option-cases (lookup i q.sigs)) [
      | inl missing ↦ absurd (none-ne-some (rw missing at (rw here at e)))
      | inr (x, found) ↦ elim (Option-cases (put_sigs st q n (i + 1))) [
        | inl failed ↦ absurd (none-ne-some (rw failed at (rw found at (rw here at e))))
        | inr (cs, there) ↦ rw here (
            rw found (elim (Bool-cases (i == j)) [
              | inl now ↦
                  lookup-sigs_read_below q n (i + 1) (put i x sigs) j
                    (omega (arith, (==_iff i j).0 now))
                  ∙ lookup-put i j x sigs
                  ∙ rw now (rw ((==_iff i j).0 now) at (sym found))
              | inr later ↦
                  lookup-sigs_read q n (i + 1) (put i x sigs) cs j there (past later) (omega arith)
                    on
            ]))
      ]
    ]
  ]
    where
      past : (i == j) ≡ false → i + 1 ≤ j
      past ne = ground arith

      above : has i q.rids ≡ false → i + 1 ≤ j
      above off = past (elim (Bool-cases (i == j)) [
        | inr ne ↦ ne
        | inl now ↦ absurd (clash (rw ((==_iff i j).0 now) at off))
      ])
        where
          clash : has j q.rids ≡ false → ⊥
          clash off = cc
