-- ===== src/Liveness/WaitQc/Settled.antt =====
-- What becomes of the beats that `PMWaitQC` (include/hotstuff/liveness.h) has taken from its queue.
use ava_hotstuff.Prelude.{
  ℕ, ◌+◌, ◌≡◌, refl, true, false, Option, none, some, List, [], ◌∷◌, ◌++◌, has, if◌then◌else◌,
  arith, ◌==◌, Bool-cases, Option-cases, inl, inr,
}
use ava_hotstuff.Entity.Block.{Ref}
use ava_hotstuff.Liveness.RoundRobin.Beats.{times, resolved_times, times-append}
use ava_hotstuff.Liveness.WaitQc.{WaitQc, drop_waiting, await_qc, on_certificate}

-- Every beat that was resolved waited for the certificate of a block that has one.
abbrev pub AreCertified : List Ref → List (ℕ × Ref) → Type 0
AreCertified certified [] = Unit {0}
AreCertified certified ((pm, blk) ∷ rs) = (has blk certified ≡ true) × AreCertified certified rs

abbrev pub waits : ℕ → Option (ℕ × Ref) → ℕ
waits pm none = 0
waits pm (some (b, blk)) = if b == pm then 1 else 0

-- The block that is waited for has no certificate yet.
abbrev pub IsOpen : List Ref → Option (ℕ × Ref) → Type 0
IsOpen certified none = Unit {0}
IsOpen certified (some (pm, blk)) = has blk certified ≡ false

-- The beats that were taken are resolved, lost or waiting.
pub record IsSettled (taken : List ℕ) (s : WaitQc) : Type 0 where
  pub counted :
      (pm : ℕ)
      → times pm taken ≡ (resolved_times pm s.resolved + times pm s.lost) + waits pm s.pm_qc_finish
  pub certain : AreCertified s.certified s.resolved
  pub still : IsOpen s.certified s.pm_qc_finish

pub drop_waiting-none : (s : WaitQc) → (drop_waiting s).pm_qc_finish ≡ none
unfolding drop_waiting
drop_waiting-none s = ground arith

pub drop_waiting-IsSettled : (s : WaitQc) → IsSettled s.taken s → IsSettled s.taken (drop_waiting s)
unfolding drop_waiting
drop_waiting-IsSettled s k = elim (Option-cases s.pm_qc_finish) [
  | inl e ↦ rw e (record { counted = λ q. rw e at (k.counted q); certain = k.certain; still = tt })
  | inr ((pm, blk), e) ↦ rw e (record {
    counted = λ q. omega (arith, rw e at (k.counted q));
    certain = k.certain;
    still = tt;
  })
]

pub await_qc-IsSettled :
    (pm : ℕ) (taken : List ℕ) (s : WaitQc)
    → s.pm_qc_finish ≡ none
    → IsSettled taken s
    → IsSettled (taken ++ pm ∷ []) (await_qc pm s)
unfolding await_qc
await_qc-IsSettled pm taken s e k = elim (Bool-cases (has s.last_proposed s.certified)) [
  | inl c ↦ rw c (record {
    counted = λ q. omega (arith, times-append q taken (pm ∷ []), k.counted q);
    certain = (c, k.certain);
    still = k.still;
  })
  | inr c ↦ rw c (elim (Bool-cases (has s.last_proposed s.rejected)) [
    | inl r ↦ rw r (record {
      counted = λ q. omega (arith, times-append q taken (pm ∷ []), k.counted q);
      certain = k.certain;
      still = k.still;
    })
    | inr r ↦ rw r (record {
      counted = λ q. omega (arith, times-append q taken (pm ∷ []), rw e at (k.counted q));
      certain = k.certain;
      still = c;
    })
  ])
]

certified_more :
    (blk : Ref) (certified : List Ref) (rs : List (ℕ × Ref))
    → AreCertified certified rs
    → AreCertified (blk ∷ certified) rs
unfolding has
certified_more blk certified [] k = tt
certified_more blk certified ((pm, b) ∷ rs) k =
    (ground (arith, k.0), certified_more blk certified rs k.1)

pub on_certificate-IsSettled :
    (blk : Ref) (s : WaitQc) → IsSettled s.taken s → IsSettled s.taken (on_certificate blk s)
unfolding on_certificate has
on_certificate-IsSettled blk s k = elim (Option-cases s.pm_qc_finish) [
  | inl e ↦ rw e (record {
    counted = λ q. rw e at (k.counted q);
    certain = certified_more blk s.certified s.resolved k.certain;
    still = tt;
  })
  | inr ((pm, b), e) ↦ rw e (elim (Bool-cases (b == blk)) [
    | inl f ↦ rw f (record {
      counted = λ q. omega (arith, rw e at (k.counted q));
      certain = (rw f refl, certified_more blk s.certified s.resolved k.certain);
      still = tt;
    })
    | inr f ↦ rw f (record {
      counted = λ q. rw e at (k.counted q);
      certain = certified_more blk s.certified s.resolved k.certain;
      still = rw f (rw e at k.still);
    })
  ])
]
