-- ===== src/Liveness/Fixed.antt =====
-- include/hotstuff/liveness.h, `PaceMakerDummyFixed`: a proposer that is changed by hand. A replica's
-- name is a `uint16_t`.
use ava_hotstuff.Prelude.{ℕ, zero, suc, ◌+◌, ◌-◌, ◌%◌, ◌^◌, ◌≤◌, ◌<◌, ◌≡◌, ap, sym, ◌∙◌, arith}
use native.Mathlib.Nat.{mod-lt, mod-eq_of_lt, mod-add-mod, add-mod-mod, add-mod_right}
use ava_hotstuff.Entity.Config.{ReplicaId}

-- `proposer = (proposer + 1) % nreplicas`
unfoldable pub rotate : ℕ → ReplicaId → ReplicaId
rotate nreplicas proposer = (proposer + 1) % nreplicas % 2 ^ 16

unfoldable pub set_proposer : ReplicaId → ReplicaId → ReplicaId
set_proposer new_prop proposer = new_prop

unfoldable pub get_proposer : ReplicaId → ReplicaId
get_proposer proposer = proposer

unfoldable pub beat_resp : ReplicaId → ReplicaId → ReplicaId
beat_resp last_proposer proposer = proposer

unfoldable pub rotate_times : ℕ → ℕ → ReplicaId → ReplicaId
unfolding rotate
rotate_times zero nreplicas proposer = proposer
rotate_times (suc k) nreplicas proposer = rotate_times k nreplicas (rotate nreplicas proposer)

rotate-eq : (n p : ℕ) → 0 < n → n ≤ 2 ^ 16 → rotate n p ≡ (p + 1) % n
unfolding rotate
rotate-eq n p some_replica fits = mod-eq_of_lt (omega (arith, mod-lt (p + 1) some_replica))

rotate_times-eq : (k n p : ℕ) → p < n → n ≤ 2 ^ 16 → rotate_times k n p ≡ (p + k) % n
unfolding rotate_times
rotate_times-eq zero n p inside fits = sym (mod-eq_of_lt inside) ∙ ap (λ x. x % n) (omega arith)
rotate_times-eq (suc k) n p inside fits =
    ap (rotate_times k n) (rotate-eq n p (omega arith) fits)
    ∙ rotate_times-eq k n ((p + 1) % n) (mod-lt (p + 1) (omega arith)) fits
    ∙ mod-add-mod (p + 1) n k
    ∙ ap (λ x. x % n) (omega arith)

-- From any proposer, every replica becomes the proposer within fewer rotations than there are
-- replicas, where these are no more than the names of 16 bits.
pub rotate_times-reaches :
    (n p t : ℕ) → p < n → t < n → n ≤ 2 ^ 16 → (k : ℕ) × (k < n) × (rotate_times k n p ≡ t)
rotate_times-reaches n p t inside to fits = (
  (n - p + t) % n,
  mod-lt (n - p + t) (omega arith),
  rotate_times-eq ((n - p + t) % n) n p inside fits
      ∙ add-mod-mod p (n - p + t) n
      ∙ ap (λ x. x % n) (omega arith)
      ∙ add-mod_right t n
      ∙ mod-eq_of_lt to,
)
