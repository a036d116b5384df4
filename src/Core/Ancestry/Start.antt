-- ===== src/Core/Ancestry/Start.antt =====
-- What the start of `HotStuffCore` leaves has no delivered block but the genesis block.
use ava_hotstuff.Prelude.{
  ℕ, ◌+◌, ◌/◌, ◌≤◌, ◌≡◌, refl, sym, subst, inl, inr, true, false, List, [], ◌∷◌, arith, ◌==◌,
  ==_iff, Bool-cases,
}
use ava_hotstuff.Entity.Config.{ReplicaId, ReplicaInfo, Hash}
use ava_hotstuff.Entity.Block.{Ref, Block, Heap, write}
use ava_hotstuff.Core.State.{Core, init_core}
use ava_hotstuff.Core.Setup.{on_init, add_replica, add_replicas, start_mc}
use ava_hotstuff.Core.Ancestry.{IsGrounded, SamePlace, SamePlace-IsGrounded}

write-SamePlace :
    (heap : Heap) (r q : Ref) (b : Block)
    → SamePlace (heap r) b
    → SamePlace (heap q) (write heap r b q)
unfolding write
write-SamePlace heap r q b same = elim (Bool-cases (q == r)) [
  | inl e ↦ rw e (subst (λ p. SamePlace (heap p) b) (sym ((==_iff q r).0 e)) same)
  | inr e ↦ rw e (record {
    same_height = refl;
    same_parents = refl;
    same_parent_hashes = refl;
    same_delivered = refl;
  })
]

not_genesis : (r : Ref) → 1 ≤ r → (r == 0) ≡ false
not_genesis r le = ground arith

init_core-IsGrounded :
    (id : ReplicaId) (cluster : ℕ) (get_hash : Block → Hash)
    → IsGrounded 0 (init_core id cluster get_hash)
unfolding init_core write
init_core-IsGrounded id cluster get_hash = record {
  bounded = λ r e. elim (Bool-cases (r == 0)) [
    | inl z ↦ rw z (omega arith)
    | inr nz ↦ rw nz (omega arith)
  ];
  child = λ r e. elim (Bool-cases (r == 0)) [
    | inl z ↦ rw z (inl ((==_iff r 0).0 z, refl, refl))
    | inr nz ↦ absurd (never (rw nz at e))
  ];
  unused = λ r le. rw (not_genesis r le) (refl, refl);
}
  where
    never : false ≡ true → ⊥
    never e = cc

on_init-IsGrounded : (nfaulty : ℕ) (c : Core) → IsGrounded 0 c → IsGrounded 0 (on_init nfaulty c)
unfolding on_init
on_init-IsGrounded nfaulty c g =
    SamePlace-IsGrounded 0 c (on_init nfaulty c) refl
      (λ q. write-SamePlace c.heap c.b0 q _ (record {
        same_height = refl;
        same_parents = refl;
        same_parent_hashes = refl;
        same_delivered = refl;
      }))
      g

add_replicas-IsGrounded :
    (i : ReplicaId) (infos : List ReplicaInfo) (c : Core)
    → IsGrounded 0 c
    → IsGrounded 0 (add_replicas i infos c)
unfolding add_replicas add_replica
add_replicas-IsGrounded i [] c g = g
add_replicas-IsGrounded i (info ∷ infos) c g =
    add_replicas-IsGrounded (i + 1) infos (add_replica i info c) (
      SamePlace-IsGrounded 0 c (add_replica i info c) refl
        (λ q. write-SamePlace c.heap c.b0 q _ (record {
          same_height = refl;
          same_parents = refl;
          same_parent_hashes = refl;
          same_delivered = refl;
        }))
        g)

-- What `start_mc` leaves has no delivered block but the genesis block.
pub start_mc-IsGrounded :
    (id : ReplicaId) (cluster : ℕ) (get_hash : Block → Hash) (npeers : ℕ) (infos : List ReplicaInfo)
    → IsGrounded 0 (start_mc npeers infos (init_core id cluster get_hash))
unfolding start_mc
start_mc-IsGrounded id cluster get_hash npeers infos =
    on_init-IsGrounded (npeers / 3) (add_replicas 0 infos (init_core id cluster get_hash)) (
      add_replicas-IsGrounded 0 infos (init_core id cluster get_hash)
        (init_core-IsGrounded id cluster get_hash))
