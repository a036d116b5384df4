-- ===== src/Core/Complain/Majority.antt =====
-- A remote complaint is sent with the complaint that makes a majority (`on_receive_LComplain` of
-- src/consensus.cpp), and at no other.
use ava_hotstuff.Prelude.{
  ◌+◌, ◌≡◌, refl, sym, ap, ◌∙◌, Bool, true, false, not, ◌&&◌, some, List, [], ◌∷◌, ◌==◌, ltb, arith,
  if◌then◌else◌, has, insert, length, Bool-cases, inl, inr,
}
use ava_hotstuff.Exec.{returns, ◌>>=◌}
use ava_hotstuff.Entity.Config.{ReplicaId, ReplicaConfig}
use ava_hotstuff.Entity.Block.{Ref, Block, Heap, write}
use ava_hotstuff.Entity.Storage.{find_blk}
use ava_hotstuff.Core.Messages.{Complain}
use ava_hotstuff.Core.State.{State, Hooks, Event, send_rcomplain, load, store, emit, push_event}
use ava_hotstuff.Core.Deliver.{get_delivered_blk, need_delivered, sanity_check_delivered}
use ava_hotstuff.Core.Complain.{
  signed_complain, add_lcomplain, count_lcomplain, on_receive_lcomplain,
}

-- The remote complaints that were sent, newest first.
abbrev pub rcomplaints : List Event → List Complain
rcomplaints [] = []
rcomplaints (send_rcomplain v ∷ es) = v ∷ rcomplaints es
rcomplaints (_ ∷ es) = rcomplaints es

-- The complaint is counted: there are no more than a majority, and it is the replica's first.
abbrev pub is_counted : ReplicaConfig → ReplicaId → List ReplicaId → Bool
is_counted c i complained = not (ltb c.nmajority (length complained)) && not (has i complained)

first_counted :
    (c : ReplicaConfig) (i : ReplicaId) (complained : List ReplicaId)
    → ltb c.nmajority (length complained) ≡ false
    → has i complained ≡ false
    → is_counted c i complained ≡ true
first_counted c i complained room new = rw room (rw new refl)

write_self : (heap : Heap) (r : Ref) (b : Block) → write heap r b r ≡ b
unfolding write
write_self heap r b = ground arith

module _ {B : Type 0} (hooks : Hooks B) where
  -- What a local complaint about the block `r` leaves.
  pub record Complained (v : Complain) (r : Ref) (s t : State B) : Type 0 where
    pub complainers : (t.core.heap r).lcomplains ≡ (
        if is_counted s.core.config v.voter (s.core.heap r).lcomplains
        then insert v.voter (s.core.heap r).lcomplains
        else (s.core.heap r).lcomplains)
    pub sent : rcomplaints t.core.trace ≡ (
        if is_counted s.core.config v.voter (s.core.heap r).lcomplains
          && length (s.core.heap r).lcomplains + 1 == s.core.config.nmajority
        then signed_complain hooks.scheme s.core.id v.blk_height v.blk_hash
          ∷ rcomplaints s.core.trace
        else rcomplaints s.core.trace)

  -- Any local complaint about a delivered block is handled without an exception. A replica's first is
  -- counted while no more than a majority have complained; and a remote complaint, signed by oneself,
  -- is sent when the counted one makes the majority, and only then.
  pub on_receive_lcomplain-Complained :
      (v : Complain) (s : State B) (r : Ref)
      → find_blk s.core.storage v.blk_hash ≡ some r
      → (s.core.heap r).delivered ≡ true
      → (t : State B) × (on_receive_lcomplain hooks v s ≡ returns tt t) × Complained v r s t
  unfolding on_receive_lcomplain get_delivered_blk need_delivered sanity_check_delivered load store
      emit push_event ◌>>=◌ add_lcomplain count_lcomplain
  on_receive_lcomplain-Complained v s r found ready = rw found (
      rw ready
        (elim (Bool-cases (ltb s.core.config.nmajority (length (s.core.heap r).lcomplains))) [
          | inl full ↦ rw full (s, refl, record { complainers = rw full refl; sent = rw full refl })
          | inr room ↦ rw room (elim (Bool-cases (has v.voter (s.core.heap r).lcomplains)) [
            | inl again ↦ rw again (
              s,
              refl,
              record { complainers = rw room (rw again refl); sent = rw room (rw again refl) },
            )
            | inr new ↦
                rw new
                  (elim (Bool-cases
                    (length (s.core.heap r).lcomplains + 1 == s.core.config.nmajority)) [
                      | inl makes ↦ rw makes (
                        _,
                        refl,
                        record {
                          complainers = one_more room new;
                          sent = rw room (rw new (rw makes refl));
                        },
                      )
                      | inr short ↦ rw short (
                        _,
                        refl,
                        record {
                          complainers = one_more room new;
                          sent = rw room (rw new (rw short refl));
                        },
                      )
                    ])
          ])
        ]))
    where
      one_more :
          ltb s.core.config.nmajority (length (s.core.heap r).lcomplains) ≡ false
          → has v.voter (s.core.heap r).lcomplains ≡ false
          → (write s.core.heap r
              (record (s.core.heap r) { lcomplains = insert v.voter (s.core.heap r).lcomplains })
              r).lcomplains
            ≡ (if is_counted s.core.config v.voter (s.core.heap r).lcomplains
                then insert v.voter (s.core.heap r).lcomplains
                else (s.core.heap r).lcomplains)
      one_more room new =
          ap (λ (b : Block). b.lcomplains) (write_self s.core.heap r _)
          ∙ sym (
              ap
                (λ b.
                  if b
                  then insert v.voter (s.core.heap r).lcomplains
                  else (s.core.heap r).lcomplains)
                (first_counted s.core.config v.voter (s.core.heap r).lcomplains room new))
