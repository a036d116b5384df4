-- ===== src/Core/Quorum/Votes.antt =====
-- `on_receive_vote` of src/consensus.cpp, from the vote to the certificate.
use ava_hotstuff.Prelude.{
  ℕ, ◌+◌, ◌≡◌, refl, sym, ap, subst, ◌∙◌, true, false, Option, none, some, List, [], arith, ◌==◌,
  leb, ltb, if◌then◌else◌, Bool-cases, inl, inr, has, insert, length,
}
use ava_hotstuff.Exec.{pure, throw, crash, ◌>>=◌}
use ava_hotstuff.Exec.Returns.{Returns, Returns-bind}
use ava_hotstuff.Exec.Keeps.{Keeps-bind, Keeps-if, Keeps-pure}
use ava_hotstuff.Entity.Config.{ReplicaId, Hash, ReplicaConfig}
use ava_hotstuff.Entity.Block.{Ref, Block, Heap, write}
use ava_hotstuff.Crypto.{QuorumCert, dummy, secp256k1, PartCert, add_part, create_quorum_cert, room}
use ava_hotstuff.Core.Messages.{Vote}
use ava_hotstuff.Core.State.{State, Hooks, load, store}
use ava_hotstuff.Core.Vote.{add_voter, add_vote, ensure_qc, store_self_qc, count_vote}
use ava_hotstuff.Core.Quorum.Stable.{
  IsStable, IsStable-preorder, Keeps-Returns, update_hqc-IsStable, on_qc_finish-IsStable,
}
use ava_hotstuff.Core.Quorum.{IsTallyOf, IsSigned, add_part-IsTally, create_quorum_cert-IsTallyOf}

pub write_self : (heap : Heap) (r : Ref) (b : Block) → write heap r b r ≡ b
unfolding write
write_self heap r b = ground arith

-- Those that have voted after a vote of `i`: a vote past the majority is not counted.
abbrev pub counted : ReplicaConfig → ReplicaId → List ReplicaId → List ReplicaId
counted c i voters = if leb c.nmajority (length voters) then voters else insert i voters

insert_again :
    (i : ReplicaId) (voters : List ReplicaId) → has i voters ≡ true → insert i voters ≡ voters
unfolding insert
insert_again i voters e = rw e refl

module _ {B : Type 0} (hooks : Hooks B) (r : Ref) where
  -- The block `r` of a state, with its hash, its voters and their tally.
  pub record Holds (c : ReplicaConfig) (h : Hash) (voters : List ReplicaId) (s : State B)
      : Type 0 where
    pub hashed : (s.core.heap r).hash ≡ h
    pub voters_are : (s.core.heap r).voted ≡ voters
    pub config_is : s.core.config ≡ c

  abbrev pub HoldsTally : ReplicaConfig → Hash → List ReplicaId → State B → Type 0
  HoldsTally c h voters s =
      Holds c h voters s × IsTallyOf hooks.scheme c h voters (s.core.heap r).self_qc

  still :
      (c : ReplicaConfig) (h : Hash) (voters : List ReplicaId) (s t : State B)
      → IsStable s t
      → HoldsTally c h voters s
      → HoldsTally c h voters t
  still c h voters s t stable (k, tally) =
      let same : t.core.heap r ≡ s.core.heap r = ap (λ (x : Heap). x r) stable.same_heap in
      (
        record {
          hashed = ap (λ (x : Block). x.hash) same ∙ k.hashed;
          voters_are = ap (λ (x : Block). x.voted) same ∙ k.voters_are;
          config_is = stable.same_config ∙ k.config_is;
        },
        subst (IsTallyOf hooks.scheme c h voters) (sym (ap (λ (x : Block). x.self_qc) same)) tally,
      )

  store_qc-Returns :
      (c : ReplicaConfig) (h : Hash) (voters : List ReplicaId) (q : QuorumCert) (s : State B)
      → Holds c h voters s
      → IsTallyOf hooks.scheme c h voters (some q)
      → Returns (λ _. HoldsTally c h voters) (store_self_qc hooks r q s)
  unfolding store_self_qc store load ◌>>=◌
  store_qc-Returns c h voters q s k tally =
      let b = s.core.heap r in
      let same = write_self s.core.heap r (record b { self_qc = some q }) in
      (
        record {
          hashed = ap (λ (x : Block). x.hash) same ∙ k.hashed;
          voters_are = ap (λ (x : Block). x.voted) same ∙ k.voters_are;
          config_is = k.config_is;
        },
        subst (IsTallyOf hooks.scheme c h voters) (sym (ap (λ (x : Block). x.self_qc) same)) tally,
      )

  ensure_qc-Returns :
      (c : ReplicaConfig) (h : Hash) (all voters : List ReplicaId) (o : Option QuorumCert)
      (s : State B)
      → Holds c h all s
      → IsTallyOf hooks.scheme c h voters o
      → Returns
          (λ q t. Holds c h all t × IsTallyOf hooks.scheme c h voters (some q))
          (ensure_qc hooks r o s)
  unfolding ensure_qc ◌>>=◌ load store_self_qc store
  ensure_qc-Returns c h all voters (some q) s k tally = (k, tally)
  ensure_qc-Returns c h all voters none s k tally = (
    record {
      hashed = ap (λ (x : Block). x.hash) (write_self s.core.heap r _) ∙ k.hashed;
      voters_are = ap (λ (x : Block). x.voted) (write_self s.core.heap r _) ∙ k.voters_are;
      config_is = k.config_is;
    },
    subst
        (λ vs.
          IsTallyOf hooks.scheme c h vs
            (some (create_quorum_cert s.core.config (s.core.heap r).hash)))
        (sym tally)
        (subst (λ x. IsTallyOf hooks.scheme c h [] (some (create_quorum_cert s.core.config x)))
          (sym k.hashed) (create_quorum_cert-IsTallyOf hooks.scheme c s.core.config h)),
  )

  add_part-Returns :
      (c : ReplicaConfig) (h : Hash) (voters : List ReplicaId) (q : QuorumCert) (i : ReplicaId)
      (pc : PartCert) (s : State B)
      → IsTallyOf hooks.scheme c h voters (some q)
      → has i voters ≡ false
      → IsSigned hooks.scheme c h i pc
      → Returns
          (λ q' t. (s ≡ t) × IsTallyOf hooks.scheme c h (insert i voters) (some q'))
          (add_part {S = State B} q i pc s)
  unfolding add_part pure throw crash
  add_part-Returns c h voters (dummy d) i pc s tally new good = absurd tally
  add_part-Returns c h voters (secp256k1 q) i pc s tally new good =
      elim (Bool-cases (pc.obj_hash == q.obj_hash)) [
        | inr differs ↦ rw differs tt
        | inl fits ↦ rw fits (elim (Bool-cases (ltb i (room q.nbits))) [
          | inr outside ↦ rw outside tt
          | inl inside ↦
              rw inside (refl, add_part-IsTally hooks.scheme c h voters q i pc tally new good)
        ])
      ]

  add_vote-Returns :
      (c : ReplicaConfig) (h : Hash) (voters : List ReplicaId) (v : Vote) (s : State B)
      → Holds c h (insert v.voter voters) s
      → IsTallyOf hooks.scheme c h voters (s.core.heap r).self_qc
      → has v.voter voters ≡ false
      → IsSigned hooks.scheme c h v.voter v.cert
      → Returns (λ q. HoldsTally c h (insert v.voter voters)) (add_vote hooks r v s)
  unfolding add_vote load ◌>>=◌
  add_vote-Returns c h voters v s k tally new good =
      let all = insert v.voter voters in
      let goal = λ (q : QuorumCert) (t : State B). HoldsTally c h all t in
      Returns-bind (λ q t. Holds c h all t × IsTallyOf hooks.scheme c h voters (some q)) goal
        (ensure_qc hooks r (s.core.heap r).self_qc) _ s
        (ensure_qc-Returns c h all voters (s.core.heap r).self_qc s k tally)
        λ q t (k1, tally1).
          Returns-bind (λ q' u. (t ≡ u) × IsTallyOf hooks.scheme c h all (some q')) goal
            (add_part q v.voter v.cert) _ t
            (add_part-Returns c h voters q v.voter v.cert t tally1 new good)
            λ q' u (same, tally2).
              Returns-bind (λ _. HoldsTally c h all) goal (store_self_qc hooks r q') _ u
                (store_qc-Returns c h all q' u (subst (Holds c h all) same k1) tally2)
                λ _ w done. done

  -- A vote that is counted.
  count_vote-Returns :
      (c : ReplicaConfig) (h : Hash) (voters : List ReplicaId) (v : Vote) (n : ℕ) (s : State B)
      → HoldsTally c h voters s
      → has v.voter voters ≡ false
      → IsSigned hooks.scheme c h v.voter v.cert
      → Returns (λ _. HoldsTally c h (insert v.voter voters)) (count_vote hooks r v n s)
  unfolding count_vote ◌>>=◌ add_voter load store
  count_vote-Returns c h voters v n s (k, tally) new good =
      let all = insert v.voter voters in
      let goal = λ (u : Unit {0}) (t : State B). HoldsTally c h all t in
      let heap' =
        write s.core.heap r
          (record (s.core.heap r) { voted = insert v.voter (s.core.heap r).voted }) in
      let s1 = record s { core = record s.core { heap = heap' } } in
      let same =
        write_self s.core.heap r
          (record (s.core.heap r) { voted = insert v.voter (s.core.heap r).voted }) in
      Returns-bind (λ _. HoldsTally c h all) goal (add_vote hooks r v) _ s1
        (add_vote-Returns c h voters v s1
          (record {
            hashed = ap (λ (x : Block). x.hash) same ∙ k.hashed;
            voters_are = ap (λ (x : Block). x.voted) same ∙ ap (insert v.voter) k.voters_are;
            config_is = k.config_is;
          })
          (subst (IsTallyOf hooks.scheme c h voters) (sym (ap (λ (x : Block). x.self_qc) same))
            tally)
          new good)
        λ q t done.
          Keeps-Returns {Q = HoldsTally c h all} t
            (Keeps-if (n + 1 == t.core.config.nmajority)
              (Keeps-bind IsStable-preorder (update_hqc-IsStable hooks r (some q))
                λ _. on_qc_finish-IsStable hooks r)
              (Keeps-pure IsStable-preorder tt))
            λ u stable. still c h all t u stable done

  -- `on_receive_vote` for the block `r`, once it is found.
  pub found-Returns :
      (c : ReplicaConfig) (h : Hash) (voters : List ReplicaId) (v : Vote) (s : State B)
      → (s.core.heap r).voted ≡ voters
      → HoldsTally c h voters s
      → IsSigned hooks.scheme c h v.voter v.cert
      → Returns
          (λ _. HoldsTally c h (counted c v.voter voters))
          ((if leb c.nmajority (length voters)
              then pure tt
              else if has v.voter voters
              then pure tt
              else count_vote hooks r v (length voters))
            s)
  unfolding pure
  found-Returns c h voters v s at (k, tally) good =
      elim (Bool-cases (leb c.nmajority (length voters))) [
        | inl full ↦ rw full (k, tally)
        | inr lacking ↦ rw lacking (elim (Bool-cases (has v.voter voters)) [
          | inl again ↦ rw again (
              subst (λ vs. HoldsTally c h vs s) (sym (insert_again v.voter voters again))
                (k, tally))
          | inr new ↦ rw new (count_vote-Returns c h voters v (length voters) s (k, tally) new good)
        ])
      ]
