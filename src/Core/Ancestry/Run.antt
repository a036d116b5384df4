-- ===== src/Core/Ancestry/Run.antt =====
-- The ancestry of the blocks in every run of `HotStuffCore`, from its start on.
use ava_hotstuff.Prelude.{
  ℕ, ◌+◌, ◌^◌, ◌<◌, ◌≤◌, ◌≡◌, refl, subst, Bool, true, false, some, List, [], ◌∷◌, arith, length,
}
use ava_hotstuff.Exec.{left_by, Exec, Outcome, returns, throws, fault, endless, pure, modify, ◌>>=◌}
use ava_hotstuff.Exec.Keeps.{
  Keeps, Keeps-pure, Keeps-gets, Keeps-bind, Keeps-if, Leaves, Leaves-mono, Leaves-then,
}
use ava_hotstuff.Entity.Config.{ReplicaId, ReplicaInfo}
use ava_hotstuff.Entity.Block.{Ref}
use ava_hotstuff.Core.State.{State, Hooks, on_core, init_core}
use ava_hotstuff.Core.Propose.{allocate}
use ava_hotstuff.Core.Setup.{start_mc, async_qc_finish}
use ava_hotstuff.Core.Run.{
  Call, fetch, deliver, receive_proposal, receive_vote, propose, receive_lcomplain,
  receive_rcomplain, complain, wait_qc, set_vote_disabled, perform, run_calls, run_from,
}
use ava_hotstuff.Core.Rules.{load-Keeps}
use ava_hotstuff.Core.Rules.Complaints.{
  on_receive_lcomplain-Keeps, on_receive_rcomplain-Keeps, start_local_complain-Keeps,
}
use ava_hotstuff.Core.Progress.{Advances, Advances-preorder, other-Advances}
use ava_hotstuff.Core.Progress.Handlers.{
  aside, Advances-rules, on_receive_vote-Advances, on_receive_proposal-Advances,
}
use ava_hotstuff.Core.Ancestry.{IsGrounded, IsGrounded-mono}
use ava_hotstuff.Core.Ancestry.Delivery.{on_deliver_blk-IsGrounded}
use ava_hotstuff.Core.Ancestry.Propose.{
  Grounded, Advances-Grounded, allocate-Grounded, on_propose-Grounded,
}
use ava_hotstuff.Core.Ancestry.Start.{start_mc-IsGrounded}

-- A block that was parsed is not delivered yet.
abbrev pub IsParsed : Call → Type 0
IsParsed (fetch b) = b.delivered ≡ false
IsParsed _ = Unit {0}

abbrev pub AreParsed : List Call → Type 0
AreParsed [] = Unit {0}
AreParsed (c ∷ cs) = IsParsed c × AreParsed cs

module _ {B : Type 0} (hooks : Hooks B) where
  async_qc_finish-Advances : (r : Ref) → Keeps Advances (async_qc_finish {B = B} r)
  unfolding async_qc_finish
  async_qc_finish-Advances r = Keeps-bind Advances-preorder (load-Keeps Advances-preorder r) λ b.
      Keeps-bind Advances-preorder (Keeps-gets Advances-preorder _) λ config.
        Keeps-if _ (Keeps-pure Advances-preorder true) (
          Keeps-bind Advances-preorder
            (other-Advances _ λ c. aside c _ refl refl refl refl refl refl refl)
            λ _. Keeps-pure Advances-preorder false)

  disable-Advances :
      (b : Bool)
      → Keeps Advances (modify {S = State B} (on_core λ c. record c { vote_disabled = b }))
  disable-Advances b =
      other-Advances (λ c. record c { vote_disabled = b })
        λ c. aside c _ refl refl refl refl refl refl refl

  module _ (n : ℕ) (low : n + 1 < 2 ^ 32) where
    raise : (t : State B) → Grounded n t → Grounded (n + 1) t
    raise t g = IsGrounded-mono n (n + 1) t.core (omega arith) g

    -- A call that only advances.
    steady :
        {A : Type 0} {m : Exec (State B) A}
        → Keeps Advances m
        → (s : State B) → Grounded n s
        → Leaves (Grounded (n + 1)) (m s)
    steady {m = m} k s g = Leaves-mono (m s) raise (Advances-Grounded n k s g)

    -- `m >> pure tt`
    ends :
        {A : Type 0} (m : Exec (State B) A) (s : State B)
        → Leaves (Grounded (n + 1)) (m s)
        → Leaves (Grounded (n + 1)) ((m >>= λ _. pure tt) s)
    unfolding pure
    ends m s h = Leaves-then (Grounded (n + 1)) (Grounded (n + 1)) m _ s h (λ t g. g) λ _ t g. g

    -- A call adds at most one to the greatest height.
    perform-Grounded :
        (c : Call)
        → IsParsed c
        → (s : State B) → Grounded n s
        → Leaves (Grounded (n + 1)) (perform hooks c s)
    unfolding perform
    perform-Grounded (fetch b) early s g =
        ends _ s (Leaves-mono (allocate hooks b s) raise (allocate-Grounded n hooks b s early g))
    perform-Grounded (deliver r) _ s g = ends _ s (on_deliver_blk-IsGrounded n low r s g)
    perform-Grounded (receive_proposal p) _ s g = steady (on_receive_proposal-Advances hooks p) s g
    perform-Grounded (receive_vote v) _ s g = steady (on_receive_vote-Advances hooks v) s g
    perform-Grounded (propose cmds keys vals parents extra) _ s g =
        ends _ s (on_propose-Grounded hooks n low cmds keys vals parents extra s g)
    perform-Grounded (receive_lcomplain v) _ s g =
        steady (on_receive_lcomplain-Keeps hooks (Advances-rules hooks) v) s g
    perform-Grounded (receive_rcomplain v) _ s g =
        steady (on_receive_rcomplain-Keeps hooks (Advances-rules hooks) v) s g
    perform-Grounded (complain height h) _ s g =
        steady (start_local_complain-Keeps hooks (Advances-rules hooks) height h) s g
    perform-Grounded (wait_qc r) _ s g = ends _ s (steady (async_qc_finish-Advances r) s g)
    perform-Grounded (set_vote_disabled b) _ s g = steady (disable-Advances b) s g

  run_from-Grounded :
      {A : Type 0} (m n : ℕ) (t : State B) (calls : List Call) (o : Outcome (State B) A)
      → Leaves (Grounded n) o
      → ((u : State B) → Grounded n u → run_calls hooks calls u ≡ some t → Grounded m t)
      → run_from hooks calls (left_by o) ≡ some t
      → Grounded m t
  unfolding run_calls
  run_from-Grounded m n t calls (returns a u) g next e = next u g e
  run_from-Grounded m n t calls (throws x u) g next e = next u g e
  run_from-Grounded m n t calls fault g next e = cc
  run_from-Grounded m n t calls endless g next e = cc

  run_calls-Grounded :
      (n m : ℕ) (calls : List Call) (s t : State B)
      → AreParsed calls
      → n + length calls ≤ m
      → m < 2 ^ 32
      → Grounded n s
      → run_calls hooks calls s ≡ some t
      → Grounded m t
  unfolding run_calls
  run_calls-Grounded n m [] s t parsed le low g e =
      let same : s ≡ t = cc in IsGrounded-mono n m t.core (omega arith) (subst (Grounded n) same g)
  run_calls-Grounded n m (c ∷ calls) s t (first, parsed) le low g e =
      run_from-Grounded m (n + 1) t calls (perform hooks c s)
        (perform-Grounded n (omega arith) c first s g)
        (λ u h f. run_calls-Grounded (n + 1) m calls u t parsed (omega arith) low h f) e

  -- The replica when `start_mc` returns.
  abbrev pub started : ReplicaId → ℕ → ℕ → List ReplicaInfo → B → State B
  started id cluster npeers infos base = record {
    core = start_mc npeers infos (init_core id cluster hooks.get_hash);
    base = base;
  }

  -- In every run from the start of a replica of fewer than 2^32 calls, exceptions included, in which the
  -- blocks that are parsed are not delivered: no delivered block is higher than the number of calls, so
  -- that no height wraps; each is the genesis block, at height 0 and with no parents, or all its parents
  -- are delivered and it is one higher than the first; and no block that is not in use yet is delivered.
  pub run_calls-IsGrounded :
      (id : ReplicaId) (cluster npeers : ℕ) (infos : List ReplicaInfo) (base : B)
      (calls : List Call) (t : State B)
      → AreParsed calls
      → length calls < 2 ^ 32
      → run_calls hooks calls (started id cluster npeers infos base) ≡ some t
      → IsGrounded (length calls) t.core
  run_calls-IsGrounded id cluster npeers infos base calls t parsed low e =
      run_calls-Grounded 0 (length calls) calls (started id cluster npeers infos base) t parsed
        (omega arith) low (start_mc-IsGrounded id cluster hooks.get_hash npeers infos) e
