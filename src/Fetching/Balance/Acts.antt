-- ===== src/Fetching/Balance/Acts.antt =====
-- Along any sequence of the calls of src/hotstuff.cpp that fetch and deliver blocks.
use ava_hotstuff.Prelude.{
  ◌≡◌, refl, sym, subst, ◌∙◌, Bool, true, false, Option, none, some, List, [], ◌∷◌, ◌==◌, has,
  Bool-cases, inl, inr,
}
use ava_hotstuff.Prelude.Assoc.{lookup}
use ava_hotstuff.Exec.{◌>>=◌}
use ava_hotstuff.Exec.Keeps.{
  Preorder, Keeps, Keeps-pure, Keeps-gets, Keeps-bind, Keeps-crash, Keeps-run, Keeps-modify,
  Keeps-if, Keeps-mono, Leaves, Keeps-from,
}
use ava_hotstuff.Entity.Config.{Hash, PeerId}
use ava_hotstuff.Entity.Block.{Ref, Block}
use ava_hotstuff.Entity.Storage.{is_blk_fetched, is_blk_delivered}
use ava_hotstuff.Crypto.{get_obj_hash}
use ava_hotstuff.Core.State.{State, load, store}
use ava_hotstuff.Core.Deliver.{
  on_deliver_blk, clear_parents, push_parent, set_height, set_qc_ref, replace_tails, mark_delivered,
  store_in_map_for_mc,
}
use ava_hotstuff.Core.Rules.{load-Keeps, deref-Keeps, first-Keeps}
use ava_hotstuff.Core.Rules.Delivery.{DeliveryRules, on_deliver_blk-Keeps}
use ava_hotstuff.Fetching.{
  Waiting, nothing_waits, on_base, notice, on_fetch_blk, async_fetch_blk, await_delivery,
  async_deliver_blk, async_deliver_parents, verify_unless, deliver_fetched, assert_delivered,
  settle, base_on_deliver_blk, log_delivery, deliver_verified, req_blk_handler, parse_blk,
  parse_blks, on_fetch_blks, resp_blk_handler,
}
use ava_hotstuff.Fetching.Run.{
  Act, fetch, deliver_hash, now_fetched, now_verified, requested, responded, timed_out, act,
  act_all,
}
use ava_hotstuff.Fetching.Balance.{
  IsBalanced, timeout_cb-IsBalanced, resolve_fetch-IsBalanced, await_fetch-IsBalanced,
  await_delivery-IsBalanced, settle_delivery-IsBalanced,
}

-- Delivery by the core does not touch what the derived class adds.
abbrev pub SameBase : {B : Type 0} → State B → State B → Type 0
SameBase s t = s.base ≡ t.base

module _ {B : Type 0} where
  abbrev Same : State B → State B → Type 0
  Same = SameBase {B = B}

  SameBase-Preorder : Preorder Same
  SameBase-Preorder = record { same = λ s. refl; trans = λ s t u h k. h ∙ k }

  store-SameBase : (r : Ref) (b : Block) → Keeps Same (store {B = B} r b)
  unfolding store
  store-SameBase r b = Keeps-modify _ λ s. refl

  change-SameBase :
      (r : Ref) (f : Block → Block) → Keeps Same (do b ← load {B = B} r; store r (f b))
  change-SameBase r f =
      Keeps-bind SameBase-Preorder (load-Keeps SameBase-Preorder r) λ b. store-SameBase r (f b)

  base-DeliveryRules : (r : Ref) → DeliveryRules Same r
  unfolding clear_parents push_parent set_height set_qc_ref replace_tails mark_delivered
      store_in_map_for_mc
  base-DeliveryRules r = record {
    references = record {
      preorder = SameBase-Preorder;
      clears = change-SameBase r _;
      pushes = λ p. change-SameBase r _;
      sets_height = Keeps-bind SameBase-Preorder (load-Keeps SameBase-Preorder r) λ b.
          Keeps-bind SameBase-Preorder (first-Keeps SameBase-Preorder b.parents) λ p.
            Keeps-bind SameBase-Preorder (load-Keeps SameBase-Preorder p) λ pb. store-SameBase r _;
      refers = λ q. change-SameBase r _;
    };
    moves_tails = λ ps. Keeps-modify _ λ s. refl;
    delivers = change-SameBase r _;
    maps_cid =
        Keeps-bind SameBase-Preorder (load-Keeps SameBase-Preorder r) λ b. Keeps-modify _ λ s. refl;
  }

  pub on_deliver_blk-SameBase : (r : Ref) → Keeps Same (on_deliver_blk {B = B} r)
  on_deliver_blk-SameBase r = on_deliver_blk-Keeps r (base-DeliveryRules r)

module _ (h : Hash) where
  abbrev Balances : State Waiting → State Waiting → Type 0
  Balances s t = IsBalanced h s.base → IsBalanced h t.base

  order : Preorder Balances
  order = record { same = λ s b. b; trans = λ s t u f g b. g (f b) }

  async_fetch_blk-Balances :
      (j : Hash) (replica : Option PeerId) (now : Bool) (s : State Waiting)
      → Balances s (async_fetch_blk j replica now s).1
  unfolding async_fetch_blk
  async_fetch_blk-Balances j replica now s b = elim (Bool-cases (is_blk_fetched s.core.storage j)) [
    | inl e ↦ rw e b
    | inr e ↦ rw e (await_fetch-IsBalanced h j replica now s.base b)
  ]

  async_deliver_blk-Balances :
      (j : Hash) (replica : PeerId) (s : State Waiting)
      → Balances s (async_deliver_blk j replica s).1
  unfolding async_deliver_blk
  async_deliver_blk-Balances j replica s b =
      elim (Bool-cases (is_blk_delivered s.core.storage s.core.heap j)) [
        | inl e ↦ rw e b
        | inr e ↦ elim (Bool-cases (has j s.base.blk_delivery_waiting)) [
          | inl waits ↦ rw e (rw waits b)
          | inr new ↦ rw e (
              rw new (
                async_fetch_blk-Balances j (some replica) true (on_base (await_delivery j) s)
                  (await_delivery-IsBalanced h j s.base new b)))
        ]
      ]

  async_deliver_parents-Balances :
      (hs : List Hash) (replica : PeerId) (s : State Waiting)
      → Balances s (async_deliver_parents hs replica s)
  unfolding async_deliver_parents
  async_deliver_parents-Balances [] replica s b = b
  async_deliver_parents-Balances (j ∷ hs) replica s b =
      async_deliver_parents-Balances hs replica (async_deliver_blk j replica s).1
        (async_deliver_blk-Balances j replica s b)

  verify_unless-Balances :
      (genesis : Bool) (r : Ref) (s : State Waiting) → Balances s (verify_unless genesis r s)
  unfolding verify_unless notice
  verify_unless-Balances true r s b = b
  verify_unless-Balances false r s b = record {
    fetch_balance = b.fetch_balance;
    delivery_balance = b.delivery_balance;
  }

  deliver_fetched-Balances :
      (r : Ref) (replica : PeerId) → Keeps Balances (deliver_fetched r replica)
  unfolding deliver_fetched
  deliver_fetched-Balances r replica = Keeps-bind order (load-Keeps order r) λ b.
      Keeps-bind order (deref-Keeps order b.qc) λ qc.
        Keeps-bind order (Keeps-modify _ λ s. verify_unless-Balances (r == s.core.b0) r s) λ _.
          Keeps-bind order
            (Keeps-run _ (async_fetch_blk-Balances (get_obj_hash qc) (some replica) true))
            λ _. Keeps-modify _ (async_deliver_parents-Balances b.parent_hashes replica)

  assert_delivered-Balances : (hs : List Hash) → Keeps Balances (assert_delivered hs)
  unfolding assert_delivered
  assert_delivered-Balances [] = Keeps-pure order tt
  assert_delivered-Balances (j ∷ hs) =
      Keeps-bind order (Keeps-gets order _)
        λ ok. Keeps-if ok (assert_delivered-Balances hs) Keeps-crash

  base_on_deliver_blk-Balances : (r : Ref) → Keeps Balances (base_on_deliver_blk r)
  unfolding base_on_deliver_blk settle
  base_on_deliver_blk-Balances r = Keeps-bind order (load-Keeps order r) λ b.
      Keeps-bind order (assert_delivered-Balances b.parent_hashes) λ _.
        Keeps-bind order (Keeps-mono (λ s t e. subst (IsBalanced h) e) (on_deliver_blk-SameBase r))
          λ valid. Keeps-run _ λ s. settle_delivery-IsBalanced h valid b.hash r s.base

  deliver_verified-Balances :
      (log verified : Bool) (r : Ref) → Keeps Balances (deliver_verified log verified r)
  unfolding deliver_verified log_delivery
  deliver_verified-Balances log verified r =
      Keeps-bind order (Keeps-if log (base_on_deliver_blk-Balances r) (Keeps-pure order false))
        λ _. Keeps-if verified (base_on_deliver_blk-Balances r) (Keeps-pure order false)

  req_blk_handler-Balances :
      (hs : List Hash) (s : State Waiting) → Balances s (req_blk_handler hs s)
  unfolding req_blk_handler
  req_blk_handler-Balances [] s b = b
  req_blk_handler-Balances (j ∷ hs) s b =
      req_blk_handler-Balances hs (async_fetch_blk j none true s).1
        (async_fetch_blk-Balances j none true s b)

  parse_blks-SameBase : (rs : List Ref) (s : State Waiting) → s.base ≡ (parse_blks rs s).1.base
  unfolding parse_blks parse_blk
  parse_blks-SameBase [] s = refl
  parse_blks-SameBase (r ∷ rs) s = parse_blks-SameBase rs (parse_blk r s).1

  on_fetch_blks-Balances : (rs : List Ref) (s : State Waiting) → Balances s (on_fetch_blks rs s)
  unfolding on_fetch_blks on_fetch_blk
  on_fetch_blks-Balances [] s b = b
  on_fetch_blks-Balances (r ∷ rs) s b =
      on_fetch_blks-Balances rs (on_fetch_blk r s)
        (resolve_fetch-IsBalanced h (s.core.heap r).hash r s.base b)

  act-Balances : (log : Bool) (a : Act) → Keeps Balances (act log a)
  unfolding act resp_blk_handler
  act-Balances log (fetch j replica now) =
      Keeps-bind order (Keeps-run _ (async_fetch_blk-Balances j replica now))
        λ _. Keeps-pure order tt
  act-Balances log (deliver_hash j replica) =
      Keeps-bind order (Keeps-run _ (async_deliver_blk-Balances j replica)) λ _. Keeps-pure order tt
  act-Balances log (now_fetched r replica) = deliver_fetched-Balances r replica
  act-Balances log (now_verified verified r) =
      Keeps-bind order (deliver_verified-Balances log verified r) λ _. Keeps-pure order tt
  act-Balances log (requested hs) = Keeps-modify _ (req_blk_handler-Balances hs)
  act-Balances log (responded rs) = Keeps-modify _ λ s b.
      on_fetch_blks-Balances (parse_blks rs s).0 (parse_blks rs s).1
        (subst (IsBalanced h) (parse_blks-SameBase rs s) b)
  act-Balances log (timed_out j) = Keeps-modify _ λ s. timeout_cb-IsBalanced h j s.base

  act_all-Balances : (log : Bool) (acts : List Act) → Keeps Balances (act_all log acts)
  unfolding act_all
  act_all-Balances log [] = Keeps-pure order tt
  act_all-Balances log (a ∷ acts) =
      Keeps-bind order (act-Balances log a) λ _. act_all-Balances log acts

  -- Along any sequence of calls that fetch and deliver blocks, from a replica where nothing waits, and
  -- also where one of them throws: of each hash, as many entries were made for fetching it as promises
  -- of it were resolved, plus one if an entry waits; and as many for its delivery as were resolved or
  -- rejected, plus one if an entry waits. So no promise is settled twice and none is lost, and a block
  -- is never fetched or delivered by two entries at a time.
  pub act_all-IsBalanced :
      (log : Bool) (acts : List Act) (s : State Waiting)
      → s.base ≡ nothing_waits
      → Leaves (λ t. IsBalanced h t.base) (act_all log acts s)
  unfolding lookup has
  act_all-IsBalanced log acts s start = Keeps-from (act_all-Balances log acts) s λ t f.
      f (
        subst (IsBalanced h) (sym start) (record { fetch_balance = refl; delivery_balance = refl }))
