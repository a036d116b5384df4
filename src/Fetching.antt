-- ===== src/Fetching.antt =====
-- src/hotstuff.cpp, the fetching and the delivery of blocks: `on_fetch_blk`, `on_deliver_blk`,
-- `async_fetch_blk`, `async_deliver_blk`, `req_blk_handler`, `resp_blk_handler`, and `FetchContext`
-- of include/hotstuff/hotstuff.h. A promise that is handed out resolved is `some` block, one that
-- waits is `none`. Each continuation of a promise is an operation of its own. What leaves the fields
-- is recorded in `notices`, newest first; the statistics are left out.
pub mod Run
pub mod Balance
pub mod Settled
use ava_hotstuff.Prelude.{
  Bool, true, false, Option, none, some, List, [], ◌∷◌, ◌==◌, ◌&&◌, if◌then◌else◌, has, insert,
  erase,
}
use ava_hotstuff.Prelude.Assoc.{lookup, put, insert_new, remove}
use ava_hotstuff.Exec.{Exec, pure, crash, gets, run, modify, ◌>>=◌, ◌>>◌}
use ava_hotstuff.Entity.Config.{Hash, PeerId}
use ava_hotstuff.Entity.Block.{Ref, Block}
use ava_hotstuff.Entity.Storage.{EntityStorage, find_blk, is_blk_fetched, is_blk_delivered, add_blk}
use ava_hotstuff.Crypto.{get_obj_hash}
use ava_hotstuff.Core.State.{State, on_core, load, deref}
use ava_hotstuff.Core.Deliver.{on_deliver_blk}

pub data Notice : Type 0 where
  -- a new entry of `blk_fetch_waiting`, and the resolution of its promise
  fetching : Hash → Notice
  fetch_done : Hash → Ref → Notice
  -- `send_msg(fetch_msg, replica)`
  request : PeerId → Hash → Notice
  -- a new entry of `blk_delivery_waiting`, and what becomes of its promise
  delivering : Hash → Notice
  delivery_done delivery_failed : Hash → Ref → Notice
  -- `blk->verify(this, vpool)`
  verifying : Ref → Notice

-- The two maps of `HotStuffBase`: a fetch context by its replicas, a delivery context by its hash.
pub record Waiting : Type 0 where
  pub blk_fetch_waiting : List (Hash × List PeerId)
  pub blk_delivery_waiting : List Hash
  pub notices : List Notice

abbrev pub nothing_waits : Waiting
nothing_waits = record { blk_fetch_waiting = []; blk_delivery_waiting = []; notices = [] }

abbrev pub on_base : {B : Type 0} → (B → B) → State B → State B
on_base f s = record s { base = f s.base }

unfoldable pub notice : Notice → Waiting → Waiting
notice n w = record w { notices = n ∷ w.notices }

-- `it->second.resolve(blk); blk_fetch_waiting.erase(it);`
unfoldable pub resolve_fetch : Option (List PeerId) → Hash → Ref → Waiting → Waiting
unfolding notice remove
resolve_fetch none h r w = w
resolve_fetch (some replicas) h r w =
    notice (fetch_done h r) (record w { blk_fetch_waiting = remove h w.blk_fetch_waiting })

unfoldable pub on_fetch_blk : Ref → State Waiting → State Waiting
unfolding resolve_fetch lookup
on_fetch_blk r s =
    let h = (s.core.heap r).hash in
    on_base (λ w. resolve_fetch (lookup h w.blk_fetch_waiting) h r w) s

-- `FetchContext::send`, to all of the replicas in `timeout_cb`
unfoldable pub send_each : Hash → List PeerId → Waiting → Waiting
unfolding notice
send_each h [] w = w
send_each h (p ∷ ps) w = send_each h ps (notice (request p h) w)

unfoldable pub resend : Option (List PeerId) → Hash → Waiting → Waiting
unfolding send_each
resend none h w = w
resend (some replicas) h w = send_each h replicas w

unfoldable pub timeout_cb : Hash → Waiting → Waiting
unfolding resend lookup
timeout_cb h w = resend (lookup h w.blk_fetch_waiting) h w

-- `replicas.empty()`
abbrev pub is_empty : List PeerId → Bool
is_empty [] = true
is_empty (p ∷ ps) = false

unfoldable pub add_replica : Hash → PeerId → Bool → List PeerId → Waiting → Waiting
unfolding notice insert put
add_replica h p fetch_now replicas w =
    let w' = if is_empty replicas && fetch_now then notice (request p h) w else w in
    record w' { blk_fetch_waiting = put h (insert p replicas) w'.blk_fetch_waiting }

-- The context of a hash, which is made where there is none: its replicas.
unfoldable pub fetch_context : Option (List PeerId) → Hash → Waiting → List PeerId × Waiting
unfolding notice insert_new
fetch_context none h w =
    ([], notice (fetching h) (record w { blk_fetch_waiting = insert_new h [] w.blk_fetch_waiting }))
fetch_context (some replicas) h w = (replicas, w)

unfoldable pub ask : Option PeerId → Hash → Bool → List PeerId → Waiting → Waiting
unfolding add_replica
ask none h fetch_now replicas w = w
ask (some p) h fetch_now replicas w = add_replica h p fetch_now replicas w

unfoldable pub await_fetch : Hash → Option PeerId → Bool → Waiting → Waiting
unfolding fetch_context ask lookup
await_fetch h replica fetch_now w =
    let (replicas, w') = fetch_context (lookup h w.blk_fetch_waiting) h w in
    ask replica h fetch_now replicas w'

unfoldable pub async_fetch_blk :
    Hash → Option PeerId → Bool → State Waiting → Option Ref × State Waiting
unfolding is_blk_fetched await_fetch
async_fetch_blk h replica fetch_now s =
    if is_blk_fetched s.core.storage h
    then (find_blk s.core.storage h, s)
    else (none, on_base (await_fetch h replica fetch_now) s)

unfoldable pub await_delivery : Hash → Waiting → Waiting
unfolding notice
await_delivery h w =
    notice (delivering h) (record w { blk_delivery_waiting = h ∷ w.blk_delivery_waiting })

-- The block is fetched for a new entry; `deliver_fetched` runs once it is there.
unfoldable pub async_deliver_blk : Hash → PeerId → State Waiting → Option Ref × State Waiting
unfolding is_blk_delivered has await_delivery async_fetch_blk
async_deliver_blk h replica s =
    if is_blk_delivered s.core.storage s.core.heap h
    then (find_blk s.core.storage h, s)
    else if has h s.base.blk_delivery_waiting
    then (none, s)
    else (none, (async_fetch_blk h (some replica) true (on_base (await_delivery h) s)).1)

unfoldable pub async_deliver_parents : List Hash → PeerId → State Waiting → State Waiting
unfolding async_deliver_blk
async_deliver_parents [] replica s = s
async_deliver_parents (h ∷ hs) replica s =
    async_deliver_parents hs replica (async_deliver_blk h replica s).1

unfoldable pub verify_unless : Bool → Ref → State Waiting → State Waiting
unfolding notice
verify_unless is_genesis r s = if is_genesis then s else on_base (notice (verifying r)) s

-- The continuation of `async_deliver_blk` for a block that has been fetched.
unfoldable pub deliver_fetched : Ref → PeerId → Exec (State Waiting) (Unit {0})
unfolding load deref verify_unless async_fetch_blk async_deliver_parents get_obj_hash
deliver_fetched r replica = do
  b ← load r
  qc ← deref b.qc
  modify λ s. verify_unless (r == s.core.b0) r s
  run (async_fetch_blk (get_obj_hash qc) (some replica) true)
  modify (async_deliver_parents b.parent_hashes replica)

-- `assert(storage->is_blk_delivered(p))` for each parent
unfoldable pub assert_delivered : List Hash → Exec (State Waiting) (Unit {0})
unfolding is_blk_delivered
assert_delivered [] = pure tt
assert_delivered (h ∷ hs) = do
  ok ← gets λ s. is_blk_delivered s.core.storage s.core.heap h
  if ok then assert_delivered hs else crash

-- The promise of the delivery, if there is one, is resolved or rejected.
unfoldable pub settle_delivery : Bool → Hash → Ref → Waiting → Bool × Waiting
unfolding notice has erase
settle_delivery valid h r w =
    let w' = record w { blk_delivery_waiting = erase h w.blk_delivery_waiting } in
    if has h w.blk_delivery_waiting
    then (valid, notice (if valid then delivery_done h r else delivery_failed h r) w')
    else (true, w)

unfoldable pub settle : Bool → Hash → Ref → State Waiting → Bool × State Waiting
unfolding settle_delivery
settle valid h r s = let (res, w) = settle_delivery valid h r s.base in (res, record s { base = w })

-- `HotStuffBase::on_deliver_blk`, which calls that of `HotStuffCore`
unfoldable pub base_on_deliver_blk : Ref → Exec (State Waiting) Bool
unfolding load assert_delivered on_deliver_blk settle
base_on_deliver_blk r = do
  b ← load r
  assert_delivered b.parent_hashes
  valid ← on_deliver_blk r
  run (settle valid b.hash r)

-- `HOTSTUFF_LOG_INFO(..., this->on_deliver_blk(blk))`, which is empty without HOTSTUFF_NORMAL_LOG
unfoldable pub log_delivery : Bool → Ref → Exec (State Waiting) Bool
unfolding base_on_deliver_blk
log_delivery normal_log r = if normal_log then base_on_deliver_blk r else pure false

-- The continuation of `promise::all` in `async_deliver_blk`; `verified` is `values[0]`.
unfoldable pub deliver_verified : Bool → Bool → Ref → Exec (State Waiting) Bool
unfolding log_delivery base_on_deliver_blk
deliver_verified normal_log verified r = do
  log_delivery normal_log r
  if verified then base_on_deliver_blk r else pure false

-- The hashes of a request, each fetched from nobody in particular.
unfoldable pub req_blk_handler : List Hash → State Waiting → State Waiting
unfolding async_fetch_blk
req_blk_handler [] s = s
req_blk_handler (h ∷ hs) s = req_blk_handler hs (async_fetch_blk h none true s).1

-- `MsgRespBlock::postponed_parse`: the storage's block under the hash of one that was read.
unfoldable pub parse_blk : Ref → State Waiting → Ref × State Waiting
unfolding add_blk
parse_blk r s =
    let (r', st) = add_blk s.core.storage (s.core.heap r).hash r in
    (r', on_core (λ c. record c { storage = st }) s)

unfoldable pub parse_blks : List Ref → State Waiting → List Ref × State Waiting
unfolding parse_blk
parse_blks [] s = ([], s)
parse_blks (r ∷ rs) s =
    let (r', s') = parse_blk r s in let (rs', t) = parse_blks rs s' in (r' ∷ rs', t)

unfoldable pub on_fetch_blks : List Ref → State Waiting → State Waiting
unfolding on_fetch_blk
on_fetch_blks [] s = s
on_fetch_blks (r ∷ rs) s = on_fetch_blks rs (on_fetch_blk r s)

unfoldable pub resp_blk_handler : List Ref → State Waiting → State Waiting
unfolding parse_blks on_fetch_blks
resp_blk_handler rs s = let (rs', t) = parse_blks rs s in on_fetch_blks rs' t
