-- ===== src/Fetching/Balance.antt =====
-- Every promise of a block is settled once: `blk_fetch_waiting` and `blk_delivery_waiting` of
-- src/hotstuff.cpp.
pub mod Acts
use ava_hotstuff.Prelude.{
  ℕ, once, ◌+◌, ◌≡◌, refl, sym, ap, ◌∙◌, ==_iff, Bool, true, false, Option, none, some, List, [],
  ◌∷◌, ◌==◌, ◌&&◌, arith, has, insert, erase, has-erase, if◌then◌else◌, Bool-cases, Option-cases,
  inl, inr,
}
use ava_hotstuff.Prelude.Assoc.{lookup, put, lookup-put, lookup-insert_new, lookup-remove}
use ava_hotstuff.Exec.{◌>>=◌}
use ava_hotstuff.Exec.Keeps.{
  Preorder, Keeps, Keeps-pure, Keeps-gets, Keeps-bind, Keeps-crash, Keeps-run, Keeps-modify,
  Keeps-if, Leaves, Leaves-mono,
}
use ava_hotstuff.Entity.Config.{Hash, PeerId}
use ava_hotstuff.Entity.Block.{Ref}
use ava_hotstuff.Entity.Storage.{is_blk_fetched, is_blk_delivered}
use ava_hotstuff.Core.State.{State, load, deref, store}
use ava_hotstuff.Fetching.{
  Notice, fetching, fetch_done, request, delivering, delivery_done, delivery_failed, verifying,
  Waiting, nothing_waits, on_base, notice, resolve_fetch, on_fetch_blk, send_each, resend,
  timeout_cb, is_empty, add_replica, fetch_context, ask, await_fetch, async_fetch_blk,
  await_delivery, async_deliver_blk, async_deliver_parents, verify_unless, deliver_fetched,
  assert_delivered, settle_delivery, settle, base_on_deliver_blk, log_delivery, deliver_verified,
  req_blk_handler, parse_blk, parse_blks, on_fetch_blks, resp_blk_handler,
}

-- The entries that were made for a hash, and the promises that were settled.
abbrev pub fetches : Hash → List Notice → ℕ
fetches h [] = 0
fetches h (fetching j ∷ ns) = once (j == h) + fetches h ns
fetches h (_ ∷ ns) = fetches h ns

abbrev pub fetches_done : Hash → List Notice → ℕ
fetches_done h [] = 0
fetches_done h (fetch_done j r ∷ ns) = once (j == h) + fetches_done h ns
fetches_done h (_ ∷ ns) = fetches_done h ns

abbrev pub deliveries : Hash → List Notice → ℕ
deliveries h [] = 0
deliveries h (delivering j ∷ ns) = once (j == h) + deliveries h ns
deliveries h (_ ∷ ns) = deliveries h ns

abbrev pub deliveries_done : Hash → List Notice → ℕ
deliveries_done h [] = 0
deliveries_done h (delivery_done j r ∷ ns) = once (j == h) + deliveries_done h ns
deliveries_done h (delivery_failed j r ∷ ns) = once (j == h) + deliveries_done h ns
deliveries_done h (_ ∷ ns) = deliveries_done h ns

abbrev some_of : Option (List PeerId) → ℕ
some_of none = 0
some_of (some ps) = 1

-- One while the promise waits.
abbrev pub fetch_waits : Hash → Waiting → ℕ
fetch_waits h w = some_of (lookup h w.blk_fetch_waiting)

abbrev pub delivery_waits : Hash → Waiting → ℕ
delivery_waits h w = once (has h w.blk_delivery_waiting)

-- The promises of a hash: each that was made is settled or waits.
pub record IsBalanced (h : Hash) (w : Waiting) : Type 0 where
  pub fetch_balance : fetches h w.notices ≡ fetches_done h w.notices + fetch_waits h w
  pub delivery_balance : deliveries h w.notices ≡ deliveries_done h w.notices + delivery_waits h w

module _ (h : Hash) where
  same_has : (j : Hash) (hs : List Hash) → (j == h) ≡ true → has h hs ≡ has j hs
  same_has j hs e = ap (λ i. has i hs) (sym ((==_iff j h).0 e))

  put_waits :
      (j : Hash) (ps : List PeerId) (m : List (Hash × List PeerId))
      → some_of (lookup j m) ≡ 1
      → some_of (lookup h (put j ps m)) ≡ some_of (lookup h m)
  put_waits j ps m waits = elim (Bool-cases (j == h)) [
    | inl e ↦
        rw (lookup-put j h ps m)
          (rw e (sym waits ∙ ap (λ i. some_of (lookup i m)) ((==_iff j h).0 e)))
    | inr e ↦ rw (lookup-put j h ps m) (rw e refl)
  ]

  notice-request-IsBalanced :
      (p : PeerId) (j : Hash) (w : Waiting) → IsBalanced h w → IsBalanced h (notice (request p j) w)
  unfolding notice
  notice-request-IsBalanced p j w b = record {
    fetch_balance = b.fetch_balance;
    delivery_balance = b.delivery_balance;
  }

  send_each-IsBalanced :
      (j : Hash) (ps : List PeerId) (w : Waiting) → IsBalanced h w → IsBalanced h (send_each j ps w)
  unfolding send_each
  send_each-IsBalanced j [] w b = b
  send_each-IsBalanced j (p ∷ ps) w b =
      send_each-IsBalanced j ps (notice (request p j) w) (notice-request-IsBalanced p j w b)

  pub timeout_cb-IsBalanced :
      (j : Hash) (w : Waiting) → IsBalanced h w → IsBalanced h (timeout_cb j w)
  unfolding timeout_cb resend
  timeout_cb-IsBalanced j w b = elim (Option-cases (lookup j w.blk_fetch_waiting)) [
    | inl e ↦ rw e b
    | inr (ps, e) ↦ rw e (send_each-IsBalanced j ps w b)
  ]

  pub resolve_fetch-IsBalanced :
      (j : Hash) (r : Ref) (w : Waiting)
      → IsBalanced h w
      → IsBalanced h (resolve_fetch (lookup j w.blk_fetch_waiting) j r w)
  unfolding resolve_fetch notice
  resolve_fetch-IsBalanced j r w b = elim (Option-cases (lookup j w.blk_fetch_waiting)) [
    | inl e ↦ rw e b
    | inr (ps, e) ↦ rw e (record {
      fetch_balance = ground (arith, e, b.fetch_balance, lookup-remove j h w.blk_fetch_waiting);
      delivery_balance = b.delivery_balance;
    })
  ]

  fetch_context-IsBalanced :
      (j : Hash) (w : Waiting)
      → IsBalanced h w
      → IsBalanced h (fetch_context (lookup j w.blk_fetch_waiting) j w).1
  unfolding fetch_context notice
  fetch_context-IsBalanced j w b = elim (Option-cases (lookup j w.blk_fetch_waiting)) [
    | inl e ↦ rw e (record {
      fetch_balance =
          ground (arith, e, b.fetch_balance, lookup-insert_new j h [] w.blk_fetch_waiting);
      delivery_balance = b.delivery_balance;
    })
    | inr (ps, e) ↦ rw e b
  ]

  fetch_context-waits :
      (j : Hash) (w : Waiting)
      → fetch_waits j (fetch_context (lookup j w.blk_fetch_waiting) j w).1 ≡ 1
  unfolding fetch_context notice
  fetch_context-waits j w = elim (Option-cases (lookup j w.blk_fetch_waiting)) [
    | inl e ↦ rw e (ground (arith, lookup-insert_new j j [] w.blk_fetch_waiting))
    | inr (ps, e) ↦ rw e (rw e refl)
  ]

  add_replica-IsBalanced :
      (j : Hash) (p : PeerId) (now : Bool) (ps : List PeerId) (w : Waiting)
      → fetch_waits j w ≡ 1
      → IsBalanced h w
      → IsBalanced h (add_replica j p now ps w)
  unfolding add_replica notice
  add_replica-IsBalanced j p now ps w waits b =
      let kept =
        b.fetch_balance
        ∙ ap (λ n. fetches_done h w.notices + n)
            (sym (put_waits j (insert p ps) w.blk_fetch_waiting waits)) in
      elim (Bool-cases (is_empty ps && now)) [
        | inl first ↦
            rw first (record { fetch_balance = kept; delivery_balance = b.delivery_balance })
        | inr later ↦
            rw later (record { fetch_balance = kept; delivery_balance = b.delivery_balance })
      ]

  pub await_fetch-IsBalanced :
      (j : Hash) (replica : Option PeerId) (now : Bool) (w : Waiting)
      → IsBalanced h w
      → IsBalanced h (await_fetch j replica now w)
  unfolding await_fetch ask
  await_fetch-IsBalanced j none now w b = fetch_context-IsBalanced j w b
  await_fetch-IsBalanced j (some p) now w b =
      let c = fetch_context (lookup j w.blk_fetch_waiting) j w in
      add_replica-IsBalanced j p now c.0 c.1 (fetch_context-waits j w)
        (fetch_context-IsBalanced j w b)

  pub await_delivery-IsBalanced :
      (j : Hash) (w : Waiting)
      → has j w.blk_delivery_waiting ≡ false
      → IsBalanced h w
      → IsBalanced h (await_delivery j w)
  unfolding await_delivery notice has
  await_delivery-IsBalanced j w new b = record {
    fetch_balance = b.fetch_balance;
    delivery_balance = ground (arith, new, b.delivery_balance, same_has j w.blk_delivery_waiting);
  }

  pub settle_delivery-IsBalanced :
      (valid : Bool) (j : Hash) (r : Ref) (w : Waiting)
      → IsBalanced h w
      → IsBalanced h (settle_delivery valid j r w).1
  unfolding settle_delivery notice
  settle_delivery-IsBalanced true j r w b =
      ground (arith, b.fetch_balance, b.delivery_balance, has-erase j h w.blk_delivery_waiting)
  settle_delivery-IsBalanced false j r w b =
      ground (arith, b.fetch_balance, b.delivery_balance, has-erase j h w.blk_delivery_waiting)
