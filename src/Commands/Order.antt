-- ===== src/Commands/Order.antt =====
-- Any run of the handler of `cmd_pending` in src/hotstuff.cpp, and of the calls around it.
use ava_hotstuff.Prelude.{
  ℕ, ◌<◌, ◌≡◌, refl, sym, ap, ◌∙◌, List, [], ◌∷◌, ◌++◌, subst, length, arith, Bool-cases, inl, inr,
}
use mathlib.Core.List.{append_assoc, append-nil}
use ava_hotstuff.Entity.Config.{ReplicaId}
use ava_hotstuff.Commands.{
  Callback, ClientCommandVars, Desk, new_desk, exec_command, handle_cmd, drain_from, drain,
}
use ava_hotstuff.Commands.Run.{Turn, submit, handle, decided, take_turn, take_turns}
use ava_hotstuff.Commands.Idle.{
  proposed, AreFull, writes, submitted, submitted-cons, do_decide-Idle,
}
use ava_hotstuff.Commands.Batches.{Takes, IsTidy, handle_cmd-Takes}

-- What the handler leaves of the commands that it has still to take.
record Drains (es : List (ClientCommandVars × Callback)) (s t : Desk) : Type 0 where
  same_id : t.id ≡ s.id
  same_size : t.blk_size ≡ s.blk_size
  all_there :
      (proposed t.effects ++ t.cmd_pending_buffer) ++ writes t.cmd_pending
      ≡ (proposed s.effects ++ s.cmd_pending_buffer) ++ writes es
  tidy : IsTidy t

writes-cons :
    (c : ClientCommandVars) (cb : Callback) (es : List (ClientCommandVars × Callback))
    → writes ((c, cb) ∷ es) ≡ writes ((c, cb) ∷ []) ++ writes es
writes-cons c cb es = ground arith

Takes-IsTidy : (cs : List ClientCommandVars) (s t : Desk) → Takes cs s t → IsTidy t
Takes-IsTidy cs s t k = record {
  full = subst (λ n. AreFull n t.effects) (sym k.same_size) k.full;
  room = k.room;
}

-- A round, and what is done after it.
Drains-cons :
    (c : ClientCommandVars) (cb : Callback) (es : List (ClientCommandVars × Callback))
    (s u t : Desk)
    → Takes (writes ((c, cb) ∷ [])) s u
    → Drains es u t
    → Drains ((c, cb) ∷ es) s t
Drains-cons c cb es s u t k d = record {
  same_id = d.same_id ∙ k.same_id;
  same_size = d.same_size ∙ k.same_size;
  all_there =
      d.all_there
      ∙ ap (λ l. l ++ writes es) k.all_there
      ∙ append_assoc (proposed s.effects ++ s.cmd_pending_buffer) (writes ((c, cb) ∷ []))
          (writes es)
      ∙ ap (λ l. (proposed s.effects ++ s.cmd_pending_buffer) ++ l) (sym (writes-cons c cb es));
  tidy = d.tidy;
}

stop-Drains :
    (es : List (ClientCommandVars × Callback)) (u : Desk)
    → IsTidy u
    → Drains es u (record u { cmd_pending = es })
stop-Drains es u tidy = record {
  same_id = refl;
  same_size = refl;
  all_there = refl;
  tidy = record { full = tidy.full; room = tidy.room };
}

drain_from-Drains :
    (proposer : ReplicaId) (es : List (ClientCommandVars × Callback)) (s : Desk)
    → proposer ≡ s.id
    → IsTidy s
    → Drains es s (drain_from proposer es s)
unfolding drain_from
drain_from-Drains proposer [] s leads tidy = stop-Drains [] s tidy
drain_from-Drains proposer ((c, cb) ∷ es) s leads tidy =
    let u = (handle_cmd proposer c cb s).1 in
    let k = handle_cmd-Takes proposer c cb s leads tidy in
    let tidy' = Takes-IsTidy (writes ((c, cb) ∷ [])) s u k in
    Drains-cons c cb es s u _ k (elim (Bool-cases (handle_cmd proposer c cb s).0) [
      | inl stop ↦ rw stop (stop-Drains es u tidy')
      | inr more ↦ rw more (drain_from-Drains proposer es u (leads ∙ sym k.same_id) tidy')
    ])

-- Every run of the handler is one of a proposer.
abbrev pub IsLeading : ReplicaId → List Turn → Type 0
IsLeading id [] = Unit {0}
IsLeading id (handle proposer ∷ ts) = (proposer ≡ id) × IsLeading id ts
IsLeading id (_ ∷ ts) = IsLeading id ts

writes-append :
    (es fs : List (ClientCommandVars × Callback)) → writes (es ++ fs) ≡ writes es ++ writes fs
writes-append [] fs = refl
writes-append ((c, cb) ∷ es) fs = ground (arith, writes-append es fs)

take_turn-Drains :
    (t : Turn) (s : Desk)
    → IsLeading s.id (t ∷ [])
    → IsTidy s
    → Drains (s.cmd_pending ++ submitted (t ∷ [])) s (take_turn t s)
unfolding take_turn exec_command drain
take_turn-Drains (submit c cb) s leads tidy = stop-Drains (s.cmd_pending ++ (c, cb) ∷ []) s tidy
take_turn-Drains (handle proposer) s (leads, _) tidy =
    rw (append-nil s.cmd_pending) (drain_from-Drains proposer s.cmd_pending s leads tidy)
take_turn-Drains (decided fin key val) s leads tidy =
    let k = do_decide-Idle fin key val s in
    rw (append-nil s.cmd_pending) (record {
      same_id = k.same_id;
      same_size = k.same_size;
      all_there = rw (k.same_proposed, k.same_buffer, k.same_pending) refl;
      tidy = record {
        full = rw k.same_size (k.still_full s.blk_size tidy.full);
        room = rw (k.same_buffer, k.same_size) tidy.room;
      };
    })

IsLeading-cons :
    (id : ReplicaId) (t : Turn) (ts : List Turn)
    → IsLeading id (t ∷ ts)
    → IsLeading id (t ∷ []) × IsLeading id ts
IsLeading-cons id (submit c cb) ts h = (tt, h)
IsLeading-cons id (handle p) ts (h, k) = ((h, tt), k)
IsLeading-cons id (decided fin k v) ts h = (tt, h)

-- Two steps, by what they take.
Drains-trans :
    (es fs : List (ClientCommandVars × Callback)) (s u t : Desk)
    → Drains es s u
    → Drains (u.cmd_pending ++ fs) u t
    → Drains (es ++ fs) s t
Drains-trans es fs s u t h k = record {
  same_id = k.same_id ∙ h.same_id;
  same_size = k.same_size ∙ h.same_size;
  all_there =
      k.all_there
      ∙ ap (λ l. (proposed u.effects ++ u.cmd_pending_buffer) ++ l) (writes-append u.cmd_pending fs)
      ∙ sym (
          append_assoc (proposed u.effects ++ u.cmd_pending_buffer) (writes u.cmd_pending)
            (writes fs))
      ∙ ap (λ l. l ++ writes fs) h.all_there
      ∙ append_assoc (proposed s.effects ++ s.cmd_pending_buffer) (writes es) (writes fs)
      ∙ ap (λ l. (proposed s.effects ++ s.cmd_pending_buffer) ++ l) (sym (writes-append es fs));
  tidy = k.tidy;
}

take_turns-Drains :
    (ts : List Turn) (s : Desk)
    → IsLeading s.id ts
    → IsTidy s
    → Drains (s.cmd_pending ++ submitted ts) s (take_turns ts s)
unfolding take_turns
take_turns-Drains [] s leads tidy = rw (append-nil s.cmd_pending) (stop-Drains s.cmd_pending s tidy)
take_turns-Drains (t ∷ ts) s leads tidy =
    let (now, later) = IsLeading-cons s.id t ts leads in
    let h = take_turn-Drains t s now tidy in
    subst (λ es. Drains es s (take_turns ts (take_turn t s)))
      (append_assoc s.cmd_pending (submitted (t ∷ [])) (submitted ts)
        ∙ ap (λ l. s.cmd_pending ++ l) (sym (submitted-cons t ts)))
      (Drains-trans (s.cmd_pending ++ submitted (t ∷ [])) (submitted ts) s (take_turn t s) _ h (
        take_turns-Drains ts (take_turn t s) (subst (λ i. IsLeading i ts) (sym h.same_id) later)
          h.tidy))

-- Along any sequence of submissions, runs of the handler and decisions, in which the replica is the
-- proposer whenever the handler runs, and blocks have one command at least: the commands that were
-- handed over for proposing, those in the buffer and those in the queue that write are the commands
-- that write in the order of their submission, none lost and none doubled; each block handed over
-- has just the block's size, and less than a block is left in the buffer.
pub take_turns_ordered :
    (id : ReplicaId) (n : ℕ) (ts : List Turn)
    → 0 < n
    → IsLeading id ts
    → let t = take_turns ts (new_desk id n) in
      ((proposed t.effects ++ t.cmd_pending_buffer) ++ writes t.cmd_pending ≡ writes (submitted ts))
      × AreFull n t.effects
      × (length t.cmd_pending_buffer < n)
take_turns_ordered id n ts some_room leads =
    let k = take_turns-Drains ts (new_desk id n) leads (record { full = tt; room = some_room }) in
    (
      k.all_there,
      subst (λ m. AreFull m (take_turns ts (new_desk id n)).effects) k.same_size k.tidy.full,
      subst (λ m. length (take_turns ts (new_desk id n)).cmd_pending_buffer < m) k.same_size
          k.tidy.room,
    )
