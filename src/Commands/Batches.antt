-- ===== src/Commands/Batches.antt =====
-- One round of the handler of `cmd_pending` in src/hotstuff.cpp, for a proposer.
use ava_hotstuff.Prelude.{
  ◌<◌, ◌≤◌, ◌≡◌, refl, sym, ap, ◌∙◌, List, [], ◌∷◌, ◌++◌, leb, leb→le, ==_iff, subst, take, drop,
  length, length-take, length-drop, length-append, take-append-drop, arith, Bool-cases, inl, inr,
}
use mathlib.Core.List.{append_assoc, append-nil}
use ava_hotstuff.Entity.Config.{ReplicaId}
use ava_hotstuff.Commands.{
  Callback, ClientCommandVars, Desk, note, is_read_only, buffer_if, propose_batch, batch_if,
  handle_cmd,
}
use ava_hotstuff.Commands.Idle.{proposed, AreFull, writes, Idle, entered, entered-Idle}

-- What a proposer has proposed and still has in its buffer, and how much that is.
pub record Takes (cs : List ClientCommandVars) (s t : Desk) : Type 0 where
  pub same_id : t.id ≡ s.id
  pub same_size : t.blk_size ≡ s.blk_size
  pub all_there :
      proposed t.effects ++ t.cmd_pending_buffer
      ≡ (proposed s.effects ++ s.cmd_pending_buffer) ++ cs
  pub full : AreFull s.blk_size t.effects
  pub room : length t.cmd_pending_buffer < t.blk_size

-- A desk with full batches and room in its buffer.
pub record IsTidy (s : Desk) : Type 0 where
  pub full : AreFull s.blk_size s.effects
  pub room : length s.cmd_pending_buffer < s.blk_size

batch_if-Takes :
    (s : Desk)
    → 0 < s.blk_size
    → AreFull s.blk_size s.effects
    → length s.cmd_pending_buffer ≤ s.blk_size
    → Takes [] s (batch_if s).1
unfolding batch_if propose_batch note
batch_if-Takes s some_room full fits =
    elim (Bool-cases (leb s.blk_size (length s.cmd_pending_buffer))) [
      | inr short ↦ rw short (record {
        same_id = refl;
        same_size = refl;
        all_there = sym (append-nil _);
        full = full;
        room = ground arith;
      })
      | inl long ↦ rw long (record {
        same_id = refl;
        same_size = refl;
        all_there =
            append_assoc (proposed s.effects) (take s.blk_size s.cmd_pending_buffer)
              (drop s.blk_size s.cmd_pending_buffer)
            ∙ ap (λ l. proposed s.effects ++ l) (take-append-drop s.blk_size s.cmd_pending_buffer)
            ∙ sym (append-nil _);
        full = (omega (arith, length-take s.blk_size s.cmd_pending_buffer, leb→le _ _ long), full);
        room = omega (arith, length-drop s.blk_size s.cmd_pending_buffer);
      })
    ]

buffer_if-lem :
    (c : ClientCommandVars) (cb : Callback) (s : Desk)
    → (buffer_if c s).cmd_pending_buffer ≡ s.cmd_pending_buffer ++ writes ((c, cb) ∷ [])
unfolding buffer_if
buffer_if-lem c cb s = elim (Bool-cases (is_read_only c.key)) [
  | inl on ↦ rw on (sym (append-nil _))
  | inr off ↦ rw off refl
]

length-writes : (c : ClientCommandVars) (cb : Callback) → length (writes ((c, cb) ∷ [])) ≤ 1
length-writes c cb = ground arith

buffer_if_rest :
    (c : ClientCommandVars) (s : Desk)
    → ((buffer_if c s).id ≡ s.id)
      × ((buffer_if c s).blk_size ≡ s.blk_size)
      × ((buffer_if c s).effects ≡ s.effects)
unfolding buffer_if
buffer_if_rest c s = ground arith

handle_cmd_leads :
    (proposer : ReplicaId) (c : ClientCommandVars) (cb : Callback) (s : Desk)
    → proposer ≡ s.id
    → handle_cmd proposer c cb s ≡ batch_if (buffer_if c (entered c cb s))
unfolding handle_cmd
handle_cmd_leads proposer c cb s leads = rw ((==_iff proposer s.id).1 leads) refl

-- The buffering of a command, after steps that leave the buffer, and the batch.
buffer-Takes :
    (c : ClientCommandVars) (cb : Callback) (s u v : Desk)
    → Idle s u
    → IsTidy s
    → v.blk_size ≡ u.blk_size
    → v.id ≡ u.id
    → v.effects ≡ u.effects
    → v.cmd_pending_buffer ≡ u.cmd_pending_buffer ++ writes ((c, cb) ∷ [])
    → Takes (writes ((c, cb) ∷ [])) s (batch_if v).1
buffer-Takes c cb s u v idle tidy size id effects buffer =
    let fits : length v.cmd_pending_buffer ≤ v.blk_size = omega (
      arith,
      ap length buffer,
      length-append {0} u.cmd_pending_buffer (writes ((c, cb) ∷ [])),
      length-writes c cb,
      ap length idle.same_buffer,
      size,
      idle.same_size,
      tidy.room,
    ) in
    let full : AreFull v.blk_size v.effects =
      rw (size ∙ idle.same_size) (rw effects (idle.still_full s.blk_size tidy.full)) in
    let k = batch_if-Takes v (omega (arith, size, idle.same_size, tidy.room)) full fits in
    record {
      same_id = k.same_id ∙ id ∙ idle.same_id;
      same_size = k.same_size ∙ size ∙ idle.same_size;
      all_there =
          k.all_there
          ∙ append-nil _
          ∙ ap (λ l. l ++ v.cmd_pending_buffer) (ap proposed effects ∙ idle.same_proposed)
          ∙ ap (λ l. proposed s.effects ++ l)
              (buffer ∙ ap (λ l. l ++ writes ((c, cb) ∷ [])) idle.same_buffer)
          ∙ sym (append_assoc (proposed s.effects) s.cmd_pending_buffer (writes ((c, cb) ∷ [])));
      full = subst (λ n. AreFull n (batch_if v).1.effects) (size ∙ idle.same_size) k.full;
      room = k.room;
    }

-- A round as the proposer, for a desk that has room.
pub handle_cmd-Takes :
    (proposer : ReplicaId) (c : ClientCommandVars) (cb : Callback) (s : Desk)
    → proposer ≡ s.id
    → IsTidy s
    → Takes (writes ((c, cb) ∷ [])) s (handle_cmd proposer c cb s).1
handle_cmd-Takes proposer c cb s leads tidy =
    let u = entered c cb s in
    let (id, size, effects) = buffer_if_rest c u in
    rw (handle_cmd_leads proposer c cb s leads) (
      buffer-Takes c cb s u (buffer_if c u) (entered-Idle c cb s) tidy size id effects
        (buffer_if-lem c cb u))
