-- ===== src/Wire/Messages/Back.antt =====
-- Messages that are read back are those that were written.
use ava_hotstuff.Prelude.{◌^◌, ◌<◌, refl, List, length, ◌==◌, if◌then◌else◌, Bool-cases, inl, inr}
use ava_hotstuff.Entity.Config.{Hash}
use ava_hotstuff.Core.Messages.{Vote, Complain, Finality, Recs}
use ava_hotstuff.Wire.{Stream, Reads, IsFaithful}
use ava_hotstuff.Wire.Readers.{
  done, get_each-Reads, get_count, get_count-Reads, All-any, Reads-bind, Reads-last,
}
use ava_hotstuff.Wire.Certs.{get_part_cert}
use ava_hotstuff.Wire.Certs.Back.{part_cert-Reads}
use ava_hotstuff.Wire.Messages.{
  RecsPhase, put_vote, get_vote, put_complain, get_complain, put_recs, get_recs, put_recs_phase,
  get_recs_phase, put_blk_hash, put_finality, get_blk_hash, get_finality, put_req_block,
  get_req_block,
}

module _ (st : Stream) (laws : IsFaithful st) where
  -- A vote by a 16-bit name is read back from its bytes, whatever comes behind them.
  pub vote-Reads : (v : Vote) → v.voter < 2 ^ 16 → Reads (get_vote st) v (put_vote st v)
  unfolding get_vote put_vote
  vote-Reads v fits = Reads-bind st.u16.get _ v.voter v _ _ (laws.u16_back v.voter fits) (
      Reads-bind st.hash.get _ v.blk_hash v _ _ (laws.hash_back v.blk_hash) (
        Reads-last (get_part_cert st) (λ c. record v { cert = c }) v.cert _
          (part_cert-Reads st laws v.cert)))

  pub complain-Reads :
      (v : Complain)
      → v.voter < 2 ^ 16
      → v.blk_height < 2 ^ 32
      → Reads (get_complain st) v (put_complain st v)
  unfolding get_complain put_complain
  complain-Reads v fits small = Reads-bind st.u16.get _ v.voter v _ _ (laws.u16_back v.voter fits) (
      Reads-bind st.u32.get _ v.blk_height v _ _ (laws.u32_back v.blk_height small) (
        Reads-bind st.hash.get _ v.blk_hash v _ _ (laws.hash_back v.blk_hash) (
          Reads-last (get_part_cert st) (λ c. record v { cert = c }) v.cert _
            (part_cert-Reads st laws v.cert))))

  abbrev FitsRecs : Recs → Type 0
  FitsRecs r = (r.cluster_number < 2 ^ 32) × (r.node_number < 2 ^ 32) × (r.reconfig_mode < 2 ^ 32)

  recs-Reads : (r : Recs) → FitsRecs r → Reads (get_recs st) r (put_recs st r)
  unfolding get_recs put_recs
  recs-Reads r (c, n, m) =
      Reads-bind st.u32.get _ r.cluster_number r _ _ (laws.u32_back r.cluster_number c) (
        Reads-bind st.u32.get _ r.node_number r _ _ (laws.u32_back r.node_number n) (
          Reads-last st.u32.get (λ x. record r { reconfig_mode = x }) r.reconfig_mode _
            (laws.u32_back r.reconfig_mode m)))

  recs_phase-Reads :
      (m : RecsPhase)
      → FitsRecs m.recs
      → m.type < 2 ^ 32
      → m.reconfig_count < 2 ^ 32
      → Reads (get_recs_phase st) m (put_recs_phase st m)
  unfolding get_recs_phase put_recs_phase
  recs_phase-Reads m fits t n = Reads-bind (get_recs st) _ m.recs m _ _ (recs-Reads m.recs fits) (
      Reads-bind st.u32.get _ m.type m _ _ (laws.u32_back m.type t) (
        Reads-last st.u32.get (λ x. record m { reconfig_count = x }) m.reconfig_count _
          (laws.u32_back m.reconfig_count n)))

  req_block-Reads :
      (hs : List Hash) → length hs < 2 ^ 32 → Reads (get_req_block st) hs (put_req_block st hs)
  unfolding get_req_block put_req_block
  req_block-Reads hs few =
      Reads-bind (get_count st) _ (length hs) hs _ _ (get_count-Reads st laws (length hs) few)
        (get_each-Reads st.hash hs (All-any _ laws.hash_back hs))

  pub record FitsFinality (f : Finality) : Type 0 where
    pub rid_fits : f.rid < 2 ^ 16
    pub decision_fits : f.decision < 2 ^ 8
    pub idx_fits : f.cmd_idx < 2 ^ 32
    pub height_fits : f.cmd_height < 2 ^ 32

  abbrev read_finality : Hash → Finality → Finality
  read_finality old f = record f { blk_hash = if f.decision == 1 then f.blk_hash else old }

  blk_hash-Reads :
      (old : Hash) (f : Finality)
      → Reads
          (get_blk_hash st old f.decision)
          (if f.decision == 1 then f.blk_hash else old)
          (put_blk_hash st f)
  unfolding get_blk_hash put_blk_hash done
  blk_hash-Reads old f rest = elim (Bool-cases (f.decision == 1)) [
    | inl yes_hash ↦ rw yes_hash (laws.hash_back f.blk_hash rest)
    | inr no_hash ↦ rw no_hash refl
  ]

  -- The finality of a command is read back from its bytes, whatever comes behind them, with the hash
  -- of the block if the decision is 1, and otherwise with the hash that the reader held before.
  pub finality-Reads :
      (old : Hash) (f : Finality)
      → FitsFinality f
      → Reads
          (get_finality st old)
          (record f { blk_hash = if f.decision == 1 then f.blk_hash else old })
          (put_finality st f)
  unfolding get_finality put_finality
  finality-Reads old f fits =
      Reads-bind st.u16.get _ f.rid back _ _ (laws.u16_back f.rid fits.rid_fits) (
        Reads-bind st.u8.get _ f.decision back _ _ (laws.u8_back f.decision fits.decision_fits) (
          Reads-bind st.u32.get _ f.cmd_idx back _ _ (laws.u32_back f.cmd_idx fits.idx_fits) (
            Reads-bind st.u32.get _ f.cmd_height back _ _
              (laws.u32_back f.cmd_height fits.height_fits)
              (Reads-bind st.hash.get _ f.cmd_hash back _ _ (laws.hash_back f.cmd_hash) (
                Reads-last (get_blk_hash st old f.decision) (λ h. record f { blk_hash = h })
                  back.blk_hash _ (blk_hash-Reads old f))))))
    where
      back : Finality
      back = read_finality old f
