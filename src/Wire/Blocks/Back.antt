-- ===== src/Wire/Blocks/Back.antt =====
-- A block that is read back is the one that was written, for src/entity.cpp.
use ava_hotstuff.Prelude.{
  some-inj, none-ne-some, suc, ◌^◌, ◌+◌, ◌<◌, ◌≡◌, refl, sym, subst, ◌∙◌, false, some, List, [],
  ◌∷◌, arith, length, ◌==◌, Option-cases, inl, inr,
}
use ava_hotstuff.Prelude.Int.{ℤ, pos_part, neg_part}
use ava_hotstuff.Entity.Config.{Hash}
use ava_hotstuff.Entity.Block.{Block}
use ava_hotstuff.Crypto.{QuorumCert}
use ava_hotstuff.Wire.{Bytes, Stream, Reads, IsFaithful}
use ava_hotstuff.Wire.Readers.{
  done, Reads-bind, Reads-end, put_each, get_each, get_each-Reads, get_count, get_count-Reads, All,
  All-of, All-any,
}
use ava_hotstuff.Wire.Certs.{CertType, put_quorum_cert, get_quorum_cert}
use ava_hotstuff.Wire.Certs.Back.{SameCert, IsOfType, quorum_cert-Comes}
use ava_hotstuff.Wire.Blocks.{
  contents, put_block_with, put_qc, put_block, get_extra, with_hash_of, with_hash, get_block,
}

module _ (st : Stream) where
  abbrev pub IsInt : ℤ → Type 0
  IsInt z = (pos_part z < 2 ^ 31) × (neg_part z < 2 ^ 31 + 1)

  -- The block fits the format.
  pub record FitsWire (ty : CertType) (b : Block) : Type 0 where
    pub few_parents : length b.parent_hashes < 2 ^ 32
    pub few_cmds : length b.cmds < 2 ^ 32
    pub small_extra : length b.extra < 2 ^ 32
    pub as_many_keys : length b.keys ≡ length b.cmds
    pub as_many_vals : length b.vals ≡ length b.cmds
    pub int_keys : All IsInt b.keys
    pub int_vals : All IsInt b.vals

  get_extra-Reads : IsFaithful st → (bs : Bytes) → Reads (get_extra st (length bs)) bs bs
  unfolding get_extra done
  get_extra-Reads laws [] rest = refl
  get_extra-Reads laws (x ∷ xs) rest =
      let e : (suc (length xs) == 0) ≡ false = ground arith in rw e (laws.data_back (x ∷ xs) rest)

  -- What is read of a block that was written: the same but for the fields that are not written, and
  -- for the order in its certificate, under the hash of the bytes that were written.
  pub record Arrives (ty : CertType) (b : Block) (bs : Bytes) : Type 0 where
    pub cert : QuorumCert
    pub qc : QuorumCert
    pub its_cert : b.qc ≡ some qc
    pub same_cert : SameCert st qc cert
    pub reads :
        Reads
          (get_block st ty)
          (record (contents b.parent_hashes b.cmds b.keys b.vals cert b.extra) {
            hash = st.digest bs;
          })
          bs

  with_hash-Reads :
      (b : Block) (bs : Bytes)
      → put_block st b ≡ some bs
      → Reads (with_hash st b) (record b { hash = st.digest bs }) []
  unfolding with_hash with_hash_of
  with_hash-Reads b bs e rest = rw e refl

  int_back : IsFaithful st → (z : ℤ) → IsInt z → Reads st.int.get z (st.int.put z)
  int_back laws z (lo, hi) = laws.int_back z lo hi

  -- The copy of a block in the bytes of the block.
  get_block-Reads :
      IsFaithful st
      → (ty : CertType) (b : Block) (qc cert : QuorumCert) (cbs : Bytes) → FitsWire ty b
      → Reads (get_quorum_cert st ty) cert cbs
      → (bs : Bytes) → put_block_with st b (some cbs) ≡ some bs
      → put_block st (contents b.parent_hashes b.cmds b.keys b.vals cert b.extra) ≡ some bs
      → Reads
          (get_block st ty)
          (record (contents b.parent_hashes b.cmds b.keys b.vals cert b.extra) {
            hash = st.digest bs;
          })
          bs
  unfolding get_block put_block_with
  get_block-Reads laws ty b qc cert cbs fits reads bs e again =
      subst (Reads (get_block st ty) copy) (some-inj e) (
        Reads-bind (get_count st) _ (length b.parent_hashes) copy _ _
          (get_count-Reads st laws (length b.parent_hashes) fits.few_parents)
          (Reads-bind (get_each st.hash (length b.parent_hashes)) _ b.parent_hashes copy _ _
            (hashes b.parent_hashes)
            (Reads-bind (get_count st) _ (length b.cmds) copy _ _
              (get_count-Reads st laws (length b.cmds) fits.few_cmds)
              (Reads-bind (get_each st.hash (length b.cmds)) _ b.cmds copy _ _ (hashes b.cmds) (
                Reads-bind (get_each st.int (length b.cmds)) _ b.keys copy _ _
                  (ints b.keys fits.as_many_keys fits.int_keys)
                  (Reads-bind (get_each st.int (length b.cmds)) _ b.vals copy _ _
                    (ints b.vals fits.as_many_vals fits.int_vals)
                    (Reads-bind (get_quorum_cert st ty) _ cert copy cbs _ reads (
                      Reads-bind (get_count st) _ (length b.extra) copy _ _
                        (get_count-Reads st laws (length b.extra) fits.small_extra)
                        (Reads-end (get_extra st (length b.extra)) _ b.extra copy b.extra
                          (get_extra-Reads laws b.extra) (with_hash-Reads inner bs again))))))))))
    where
      inner : Block
      inner = contents b.parent_hashes b.cmds b.keys b.vals cert b.extra

      copy : Block
      copy = record inner { hash = st.digest bs }

      hashes : (hs : List Hash) → Reads (get_each st.hash (length hs)) hs (put_each st.hash hs)
      hashes hs = get_each-Reads st.hash hs (All-any _ laws.hash_back hs)

      ints :
          (zs : List ℤ)
          → length zs ≡ length b.cmds
          → All IsInt zs
          → Reads (get_each st.int (length b.cmds)) zs (put_each st.int zs)
      ints zs e k =
          subst (λ n. Reads (get_each st.int n) zs (put_each st.int zs)) e
            (get_each-Reads st.int zs (All-of IsInt _ (int_back laws) zs k))

  put_block-eq :
      (b : Block) (qc : QuorumCert) (cbs : Bytes)
      → b.qc ≡ some qc
      → put_quorum_cert st qc ≡ some cbs
      → put_block st b ≡ put_block_with st b (some cbs)
  unfolding put_block put_qc
  put_block-eq b qc cbs e f = rw e (rw f refl)

  -- A block that fits the format, with as many keys and values as commands and a certificate of the
  -- class that is read, which can be written and has the bits that are on, is read back from its bytes, whatever comes behind
  -- them: with the same parents, commands, keys, values and extra bytes, the same certificate but for
  -- its order, and the hash of these bytes.
  pub get_block-put_block :
      IsFaithful st
      → (ty : CertType) (b : Block) (qc : QuorumCert) (bs : Bytes) → b.qc ≡ some qc
      → IsOfType st ty qc
      → FitsWire ty b
      → put_block st b ≡ some bs
      → Arrives ty b bs
  unfolding put_block put_qc
  get_block-put_block laws ty b qc bs e typed fits written =
      elim (Option-cases (put_quorum_cert st qc)) [
        | inl failed ↦ absurd (none-ne-some (rw failed at (rw e at written)))
        | inr (cbs, f) ↦
            let c = quorum_cert-Comes st laws ty qc cbs typed f in
            let same = sym (put_block-eq b qc cbs e f) ∙ written in
            record {
              cert = c.copy;
              qc = qc;
              its_cert = e;
              same_cert = c.same;
              reads = get_block-Reads laws ty b qc c.copy cbs fits c.reads bs same (
                  put_block-eq (contents b.parent_hashes b.cmds b.keys b.vals c.copy b.extra) c.copy
                    cbs refl c.again
                  ∙ same);
            }
      ]
