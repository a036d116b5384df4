-- ===== src/Wire/Blocks.antt =====
-- src/entity.cpp, `Block::serialize` and `Block::unserialize`. A block with no certificate cannot be
-- written: the null pointer is read.
pub mod Back
use ava_hotstuff.Prelude.{
  some-inj, none-ne-some, ℕ, zero, suc, ◌^◌, ◌+◌, ◌<◌, ◌≡◌, refl, sym, ap, subst, ◌∙◌, Bool, true,
  false, Option, none, some, List, [], ◌∷◌, ◌++◌, arith, length, if◌then◌else◌, ◌==◌, Option-cases,
  inl, inr,
}
use ava_hotstuff.Prelude.Int.{ℤ, pos_part, neg_part}
use ava_hotstuff.Entity.Config.{Hash}
use ava_hotstuff.Entity.Block.{Block, blank}
use ava_hotstuff.Crypto.{QuorumCert}
use ava_hotstuff.Wire.{Bytes, Reader, Serial, Stream, Reads, IsFaithful}
use ava_hotstuff.Wire.Readers.{
  done, ◌>>=◌, feed, Reads-bind, Reads-end, Reads-last, put_each, get_each, get_each-Reads,
  put_count, get_count, get_count-Reads, All, All-of, All-any,
}
use ava_hotstuff.Wire.Certs.{CertType, put_quorum_cert, get_quorum_cert}
use ava_hotstuff.Wire.Certs.Back.{SameCert, IsOfType, Comes, quorum_cert-Comes}

abbrev pub contents : List Hash → List Hash → List ℤ → List ℤ → QuorumCert → Bytes → Block
contents hashes cmds keys vals qc extra = record blank {
  parent_hashes = hashes;
  cmds = cmds;
  keys = keys;
  vals = vals;
  qc = some qc;
  extra = extra;
}

module _ (st : Stream) where
  -- The block with the bytes of its certificate.
  unfoldable pub put_block_with : Block → Option Bytes → Option Bytes
  unfolding put_count put_each
  put_block_with b none = none
  put_block_with b (some cert) = some (
      put_count st (length b.parent_hashes)
      ++ (put_each st.hash b.parent_hashes
          ++ (put_count st (length b.cmds)
              ++ (put_each st.hash b.cmds
                  ++ (put_each st.int b.keys
                      ++ (put_each st.int b.vals
                          ++ (cert ++ (put_count st (length b.extra) ++ b.extra))))))))

  unfoldable pub put_qc : Option QuorumCert → Option Bytes
  unfolding put_quorum_cert
  put_qc none = none
  put_qc (some qc) = put_quorum_cert st qc

  -- `Block::serialize`
  unfoldable pub put_block : Block → Option Bytes
  unfolding put_block_with put_qc
  put_block b = put_block_with b (put_qc b.qc)

  -- `extra`, by its length.
  unfoldable pub get_extra : ℕ → Reader Bytes
  unfolding done
  get_extra n = if n == 0 then done [] else st.get_data n

  -- `this->hash = salticidae::get_hash(*this)`
  unfoldable pub with_hash_of : Block → Option Bytes → Reader Block
  with_hash_of b none rest = none
  with_hash_of b (some bs) rest = some (record b { hash = st.digest bs }, rest)

  unfoldable pub with_hash : Block → Reader Block
  unfolding with_hash_of put_block
  with_hash b = with_hash_of b (put_block b)

  -- `Block::unserialize`, into a block made by `Block()`: there are as many keys and values as
  -- commands.
  unfoldable pub get_block : CertType → Reader Block
  unfolding ◌>>=◌ get_count get_each get_quorum_cert get_extra with_hash
  get_block ty = do
    m ← get_count st
    hashes ← get_each st.hash m
    n ← get_count st
    cmds ← get_each st.hash n
    keys ← get_each st.int n
    vals ← get_each st.int n
    qc ← get_quorum_cert st ty
    k ← get_count st
    extra ← get_extra k
    with_hash (contents hashes cmds keys vals qc extra)
