-- ===== src/Wire/Messages/Proposals.antt =====
-- A proposal that is read back is the one that was written.
use ava_hotstuff.Prelude.{
  some-inj, none-ne-some, ℕ, ◌^◌, ◌<◌, ◌≡◌, refl, sym, subst, ◌∙◌, Bool, true, false, some, List,
  [], ◌∷◌, length, insert, has, has-insert, arith, ◌||◌, Option-cases, inl, inr,
}
use ava_hotstuff.Entity.Block.{Ref, Block}
use ava_hotstuff.Core.Messages.{Proposal}
use ava_hotstuff.Crypto.{QuorumCert}
use ava_hotstuff.Wire.{Bytes, Stream, Reads, SameBits, IsFaithful}
use ava_hotstuff.Wire.Readers.{get_each, get_each-Reads, All, All-of, Reads-bind, Reads-last}
use ava_hotstuff.Wire.Certs.{CertType}
use ava_hotstuff.Wire.Certs.Back.{IsOfType, SameCert}
use ava_hotstuff.Wire.Blocks.{put_block, get_block, contents}
use ava_hotstuff.Wire.Blocks.Back.{FitsWire, get_block-put_block}
use ava_hotstuff.Wire.Messages.{
  Received, put_proposal, put_proposal_with, insert_each, get_proposal,
}

-- The numbers of a proposal are there and fit their types.
pub record FitsProposal (p : Proposal) : Type 0 where
  pub c : ℕ
  pub a : ℕ
  pub t : ℕ
  pub n : ℕ
  pub has_cluster : p.cluster_number ≡ some c
  pub has_pre_amp : p.pre_amp_cluster_number ≡ some a
  pub has_type : p.msg_type ≡ some t
  pub has_count : p.reconfig_count ≡ some n
  pub c_fits : c < 2 ^ 32
  pub a_fits : a < 2 ^ 32
  pub t_fits : t < 2 ^ 32
  pub n_fits : n < 2 ^ 32
  pub height_fits : p.other_cluster_block_height < 2 ^ 32
  pub proposer_fits : p.proposer < 2 ^ 16
  pub peers_fit : All (λ x. x < 2 ^ 32) p.current_peer_set
  pub few_peers : length p.current_peer_set < 2 ^ 64

has-insert_each : (xs ys : List ℕ) (i : ℕ) → has i (insert_each xs ys) ≡ (has i xs || has i ys)
unfolding insert_each has
has-insert_each [] ys i = refl
has-insert_each (x ∷ xs) ys i =
    ground (arith, has-insert_each xs (insert x ys) i, has-insert x i ys)

-- The proposal that is read: the same numbers, the same set of peers and the block, but for the
-- fields that are not written and for the order in its certificate, under the hash of its bytes.
pub record IsCopy (st : Stream) (heap : Ref → Block) (p : Proposal) (r : Received) : Type 0 where
  pub same_proposer : r.proposer ≡ p.proposer
  pub same_cluster : p.cluster_number ≡ some r.cluster_number
  pub same_pre_amp : p.pre_amp_cluster_number ≡ some r.pre_amp_cluster_number
  pub same_height : r.other_cluster_block_height ≡ p.other_cluster_block_height
  pub same_type : p.msg_type ≡ some r.msg_type
  pub same_count : p.reconfig_count ≡ some r.reconfig_count
  pub same_peers : SameBits p.current_peer_set r.current_peer_set
  pub qc : QuorumCert
  pub cert : QuorumCert
  pub block_bytes : Bytes
  pub its_qc : (heap p.blk).qc ≡ some qc
  pub same_cert : SameCert st qc cert
  pub its_bytes : put_block st (heap p.blk) ≡ some block_bytes
  pub its_block :
      let b = heap p.blk in
      r.block ≡ record (contents b.parent_hashes b.cmds b.keys b.vals cert b.extra) {
        hash = st.digest block_bytes;
      }

module _ (st : Stream) (laws : IsFaithful st) where
  abbrev read_proposal : (p : Proposal) → FitsProposal p → Block → Received
  read_proposal p fits b = record {
    proposer = p.proposer;
    block = b;
    cluster_number = fits.c;
    pre_amp_cluster_number = fits.a;
    other_cluster_block_height = p.other_cluster_block_height;
    msg_type = fits.t;
    current_peer_set = insert_each p.current_peer_set [];
    reconfig_count = fits.n;
  }

  proposal_with-Reads :
      (ty : CertType) (p : Proposal) (fits : FitsProposal p) (b : Block) (bbs : Bytes)
      → Reads (get_block st ty) b bbs
      → (bs : Bytes) → put_proposal_with st p fits.c fits.a fits.t fits.n (some bbs) ≡ some bs
      → Reads (get_proposal st ty) (read_proposal p fits b) bs
  unfolding get_proposal put_proposal_with
  proposal_with-Reads ty p fits b bbs reads bs e =
      subst (Reads (get_proposal st ty) back) (some-inj e) (
        Reads-bind st.u32.get _ fits.c back _ _ (laws.u32_back fits.c fits.c_fits) (
          Reads-bind st.u32.get _ fits.a back _ _ (laws.u32_back fits.a fits.a_fits) (
            Reads-bind st.u32.get _ p.other_cluster_block_height back _ _
              (laws.u32_back p.other_cluster_block_height fits.height_fits)
              (Reads-bind st.u32.get _ fits.t back _ _ (laws.u32_back fits.t fits.t_fits) (
                Reads-bind st.u16.get _ p.proposer back _ _
                  (laws.u16_back p.proposer fits.proposer_fits)
                  (Reads-bind (get_block st ty) _ b back bbs _ reads (
                    Reads-bind st.size.get _ (length p.current_peer_set) back _ _
                      (laws.size_back (length p.current_peer_set) fits.few_peers)
                      (Reads-bind (get_each st.u32 (length p.current_peer_set)) _ p.current_peer_set
                        back _ _
                        (get_each-Reads st.u32 p.current_peer_set (
                          All-of (λ x. x < 2 ^ 32) _ laws.u32_back p.current_peer_set
                            fits.peers_fit))
                        (Reads-last st.u32.get (λ n. record back { reconfig_count = n }) fits.n _
                          (laws.u32_back fits.n fits.n_fits))))))))))
    where
      back : Received
      back = read_proposal p fits b

  put_proposal-eq :
      (heap : Ref → Block) (p : Proposal) (fits : FitsProposal p)
      → put_proposal st heap p
        ≡ put_proposal_with st p fits.c fits.a fits.t fits.n (put_block st (heap p.blk))
  unfolding put_proposal
  put_proposal-eq heap p fits =
      rw fits.has_cluster (rw fits.has_pre_amp (rw fits.has_type (rw fits.has_count refl)))

  -- A proposal whose numbers are there and fit their types, and whose block fits the format, has a
  -- certificate of the class that is read, which can be written and has the bits that are on, is read back from its bytes, whatever
  -- comes behind them: with the same numbers, the same set of peers, and the block with the same
  -- contents, the same certificate but for its order, and the hash of its bytes.
  pub get_proposal-put_proposal :
      (ty : CertType) (heap : Ref → Block) (p : Proposal) (qc : QuorumCert) (bs : Bytes)
      → FitsProposal p
      → (heap p.blk).qc ≡ some qc
      → IsOfType st ty qc
      → FitsWire st ty (heap p.blk)
      → put_proposal st heap p ≡ some bs
      → (r : Received) × IsCopy st heap p r × Reads (get_proposal st ty) r bs
  unfolding put_proposal_with has
  get_proposal-put_proposal ty heap p qc bs fits e typed block_fits written =
      elim (Option-cases (put_block st (heap p.blk))) [
        | inl failed ↦
            absurd (none-ne-some (rw failed at (sym (put_proposal-eq heap p fits) ∙ written)))
        | inr (bbs, f) ↦
            let c = get_block-put_block st laws ty (heap p.blk) qc bbs e typed block_fits f in
            let b = heap p.blk in
            let copy : Block =
              record (contents b.parent_hashes b.cmds b.keys b.vals c.cert b.extra) {
                hash = st.digest bbs;
              } in
            (
              read_proposal p fits copy,
              record {
                same_proposer = refl;
                same_cluster = fits.has_cluster;
                same_pre_amp = fits.has_pre_amp;
                same_height = refl;
                same_type = fits.has_type;
                same_count = fits.has_count;
                same_peers = λ i.
                    sym (
                      has-insert_each p.current_peer_set [] i
                      ∙ or_false (has i p.current_peer_set));
                qc = c.qc;
                cert = c.cert;
                block_bytes = bbs;
                its_qc = c.its_cert;
                same_cert = c.same_cert;
                its_bytes = f;
                its_block = refl;
              },
              proposal_with-Reads ty p fits copy bbs c.reads bs
                  (rw f at (sym (put_proposal-eq heap p fits) ∙ written)),
            )
      ]
    where
      or_false : (b : Bool) → (b || false) ≡ b
      or_false true = refl
      or_false false = refl
