-- ===== src/Tests/Wires.antt =====
-- A stream with a cell for each number, and messages in it.
use ava_hotstuff.Prelude.{
  ℕ, zero, suc, ◌+◌, ◌<◌, ◌≡◌, refl, sym, ap, ◌∙◌, Bool, true, false, Option, none, some, List, [],
  ◌∷◌, ◌++◌, ◌&&◌, leb, ltb, if◌then◌else◌, has, length, arith, ◌==◌, Bool-cases, ==_iff, inl, inr,
}
use ava_hotstuff.Prelude.Int.{ℤ, pos, negsuc}
use ava_hotstuff.Entity.Config.{ReplicaId}
use ava_hotstuff.Entity.Block.{Block, blank}
use ava_hotstuff.Crypto.{Secp256k1, secp256k1}
use ava_hotstuff.Core.Messages.{Proposal, cluster_proposal, finality}
use ava_hotstuff.Prelude.Assoc.{lookup}
use ava_hotstuff.Wire.Readers.{put_count, put_each}
use ava_hotstuff.Wire.Certs.{with_secp256k1, put_quorum_cert, put_secp256k1, put_sigs}
use ava_hotstuff.Wire.Blocks.{put_block, put_block_with, put_qc}
use ava_hotstuff.Wire.Blocks.Back.{FitsWire, Arrives, get_block-put_block}
use ava_hotstuff.Wire.Messages.{
  Received, put_proposal, put_proposal_with, get_proposal, get_finality, put_finality,
}
use ava_hotstuff.Wire.Messages.Back.{finality-Reads}
use ava_hotstuff.Wire.Messages.Proposals.{IsCopy, get_proposal-put_proposal}
use ava_hotstuff.Wire.{Bytes, Reader, Serial, Stream, Reads, SameBits, IsWithin, IsFaithful}

abbrev get_cell : Reader ℕ
get_cell [] = none
get_cell (x ∷ bs) = some (x, bs)

abbrev cell : Serial ℕ
cell = record { put = λ n. n ∷ []; get = get_cell }

abbrev get_int : Reader ℤ
get_int [] = none
get_int (x ∷ []) = none
get_int (x ∷ y ∷ bs) = some (if x == 0 then pos y else negsuc y, bs)

abbrev put_int : ℤ → Bytes
put_int (pos n) = 0 ∷ n ∷ []
put_int (negsuc n) = 1 ∷ n ∷ []

put_bits : List ReplicaId → ℕ → ℕ → Bytes
unfolding has
put_bits xs zero i = []
put_bits xs (suc n) i = (if has i xs then 1 else 0) ∷ put_bits xs n (i + 1)

abbrev add_bit : ℕ → ℕ → Option (List ReplicaId × Bytes) → Option (List ReplicaId × Bytes)
add_bit x i none = none
add_bit x i (some (ys, bs)) = some (if x == 1 then i ∷ ys else ys, bs)

get_bits : ℕ → ℕ → Reader (List ReplicaId)
get_bits zero i bs = some ([], bs)
get_bits (suc n) i [] = none
get_bits (suc n) i (x ∷ bs) = add_bit x i (get_bits n (i + 1) bs)

bits_of : List ReplicaId → ℕ → ℕ → List ReplicaId
unfolding has
bits_of xs zero i = []
bits_of xs (suc n) i = let ys = bits_of xs n (i + 1) in if has i xs then i ∷ ys else ys

get_bits-put_bits :
    (xs : List ReplicaId) (n i : ℕ) (rest : Bytes)
    → get_bits n i (put_bits xs n i ++ rest) ≡ some (bits_of xs n i, rest)
unfolding get_bits put_bits bits_of
get_bits-put_bits xs zero i rest = refl
get_bits-put_bits xs (suc n) i rest = ground (arith, get_bits-put_bits xs n (i + 1) rest)

has-bits_of :
    (xs : List ReplicaId) (n i j : ℕ)
    → has j (bits_of xs n i) ≡ (leb i j && ltb j (i + n) && has j xs)
unfolding bits_of has
has-bits_of xs zero i j = ground arith
has-bits_of xs (suc n) i j = elim (Bool-cases (i == j)) [
  | inl here ↦ rw (sym ((==_iff i j).0 here)) (ground (arith, has-bits_of xs n (i + 1) i))
  | inr other ↦ ground (arith, has-bits_of xs n (i + 1) j)
]

put_bits-same :
    (xs ys : List ReplicaId) → SameBits xs ys → (n i : ℕ) → put_bits xs n i ≡ put_bits ys n i
unfolding put_bits
put_bits-same xs ys same zero i = refl
put_bits-same xs ys same (suc n) i =
    rw (same i) (ap (λ l. (if has i ys then 1 else 0) ∷ l) (put_bits-same xs ys same n (i + 1)))

put_all_bits : ℕ × List ReplicaId → Bytes
unfolding put_bits
put_all_bits (n, xs) = n ∷ put_bits xs n 0

abbrev with_size : ℕ → Option (List ReplicaId × Bytes) → Option ((ℕ × List ReplicaId) × Bytes)
with_size n none = none
with_size n (some (ys, bs)) = some ((n, ys), bs)

get_all_bits : Reader (ℕ × List ReplicaId)
unfolding get_bits
get_all_bits [] = none
get_all_bits (n ∷ bs) = with_size n (get_bits n 0 bs)

abbrev before : ℕ → Option (Bytes × Bytes) → Option (Bytes × Bytes)
before x none = none
before x (some (xs, bs)) = some (x ∷ xs, bs)

get_cells : ℕ → Reader Bytes
get_cells zero bs = some ([], bs)
get_cells (suc n) [] = none
get_cells (suc n) (x ∷ bs) = before x (get_cells n bs)

abbrev cells : Stream
cells = record {
  u8 = cell;
  u16 = cell;
  u32 = cell;
  size = cell;
  int = record { put = put_int; get = get_int };
  hash = cell;
  sig = cell;
  bits = record { put = put_all_bits; get = get_all_bits };
  htole = λ n. n;
  letoh = λ n. n;
  get_data = get_cells;
  digest = length;
}

get_cells_back : (bs : Bytes) → Reads (get_cells (length bs)) bs bs
unfolding get_cells
get_cells_back [] rest = refl
get_cells_back (x ∷ bs) rest = rw (get_cells_back bs rest) refl

int_back : (z : ℤ) → Reads get_int z (put_int z)
int_back (pos n) rest = refl
int_back (negsuc n) rest = refl

bits_back :
    (n : ℕ) (xs : List ReplicaId)
    → IsWithin n xs
    → (ys : List ReplicaId) × SameBits xs ys × Reads get_all_bits (n, ys) (put_all_bits (n, xs))
unfolding put_all_bits get_all_bits
bits_back n xs within = (
  bits_of xs n 0,
  λ j. sym (has-bits_of xs n 0 j ∙ go j (has j xs) (within j)),
  λ rest. rw (get_bits-put_bits xs n 0 rest) refl,
)
  where
    go : (j : ℕ) (b : Bool) → (b ≡ true → j < n) → (leb 0 j && ltb j (0 + n) && b) ≡ b
    go j true h = ground (arith, h refl)
    go j false h = ground arith

cells-IsFaithful : IsFaithful cells
unfolding put_all_bits
cells-IsFaithful = record {
  u8_back = λ n h rest. refl;
  u16_back = λ n h rest. refl;
  u32_back = λ n h rest. refl;
  size_back = λ n h rest. refl;
  int_back = λ z h k. int_back z;
  hash_back = λ h rest. refl;
  sig_back = λ x rest. refl;
  bits_back = bits_back;
  bits_same = λ n xs ys same. ap (λ l. n ∷ l) (put_bits-same xs ys same n 0);
  htole_range = λ n h. h;
  letoh-htole = λ n h. refl;
  data_back = get_cells_back;
}

abbrev ballot : Secp256k1
ballot = record {
  obj_hash = 104;
  nbits = 4;
  rids = 3 ∷ 1 ∷ 2 ∷ [];
  sigs = (1, 111) ∷ (2, 111) ∷ (3, 111) ∷ [];
}

abbrev block : Block
block = record blank {
  parent_hashes = 104 ∷ [];
  cmds = 7 ∷ 8 ∷ [];
  keys = pos 5 ∷ pos 6 ∷ [];
  vals = pos 1 ∷ negsuc 1 ∷ [];
  qc = some (secp256k1 ballot);
  extra = 9 ∷ [];
  hash = 105;
  height = 5;
}

abbrev proposal : Proposal
proposal = cluster_proposal 2 0 1 1 5 1 (3 ∷ 2 ∷ []) 4

abbrev bytes_of : Option Bytes → Bytes
bytes_of none = []
bytes_of (some bs) = bs

within : IsWithin 4 (3 ∷ 1 ∷ 2 ∷ [])
unfolding has
within i on = ground arith

block-FitsWire : FitsWire cells with_secp256k1 block
block-FitsWire = record {
  few_parents = omega arith;
  few_cmds = omega arith;
  small_extra = omega arith;
  as_many_keys = refl;
  as_many_vals = refl;
  int_keys = omega arith;
  int_vals = omega arith;
}

get_block-put_block_example : Arrives cells with_secp256k1 block (bytes_of (put_block cells block))
unfolding put_block put_block_with put_qc put_quorum_cert put_secp256k1 put_sigs put_count put_each
    has lookup put_all_bits put_bits
get_block-put_block_example =
    get_block-put_block cells cells-IsFaithful with_secp256k1 block (secp256k1 ballot)
      (bytes_of (put_block cells block)) refl within block-FitsWire refl

get_proposal-put_proposal_example :
    (r : Received) × IsCopy cells (λ p. block) proposal r
    × Reads
        (get_proposal cells with_secp256k1)
        r
        (bytes_of (put_proposal cells (λ p. block) proposal))
unfolding put_proposal put_proposal_with put_block put_block_with put_qc put_quorum_cert
    put_secp256k1 put_sigs put_count put_each has lookup put_all_bits put_bits
get_proposal-put_proposal_example =
    get_proposal-put_proposal cells cells-IsFaithful with_secp256k1 (λ p. block) proposal
      (secp256k1 ballot) (bytes_of (put_proposal cells (λ p. block) proposal))
      (record {
        c = 1;
        a = 1;
        t = 1;
        n = 4;
        has_cluster = refl;
        has_pre_amp = refl;
        has_type = refl;
        has_count = refl;
        c_fits = omega arith;
        a_fits = omega arith;
        t_fits = omega arith;
        n_fits = omega arith;
        height_fits = omega arith;
        proposer_fits = omega arith;
        peers_fit = omega arith;
        few_peers = omega arith;
      })
      refl within block-FitsWire refl

finality-Reads_example :
    get_finality cells 77 (put_finality cells (finality 1 0 0 0 9 105) ++ 5 ∷ [])
    ≡ some (finality 1 0 0 0 9 77, 5 ∷ [])
finality-Reads_example =
    finality-Reads cells cells-IsFaithful 77 (finality 1 0 0 0 9 105)
      (record {
        rid_fits = omega arith;
        decision_fits = omega arith;
        idx_fits = omega arith;
        height_fits = omega arith;
      })
      (5 ∷ [])
