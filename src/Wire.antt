-- ===== src/Wire.antt =====
-- Messages as bytes: the `serialize` and `unserialize` methods of include/hotstuff/consensus.h,
-- include/hotstuff/crypto.h, src/entity.cpp and src/hotstuff.cpp. The stream and its operators for
-- numbers, hashes, signatures and bit vectors are those of the salticidae library: the parameter
-- `Stream`, with what the code relies on in `IsFaithful`. A reader that gives `none` has thrown
-- `std::ios_base::failure`.
pub mod Readers
pub mod Certs
pub mod Blocks
pub mod Messages
use ava_hotstuff.Prelude.{
  ℕ, ◌+◌, ◌^◌, ◌<◌, ◌≡◌, Bool, true, Option, none, some, List, ◌++◌, has, length,
}
use ava_hotstuff.Prelude.Int.{ℤ, pos_part, neg_part}
use ava_hotstuff.Entity.Config.{ReplicaId, Hash}
use ava_hotstuff.Crypto.{Sig}

abbrev pub Bytes : Type 0
Bytes = List ℕ

abbrev pub Reader : Type 0 → Type 0
Reader A = Bytes → Option (A × Bytes)

-- `operator<<` and `operator>>` for a type.
pub record Serial (A : Type 0) : Type 0 where
  pub put : A → Bytes
  pub get : Reader A

pub record Stream : Type 0 where
  -- `uint8_t`, `uint16_t`, `uint32_t` and `size_t`; an `int` that is kept as its pattern goes as a
  -- `uint32_t`
  pub u8 : Serial ℕ
  pub u16 : Serial ℕ
  pub u32 : Serial ℕ
  pub size : Serial ℕ
  pub int : Serial ℤ
  pub hash : Serial Hash
  pub sig : Serial Sig
  -- `Bits`: how many there are, and those that are on
  pub bits : Serial (ℕ × List ReplicaId)
  pub htole : ℕ → ℕ
  pub letoh : ℕ → ℕ
  -- `get_data_inplace`; a byte array is written as its bytes
  pub get_data : ℕ → Reader Bytes
  -- the digest of a stream
  pub digest : Bytes → Hash

-- Reading the bytes gives the value, whatever comes behind them.
abbrev pub Reads : {A : Type 0} → Reader A → A → Bytes → Type 0
Reads read a bs = (rest : Bytes) → read (bs ++ rest) ≡ some (a, rest)

abbrev pub SameBits : List ReplicaId → List ReplicaId → Type 0
SameBits xs ys = (i : ℕ) → has i xs ≡ has i ys

abbrev pub IsWithin : ℕ → List ReplicaId → Type 0
IsWithin n xs = (i : ℕ) → has i xs ≡ true → i < n

-- What is written is read back, where it fits its type.
pub record IsFaithful (st : Stream) : Type 0 where
  pub u8_back : (n : ℕ) → n < 2 ^ 8 → Reads st.u8.get n (st.u8.put n)
  pub u16_back : (n : ℕ) → n < 2 ^ 16 → Reads st.u16.get n (st.u16.put n)
  pub u32_back : (n : ℕ) → n < 2 ^ 32 → Reads st.u32.get n (st.u32.put n)
  pub size_back : (n : ℕ) → n < 2 ^ 64 → Reads st.size.get n (st.size.put n)
  pub int_back :
      (z : ℤ) → pos_part z < 2 ^ 31 → neg_part z < 2 ^ 31 + 1 → Reads st.int.get z (st.int.put z)
  pub hash_back : (h : Hash) → Reads st.hash.get h (st.hash.put h)
  pub sig_back : (x : Sig) → Reads st.sig.get x (st.sig.put x)
  pub bits_back :
      (n : ℕ) (xs : List ReplicaId)
      → IsWithin n xs
      → (ys : List ReplicaId) × SameBits xs ys × Reads st.bits.get (n, ys) (st.bits.put (n, xs))
  pub bits_same :
      (n : ℕ) (xs ys : List ReplicaId) → SameBits xs ys → st.bits.put (n, xs) ≡ st.bits.put (n, ys)
  pub htole_range : (n : ℕ) → n < 2 ^ 32 → st.htole n < 2 ^ 32
  pub letoh-htole : (n : ℕ) → n < 2 ^ 32 → st.letoh (st.htole n) ≡ n
  pub data_back : (bs : Bytes) → Reads (st.get_data (length bs)) bs bs
