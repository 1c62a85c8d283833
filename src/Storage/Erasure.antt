-- ===== src/Storage/Erasure.antt =====
-- ErasureCoder of solutions/solution24_object_storage.go, and the part of `Get` that puts an object
-- together. SHA-256 is the parameter `digest`. Bytes are numbers; a chunk that was not retrieved is
-- `none`. `Get` has a slot for every chunk, so `decode` is never asked for more than there are.
use Prim.Native.Nat.{bit_xor}
use go_async_practice.Common.{
  ℕ, zero, suc, ◌+◌, ◌-◌, ◌*◌, ◌/◌, ◌%◌, List, [], ◌∷◌, ◌++◌, Option, none, some, ◌==◌,
  if◌then◌else◌, length, take, drop, replicate,
}
pub mod Roundtrip

pub record ErasureCoder : Type 0 where
  pub data_chunks : ℕ
  pub parity_chunks : ℕ

unfoldable pub chunk_size : ErasureCoder → ℕ → ℕ
chunk_size ec n = if n % ec.data_chunks == 0 then n / ec.data_chunks else n / ec.data_chunks + 1

-- `make([]byte, n)` with the bytes copied to its front.
abbrev pub padded : ℕ → List ℕ → List ℕ
padded n bytes = bytes ++ replicate (n - length bytes) 0

-- The loop that makes the data chunks, from chunk `i` on.
unfoldable pub split : ℕ → ℕ → ℕ → List ℕ → List (List ℕ)
split zero i size bytes = []
split (suc left) i size bytes =
    padded size (take size (drop (i * size) bytes)) ∷ split left (i + 1) size bytes

-- `parity[k] ^= chunks[j][k]`
unfoldable pub xor_into : List ℕ → List ℕ → List ℕ
xor_into [] chunk = []
xor_into (p ∷ parity) [] = p ∷ parity
xor_into (p ∷ parity) (b ∷ chunk) = bit_xor p b ∷ xor_into parity chunk

unfoldable pub xor_all : List ℕ → List (List ℕ) → List ℕ
xor_all parity [] = parity
xor_all parity (chunk ∷ chunks) = xor_all (xor_into parity chunk) chunks

unfoldable pub encode : ErasureCoder → List ℕ → List (List ℕ)
unfolding chunk_size split xor_all xor_into
encode ec bytes =
    let size = chunk_size ec (length bytes) in
    let chunks = split ec.data_chunks 0 size bytes in
    chunks ++ replicate ec.parity_chunks (xor_all (replicate size 0) chunks)

unfoldable pub decode : List (Option (List ℕ)) → ℕ → List ℕ
decode chunks zero = []
decode [] (suc left) = []
decode (none ∷ chunks) (suc left) = decode chunks left
decode (some chunk ∷ chunks) (suc left) = chunk ++ decode chunks left

-- The end of `Get`: `none` stands for the error "checksum mismatch".
unfoldable pub reconstruct :
    (List ℕ → ℕ) → List (Option (List ℕ)) → (chunks checksum : ℕ) → Option (List ℕ)
unfolding decode
reconstruct digest retrieved chunks checksum =
    let bytes = decode retrieved chunks in if digest bytes == checksum then some bytes else none
