-- ===== src/Storage/Erasure/Roundtrip.antt =====
-- What comes back of an encoded object.
use mathlib.Core.List.{append-nil}
use native.Mathlib.Nat.{div-add-mod, mod-lt}
use go_async_practice.Common.{
  ℕ, zero, suc, ◌+◌, ◌-◌, ◌*◌, ◌/◌, ◌%◌, ◌≤◌, ◌<◌, ◌≡◌, ◌≢◌, take-append, refl, sym, ap, ◌∙◌, List,
  [], ◌∷◌, ◌++◌, Option, none, some, arith, length, map, take, drop, replicate, length-append,
  length-replicate, take_all,
}
use go_async_practice.Storage.Erasure.{
  ErasureCoder, chunk_size, padded, split, xor_all, encode, decode, reconstruct,
}

drop_nil : {A : Type 0} (n : ℕ) → drop {A = A} n [] ≡ []
drop_nil zero = refl
drop_nil (suc n) = refl

take_nil : {A : Type 0} (n : ℕ) → take {A = A} n [] ≡ []
take_nil zero = refl
take_nil (suc n) = refl

take-replicate : (n m : ℕ) → n ≤ m → take {A = ℕ} n (replicate m 0) ≡ replicate n 0
take-replicate zero m le = refl
take-replicate (suc n) zero le = absurd (omega arith)
take-replicate (suc n) (suc m) le = ap (λ xs. 0 ∷ xs) (take-replicate n m (omega arith))

-- The front of a list with zeros behind it.
take-padded :
    (n m : ℕ) (xs : List ℕ)
    → n ≤ length xs + m
    → take n (xs ++ replicate m 0) ≡ padded n (take n xs)
take-padded zero m xs le = refl
take-padded (suc n) m [] le =
    let e : suc n - 0 ≡ suc n = omega arith in rw e (take-replicate (suc n) m (omega arith))
take-padded (suc n) m (x ∷ xs) le =
    let e : suc n - suc (length (take n xs)) ≡ n - length (take n xs) = omega arith in
    rw e (ap (λ ys. x ∷ ys) (take-padded n m xs (omega arith)))

take-drop-padded :
    (n s m : ℕ) (xs : List ℕ)
    → s + n ≤ length xs + m
    → take n (drop s (xs ++ replicate m 0)) ≡ padded n (take n (drop s xs))
take-drop-padded n zero m xs le = take-padded n m xs (omega arith)
take-drop-padded n (suc s) m (x ∷ xs) le = take-drop-padded n s m xs (omega arith)
take-drop-padded n (suc s) zero [] le = absurd (omega arith)
take-drop-padded n (suc s) (suc m) [] le =
    let e = take-drop-padded n s m [] (omega arith) in rw (drop_nil {A = ℕ} s) at e

take-add : (a b : ℕ) (xs : List ℕ) → take (a + b) xs ≡ take a xs ++ take b (drop a xs)
take-add zero b xs = let e : zero + b ≡ b = omega arith in rw e refl
take-add (suc a) b [] =
    let e : suc a + b ≡ suc (a + b) = omega arith in rw (e, take_nil {A = ℕ} b) refl
take-add (suc a) b (x ∷ xs) =
    let e : suc a + b ≡ suc (a + b) = omega arith in rw e (ap (λ ys. x ∷ ys) (take-add a b xs))

drop-drop : {A : Type 0} (s a : ℕ) (xs : List A) → drop a (drop s xs) ≡ drop (s + a) xs
drop-drop zero a xs = let e : zero + a ≡ a = omega arith in rw e refl
drop-drop (suc s) a [] = let e : suc s + a ≡ suc (s + a) = omega arith in rw e (drop_nil a)
drop-drop (suc s) a (x ∷ xs) =
    let e : suc s + a ≡ suc (s + a) = omega arith in rw e (drop-drop s a xs)

length-split : (left i size : ℕ) (bytes : List ℕ) → length (split left i size bytes) ≡ left
unfolding split
length-split zero i size bytes = refl
length-split (suc left) i size bytes = ap suc (length-split left (i + 1) size bytes)

-- The chunks in a row.
decode-split :
    (left i size total m : ℕ) (bytes : List ℕ) (parity : List (Option (List ℕ)))
    → total ≡ length bytes + m
    → i * size + left * size ≤ total
    → decode (map some (split left i size bytes) ++ parity) left
      ≡ take (left * size) (drop (i * size) (bytes ++ replicate m 0))
unfolding split decode
decode-split zero i size total m bytes parity e le =
    let e' : zero * size ≡ zero = omega arith in rw e' refl
decode-split (suc left) i size total m bytes parity e le =
    let all = bytes ++ replicate m 0 in
    let here = take-drop-padded size (i * size) m bytes (omega (arith, e, le)) in
    let rest = decode-split left (i + 1) size total m bytes parity e (omega (arith, le)) in
    let more : suc left * size ≡ size + left * size = omega arith in
    let shift : (i + 1) * size ≡ i * size + size = omega arith in
    rw
      (
        more,
        take-add size (left * size) (drop (i * size) all),
        here,
        drop-drop (i * size) size all,
        rest,
        shift,
      )
      refl

length-padded : (m : ℕ) (bytes : List ℕ) → length (bytes ++ replicate m 0) ≡ length bytes + m
length-padded m bytes =
    length-append bytes (replicate m 0) ∙ ap (λ k. length bytes + k) (length-replicate m 0)

-- The chunks are as many and as large as the bytes need.
chunk_size-enough :
    (ec : ErasureCoder) (n : ℕ)
    → 0 < ec.data_chunks
    → (n ≤ ec.data_chunks * chunk_size ec n)
      × (n % ec.data_chunks ≡ 0 → ec.data_chunks * chunk_size ec n ≡ n)
unfolding chunk_size
chunk_size-enough ec n pos =
    let d : ec.data_chunks * (n / ec.data_chunks) + n % ec.data_chunks ≡ n =
      div-add-mod n ec.data_chunks in
    let r : n % ec.data_chunks < ec.data_chunks = mod-lt n pos in grind (arith, d, r)

chunk_size-more :
    (ec : ErasureCoder) (n : ℕ)
    → 0 < ec.data_chunks
    → n % ec.data_chunks ≢ 0
    → n < ec.data_chunks * chunk_size ec n
unfolding chunk_size
chunk_size-more ec n pos part =
    let d : ec.data_chunks * (n / ec.data_chunks) + n % ec.data_chunks ≡ n =
      div-add-mod n ec.data_chunks in
    let r : n % ec.data_chunks < ec.data_chunks = mod-lt n pos in grind (arith, d, r)

-- The bytes with zeros up to whole chunks.
abbrev pub filled : ErasureCoder → List ℕ → List ℕ
filled ec bytes = padded (ec.data_chunks * chunk_size ec (length bytes)) bytes

decode-encode_lem :
    (ec : ErasureCoder) (bytes : List ℕ) (parity : List (Option (List ℕ)))
    → 0 < ec.data_chunks
    → decode
        (map some (split ec.data_chunks 0 (chunk_size ec (length bytes)) bytes) ++ parity)
        ec.data_chunks
      ≡ filled ec bytes
decode-encode_lem ec bytes parity pos =
    let size = chunk_size ec (length bytes) in
    let total = ec.data_chunks * size in
    let m = total - length bytes in
    let enough = (chunk_size-enough ec (length bytes) pos).0 in
    let sum : total ≡ length bytes + m = omega (arith, enough) in
    let zero_start : 0 * size ≡ 0 = omega arith in
    let whole : take total (bytes ++ replicate m 0) ≡ bytes ++ replicate m 0 =
      ap (λ k. take k (bytes ++ replicate m 0)) (sum ∙ sym (length-padded m bytes))
      ∙ take_all (bytes ++ replicate m 0) in
    decode-split ec.data_chunks 0 size total m bytes parity sum (omega arith)
    ∙ ap (λ k. take total (drop k (bytes ++ replicate m 0))) zero_start
    ∙ whole

map-append :
    (f : List ℕ → Option (List ℕ)) (xs ys : List (List ℕ)) → map f (xs ++ ys) ≡ map f xs ++ map f ys
map-append f [] ys = refl
map-append f (x ∷ xs) ys = ap (λ zs. f x ∷ zs) (map-append f xs ys)

-- The data chunks of an encoded object, all retrieved, and any parity chunks.
abbrev pub retrieved : ErasureCoder → List ℕ → List (Option (List ℕ)) → List (Option (List ℕ))
retrieved ec bytes parity = map some (take ec.data_chunks (encode ec bytes)) ++ parity

decode-encode :
    (ec : ErasureCoder) (bytes : List ℕ) (parity : List (Option (List ℕ)))
    → 0 < ec.data_chunks
    → decode (retrieved ec bytes parity) ec.data_chunks ≡ filled ec bytes
unfolding encode
decode-encode ec bytes parity pos =
    let size = chunk_size ec (length bytes) in
    let chunks = split ec.data_chunks 0 size bytes in
    let extra = replicate ec.parity_chunks (xor_all (replicate size 0) chunks) in
    let count = length-split ec.data_chunks 0 size bytes in
    let front : take ec.data_chunks (chunks ++ extra) ≡ chunks =
      take-append ec.data_chunks chunks extra (omega (arith, count))
      ∙ ap (λ k. take k chunks) (sym count)
      ∙ take_all chunks in
    ap (λ cs. decode (map some cs ++ parity) ec.data_chunks) front
    ∙ decode-encode_lem ec bytes parity pos

-- If the number of bytes is a multiple of the number of data chunks, and the data chunks are all
-- retrieved, then `Get` gives back the bytes that were stored, whichever parity chunks it has.
pub reconstruct-encode :
    (digest : List ℕ → ℕ) (ec : ErasureCoder) (bytes : List ℕ) (parity : List (Option (List ℕ)))
    → 0 < ec.data_chunks
    → length bytes % ec.data_chunks ≡ 0
    → reconstruct digest (retrieved ec bytes parity) ec.data_chunks (digest bytes) ≡ some bytes
unfolding reconstruct
reconstruct-encode digest ec bytes parity pos whole =
    let total : ec.data_chunks * chunk_size ec (length bytes) ≡ length bytes =
      (chunk_size-enough ec (length bytes) pos).1 whole in
    let none_left : ec.data_chunks * chunk_size ec (length bytes) - length bytes ≡ 0 =
      omega arith in
    let full : filled ec bytes ≡ bytes = rw none_left (append-nil bytes) in
    rw (decode-encode ec bytes parity pos ∙ full) (ground arith)

-- If the number of bytes is no multiple of the number of data chunks, then the bytes that `Get` puts
-- together have zeros at their end that were not stored, and it fails with a checksum mismatch,
-- though all chunks are there, unless these bytes have the hash of the object.
pub reconstruct-filled :
    (digest : List ℕ → ℕ) (ec : ErasureCoder) (bytes : List ℕ) (parity : List (Option (List ℕ)))
    → 0 < ec.data_chunks
    → length bytes % ec.data_chunks ≢ 0
    → digest (filled ec bytes) ≢ digest bytes
    → (length bytes < length (filled ec bytes))
      × (reconstruct digest (retrieved ec bytes parity) ec.data_chunks (digest bytes) ≡ none)
unfolding reconstruct
reconstruct-filled digest ec bytes parity pos part differ =
    let enough = chunk_size-more ec (length bytes) pos part in
    let size = length-padded (ec.data_chunks * chunk_size ec (length bytes) - length bytes) bytes in
    (omega (arith, enough, size), rw (decode-encode ec bytes parity pos) (ground arith))
