-- ===== src/Bus/Ring/Recent.antt =====
-- What the history of the bus remembers.
use native.Mathlib.Nat.{mod-lt, div-add-mod, mul-le-mul_left}
use mathlib.Core.List.{append_assoc, append-nil}
use native.Mathlib.Decide.{dec_lt}
use go_async_practice.Common.{
  length-replicate, ℕ, zero, suc, ◌+◌, ◌-◌, ◌*◌, ◌/◌, ◌%◌, ◌≤◌, ◌<◌, ◌≡◌, refl, ◌≢◌, List, [], ◌∷◌,
  ◌++◌, arith, length, drop, length-append, ltb, if◌then◌else◌, get_elem?, some, length-set, sym,
  ap, get_elem?-set_self, get_elem?-set_ne, get_elem?-some, get_elem?-append_last, get_elem?-lt,
  get_or-get_elem?, ◌∙◌,
}
use go_async_practice.Bus.Ring.{RingBuffer, new_ring_buffer, add, read_last, get_recent}

-- Two positions that are less than the size apart stand in different cells.
mod-distinct : (i j s : ℕ) → i < j → j < i + s → i % s ≢ j % s
mod-distinct i j s lt near e =
    let di : s * (i / s) + i % s ≡ i = div-add-mod i s in
    let dj : s * (j / s) + j % s ≡ j = div-add-mod j s in
    elim (dec_lt (i / s) (j / s)) [
      | yes below ↦
          let m : s * suc (i / s) ≤ s * (j / s) = mul-le-mul_left s below in
          omega (arith, m, di, dj, e)
      | no above ↦
          let m : s * (j / s) ≤ s * (i / s) = mul-le-mul_left s (omega arith) in
          omega (arith, m, di, dj, e)
    ]

-- The last `k` elements, or all when there are fewer.
abbrev pub last_of {ℓ} : {A : Type ℓ} → ℕ → List A → List A
last_of k xs = drop (length xs - k) xs

drop-get_elem? :
    {A : Type 0} (xs : List A) (i : ℕ) {v : A}
    → get_elem? xs i ≡ some v
    → drop i xs ≡ v ∷ drop (suc i) xs
drop-get_elem? [] i e = cc
drop-get_elem? (x ∷ xs) zero e = cc
drop-get_elem? (x ∷ xs) (suc i) e = drop-get_elem? xs i e

drop_all : {A : Type 0} (xs : List A) → drop (length xs) xs ≡ []
drop_all [] = refl
drop_all (x ∷ xs) = drop_all xs

-- The elements of a list with one more at its end.
get_elem?-snoc :
    {A : Type 0} (xs : List A) (x : A) (i : ℕ) {v : A}
    → i < length xs
    → get_elem? (xs ++ x ∷ []) i ≡ some v
    → get_elem? xs i ≡ some v
get_elem?-snoc [] x i lt e = absurd (omega arith)
get_elem?-snoc (y ∷ xs) x zero lt e = e
get_elem?-snoc (y ∷ xs) x (suc i) lt e = get_elem?-snoc xs x i (omega arith) e

module _ {E : Type 0} (zero_event : E) where
  -- The ring has seen `es`, and its cells hold the last of them.
  record Recalls (es : List E) (rb : RingBuffer E) : Type 0 where
    positive : 0 < rb.size
    sized : length rb.buffer ≡ rb.size
    counted : rb.tail ≡ length es
    started : rb.head ≡ length es - rb.size
    kept :
        (i : ℕ) (v : E)
        → get_elem? es i ≡ some v
        → length es ≤ i + rb.size
        → get_elem? rb.buffer (i % rb.size) ≡ some v

  new_ring_buffer-Recalls : (s : ℕ) → 0 < s → Recalls [] (new_ring_buffer zero_event s)
  unfolding new_ring_buffer
  new_ring_buffer-Recalls s pos = record {
    positive = pos;
    sized = length-replicate s zero_event;
    counted = refl;
    started = omega arith;
    kept = λ i v e. cc;
  }

  add-Recalls :
      (e : E) (es : List E) (rb : RingBuffer E)
      → Recalls es rb
      → Recalls (es ++ e ∷ []) (add zero_event e rb)
  unfolding add
  add-Recalls e es rb r =
      let cell : rb.tail % rb.size < length rb.buffer =
        omega (arith, mod-lt rb.tail r.positive, r.sized) in
      let (old, was) = get_elem?-some rb.buffer (rb.tail % rb.size) cell in
      record {
        positive = r.positive;
        sized = length-set rb.buffer (rb.tail % rb.size) e ∙ r.sized;
        counted = omega (arith, r.counted, length-append es (e ∷ []));
        started = ground (arith, r.counted, r.started, r.positive, length-append es (e ∷ []));
        kept = λ i v at near. elim (dec_lt i (length es)) [
          | yes earlier ↦
              get_elem?-set_ne rb.buffer (rb.tail % rb.size) (i % rb.size) e (λ same.
                mod-distinct i rb.tail rb.size (omega (arith, r.counted))
                  (omega (arith, r.counted, near, length-append es (e ∷ []))) (sym same))
              ∙ r.kept i v (get_elem?-snoc es e i earlier at)
                  (omega (arith, length-append es (e ∷ [])))
          | no last ↦
              let here : i ≡ rb.tail =
                omega
                  (arith, r.counted, get_elem?-lt (es ++ e ∷ []) i at, length-append es (e ∷ [])) in
              let found : some e ≡ some v =
                sym (get_elem?-append_last es e) ∙ (rw (here, r.counted) at at) in
              rw here (get_elem?-set_self rb.buffer (rb.tail % rb.size) e was ∙ found)
        ];
      }

  -- The ring behind a run of events.
  unfoldable pub add_all : List E → RingBuffer E → RingBuffer E
  add_all [] rb = rb
  add_all (e ∷ es) rb = add_all es (add zero_event e rb)

  read_last-Recalls :
      (left : ℕ) (es : List E) (rb : RingBuffer E)
      → Recalls es rb
      → left ≤ rb.size
      → left ≤ length es
      → read_last zero_event left rb ≡ last_of left es
  unfolding read_last
  read_last-Recalls zero es rb r in_ring in_list =
      let whole : length es - 0 ≡ length es = omega arith in rw whole (sym (drop_all es))
  read_last-Recalls (suc left) es rb r in_ring in_list =
      let i = length es - suc left in
      let (v, at) = get_elem?-some es i (omega arith) in
      let next : suc i ≡ length es - left = omega arith in
      let cell : (rb.tail - suc left) % rb.size ≡ i % rb.size = rw r.counted refl in
      let read =
        get_or-get_elem? rb.buffer (i % rb.size) zero_event (r.kept i v at (omega arith)) in
      let rest = read_last-Recalls left es rb r (omega arith) (omega arith) in
      rw (drop-get_elem? es i at, next, cell, read, rest) refl

  add_all-Recalls :
      (es before : List E) (rb : RingBuffer E)
      → Recalls before rb
      → Recalls (before ++ es) (add_all es rb)
  unfolding add_all
  add_all-Recalls [] before rb r = rw (append-nil before) r
  add_all-Recalls (e ∷ es) before rb r =
      let step =
        add_all-Recalls es (before ++ e ∷ []) (add zero_event e rb) (add-Recalls e before rb r) in
      rw append_assoc at step

  size-add_all : (es : List E) (rb : RingBuffer E) → (add_all es rb).size ≡ rb.size
  unfolding add_all add
  size-add_all [] rb = refl
  size-add_all (e ∷ es) rb = size-add_all es (add zero_event e rb)

  get_recent-Recalls :
      (n : ℕ) (es : List E) (rb : RingBuffer E)
      → Recalls es rb
      → get_recent zero_event n rb ≡ last_of (if ltb rb.size n then rb.size else n) es
  unfolding get_recent
  get_recent-Recalls n es rb r =
      let count = rb.tail - rb.head in
      let k : ℕ = if ltb count n then count else n in
      let in_ring : k ≤ rb.size = ground (arith, r.counted, r.started) in
      let in_list : k ≤ length es = ground (arith, r.counted, r.started) in
      let same : length es - k ≡ length es - (if ltb rb.size n then rb.size else n) =
        ground (arith, r.counted, r.started) in
      read_last-Recalls k es rb r in_ring in_list ∙ ap (λ i. drop i es) same

-- After any run of events on a new history of positive size, `GetRecent(n)` returns the last `n` of
-- them in order, or the last as many as the size when `n` is larger, or all when there are fewer.
pub get_recent-add_all :
    {E : Type 0} (zero_event : E) (size n : ℕ) (es : List E)
    → 0 < size
    → get_recent zero_event n (add_all zero_event es (new_ring_buffer zero_event size))
      ≡ last_of (if ltb size n then size else n) es
unfolding new_ring_buffer
get_recent-add_all zero_event size n es pos =
    let rb = new_ring_buffer zero_event size in
    let r = add_all-Recalls zero_event es [] rb (new_ring_buffer-Recalls zero_event size pos) in
    let sized : (add_all zero_event es rb).size ≡ size = size-add_all zero_event es rb in
    get_recent-Recalls zero_event n es (add_all zero_event es rb) r
    ∙ ap (λ s. last_of (if ltb s n then s else n) es) sized
