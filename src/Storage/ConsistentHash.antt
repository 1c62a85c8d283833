-- ===== src/Storage/ConsistentHash.antt =====
-- ConsistentHash of solutions/solution23_columnar_storage.go: the search for a key's place on the
-- ring. A key is the list of its runes, and the sorted keys are 32-bit hashes. `right` is kept one
-- larger than in the source, where it may reach -1.
use go_async_practice.Common.{
  ℕ, zero, suc, ◌+◌, ◌-◌, ◌*◌, ◌/◌, ◌%◌, ◌^◌, List, [], ◌∷◌, ltb, ◌==◌, if◌then◌else◌, length,
  get_or, String, Bool, false, ◌||◌, ◌++◌, str_eq,
}
pub mod Search
pub mod Replicas
pub mod Ring

-- `h = h*31 + uint32(c)`, from `h` on.
unfoldable pub hash_from : ℕ → List ℕ → ℕ
hash_from h [] = h
hash_from h (c ∷ key) = hash_from ((h * 31 + c) % 2 ^ 32) key

unfoldable pub hash : List ℕ → ℕ
unfolding hash_from
hash key = hash_from 0 key

-- The loop of `search` on fuel.
unfoldable pub search_between : ℕ → List ℕ → ℕ → ℕ → ℕ → ℕ
search_between zero keys target left right = left
search_between (suc fuel) keys target left right =
    let mid = (left + (right - 1)) / 2 in
    let above = search_between fuel keys target (mid + 1) right in
    let below = search_between fuel keys target left mid in
    if ltb left right
    then (if get_or keys mid 0 == target
        then mid
        else if ltb (get_or keys mid 0) target
        then above
        else below)
    else left

-- The place before `% len(ch.sortedKeys)`, and the search: a place that was found is in range, so
-- the remainder leaves it as it is.
unfoldable pub search : List ℕ → ℕ → ℕ
unfolding search_between
search keys target = search_between (length keys) keys target 0 (length keys) % length keys

abbrev pub contains : String → List String → Bool
contains node [] = false
contains node (n ∷ nodes) = str_eq n node || contains node nodes

-- The loop of `GetNodes` with `left` places to go, from place `i` on. `ring` reads the map, with the
-- empty string for a missing key, and the nodes seen are those collected.
unfoldable pub collect : ℕ → (ℕ → String) → List ℕ → ℕ → ℕ → ℕ → List String → List String
collect zero ring keys index i n nodes = nodes
collect (suc left) ring keys index i n nodes =
    let node = ring (get_or keys ((index + i) % length keys) 0) in
    let more = if contains node nodes then nodes else nodes ++ node ∷ [] in
    let rest = collect left ring keys index (i + 1) n more in
    if ltb (length nodes) n then rest else nodes

unfoldable pub get_nodes : (ℕ → String) → List ℕ → List ℕ → ℕ → List String
unfolding collect search hash
get_nodes ring [] key n = []
get_nodes ring (k ∷ keys) key n =
    collect (length (k ∷ keys)) ring (k ∷ keys) (search (k ∷ keys) (hash key)) 0 n []
