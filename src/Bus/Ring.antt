-- ===== src/Bus/Ring.antt =====
-- RingBuffer of solutions/solution17_event_bus.go: the history of BoundedEventBus. The positions are
-- int64 counters in the source, modelled without their wrap-around.
use go_async_practice.Common.{
  ℕ, zero, suc, ◌+◌, ◌-◌, ◌%◌, List, [], ◌∷◌, ltb, if◌then◌else◌, get_or, set, replicate,
}
pub mod Recent

pub record RingBuffer (E : Type 0) : Type 0 where
  pub buffer : List E
  pub head : ℕ
  pub tail : ℕ
  pub size : ℕ

-- `make([]Event, n)` is filled with the zero event.
module _ {E : Type 0} (zero_event : E) where
  unfoldable pub new_ring_buffer : ℕ → RingBuffer E
  new_ring_buffer size = record {
    buffer = replicate size zero_event;
    head = 0;
    tail = 0;
    size = size;
  }

  unfoldable pub add : E → RingBuffer E → RingBuffer E
  add event rb =
      let buffer = set rb.buffer (rb.tail % rb.size) event in
      let tail = rb.tail + 1 in
      record rb {
        buffer = buffer;
        tail = tail;
        head = if ltb rb.size (tail - rb.head) then tail - rb.size else rb.head;
      }

  -- The loop of `GetRecent` over the results that are left to read, the last `left` ones.
  unfoldable pub read_last : ℕ → RingBuffer E → List E
  read_last zero rb = []
  read_last (suc left) rb =
      get_or rb.buffer ((rb.tail - suc left) % rb.size) zero_event ∷ read_last left rb

  unfoldable pub get_recent : ℕ → RingBuffer E → List E
  unfolding read_last
  get_recent n rb = let count = rb.tail - rb.head in read_last (if ltb count n then count else n) rb
