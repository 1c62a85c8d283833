-- ===== src/Streams/Checkpoint.antt =====
-- solution3_CheckpointRecovery of solutions/challenge16_solution.go. The data of an event is `some` of
-- a 64-bit pattern where it is an int. Instants are nanoseconds from Go's zero time, and a window is
-- known by the instant at which it starts, for its text. Maps are values here, so a deep copy of a map
-- is the map itself, and that the source copies them and does not share them is not shown.
use go_async_practice.Common.{
  ℕ, ◌+◌, ◌-◌, ◌*◌, ◌%◌, ◌^◌, String, Bool, true, false, List, [], ◌∷◌, ◌++◌, Option, none, some,
  ltb, if◌then◌else◌, length, drop,
}
use go_async_practice.Common.Dict.{Dict, lookup, insert}
use go_async_practice.Common.Table.{Table, find, put}
pub mod Replay

pub record StreamEvent : Type 0 where
  pub id : String
  pub offset : ℕ
  pub payload : Option ℕ
  pub timestamp : ℕ

pub record Checkpoint : Type 0 where
  pub offset : ℕ
  pub processed_ids : Dict Bool
  pub window_states : Table ℕ
  pub checkpoint_time : ℕ

pub record CheckpointManager : Type 0 where
  pub current : Checkpoint
  pub history : List Checkpoint
  pub max_history : ℕ
  pub processed_count : ℕ

unfoldable pub new_manager : CheckpointManager
new_manager = record {
  current = record { offset = 0; processed_ids = []; window_states = []; checkpoint_time = 0 };
  history = [];
  max_history = 5;
  processed_count = 0;
}

-- `Truncate(5 * time.Second)`
unfoldable pub window_of : ℕ → ℕ
window_of timestamp = timestamp - timestamp % (5 * 10 ^ 9)

-- The zero value for a key that is missing.
abbrev pub is_processed : String → Dict Bool → Bool
is_processed id ids = elim (lookup id ids) [ none ↦ false | some b ↦ b ]

abbrev pub state_of : ℕ → Table ℕ → ℕ
state_of window states = elim (find window states) [ none ↦ 0 | some total ↦ total ]

-- `WindowStates[windowKey] += int64(value)`
unfoldable pub add_value : ℕ → Option ℕ → Table ℕ → Table ℕ
add_value window none states = states
add_value window (some value) states = put window ((state_of window states + value) % 2 ^ 64) states

unfoldable pub process_event : StreamEvent → CheckpointManager → CheckpointManager × Bool
unfolding window_of add_value
process_event event m = if is_processed event.id m.current.processed_ids then (m, false) else (
  record m {
    current = record m.current {
      window_states = add_value (window_of event.timestamp) event.payload m.current.window_states;
      processed_ids = insert event.id true m.current.processed_ids;
      offset = event.offset;
    };
    processed_count = m.processed_count + 1;
  },
  true,
)

unfoldable pub create_checkpoint : ℕ → CheckpointManager → CheckpointManager × Checkpoint
create_checkpoint now m =
    let checkpoint : Checkpoint = record m.current { checkpoint_time = now } in
    let longer = m.history ++ checkpoint ∷ [] in
    (
      record m { history = if ltb m.max_history (length longer) then drop 1 longer else longer },
      checkpoint,
    )

unfoldable pub recover_from_checkpoint : Checkpoint → CheckpointManager → CheckpointManager
recover_from_checkpoint checkpoint m = record m {
  current = record checkpoint { checkpoint_time = 0 };
}
