-- ===== src/Messages/Consumer/Attempts.antt =====
-- What is dealt with behind the attempts at one message.
use go_async_practice.Common.{
  ◌⊎◌, ℕ, zero, suc, ◌+◌, ◌≡◌, refl, String, Bool, true, false, ◌&&◌, ◌||◌, List, [], ◌∷◌, ◌++◌,
  arith, ◌==◌, if◌then◌else◌, str_eq, eq_iff, eq_refl, Bool-cases, inl, inr,
}
use go_async_practice.Common.Dict.{lookup, insert, lookup-insert}
use go_async_practice.Common.Table.{put, find-put}
use go_async_practice.Messages.Bus.{Message}
use go_async_practice.Messages.Consumer.{
  Offsets, Consumption, dict_or, table_or, commit_offset, last_offset, attempt,
}

pub last_offset-commit_offset :
    (g h t u : String) (p q offset : ℕ) (offsets : Offsets)
    → last_offset h u q (commit_offset g t p offset offsets)
      ≡ (if str_eq g h && (str_eq t u && (p == q)) then offset else last_offset h u q offsets)
unfolding last_offset commit_offset
last_offset-commit_offset g h t u p q offset offsets = ground (
  arith,
  eq_iff g h,
  eq_iff t u,
  lookup-insert g h
      (insert t (put p offset (table_or (lookup t (dict_or (lookup g offsets)))))
        (dict_or (lookup g offsets)))
      offsets,
  lookup-insert t u (put p offset (table_or (lookup t (dict_or (lookup g offsets)))))
      (dict_or (lookup g offsets)),
  find-put p q offset (table_or (lookup t (dict_or (lookup g offsets)))),
)

module _ {B : Type 0} where
  -- Whether a message of this place is among some.
  abbrev pub has : String → ℕ → ℕ → List (Message B) → Bool
  has t p n [] = false
  has t p n (m ∷ ms) = (str_eq m.topic t && ((m.partition == p) && (m.offset == n))) || has t p n ms

  -- The message was handled, or it is among the dead letters.
  abbrev pub dealt_with : String → ℕ → ℕ → Consumption B → Bool
  dealt_with t p n c = has t p n c.handled || has t p n c.dead_letters

  has-append :
      (t : String) (p n : ℕ) (ms ns : List (Message B))
      → has t p n (ms ++ ns) ≡ (has t p n ms || has t p n ns)
  has-append t p n [] ns = refl
  has-append t p n (m ∷ ms) ns = ground (arith, has-append t p n ms ns)

  -- What an attempt at a message leaves: it is dealt with, and so is all that was before, and of all
  -- offsets only that of its own group and partition may be written, to the number behind it.
  pub record Attempted (g t : String) (p : ℕ) (msg : Message B) (c d : Consumption B) : Type 0 where
    pub own : dealt_with msg.topic msg.partition msg.offset d ≡ true
    pub handled_kept :
        (u : String) (q n : ℕ) → has u q n c.handled ≡ true → has u q n d.handled ≡ true
    pub letters_kept :
        (u : String) (q n : ℕ) → has u q n c.dead_letters ≡ true → has u q n d.dead_letters ≡ true
    pub committed :
        (h u : String) (q : ℕ)
        → (last_offset h u q d.offsets ≡ last_offset h u q c.offsets)
          ⊎ ((h ≡ g) × (u ≡ t) × (q ≡ p) × (last_offset h u q d.offsets ≡ msg.offset + 1))

  module _ (succeeds : Message B → ℕ → Bool) (g t : String) (p : ℕ) where
    pub attempt-Attempted :
        (left retry : ℕ) (msg : Message B) (c : Consumption B)
        → Attempted g t p msg c (attempt succeeds g t p left retry msg c)
    unfolding attempt
    attempt-Attempted zero retry msg c = record {
      own = ground (
        arith,
        has-append msg.topic msg.partition msg.offset c.dead_letters (msg ∷ []),
        eq_refl msg.topic,
      );
      handled_kept = λ u q n h. h;
      letters_kept = λ u q n h. ground (arith, h, has-append u q n c.dead_letters (msg ∷ []));
      committed = λ h u q. inl refl;
    }
    attempt-Attempted (suc left) retry msg c = elim (Bool-cases (succeeds msg retry)) [
      | inl good ↦ rw good record {
        own = ground (
          arith,
          has-append msg.topic msg.partition msg.offset c.handled (msg ∷ []),
          eq_refl msg.topic,
        );
        handled_kept = λ u q n h. ground (arith, h, has-append u q n c.handled (msg ∷ []));
        letters_kept = λ u q n h. h;
        committed = λ h u q. ground (
          arith,
          eq_iff t u,
          eq_iff g h,
          last_offset-commit_offset g h t u p q (msg.offset + 1) c.offsets,
        );
      }
      | inr bad ↦ rw bad (attempt-Attempted left (retry + 1) msg c)
    ]
