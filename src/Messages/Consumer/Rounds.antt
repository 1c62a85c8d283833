-- ===== src/Messages/Consumer/Rounds.antt =====
-- What is dealt with behind the loop over the messages.
use go_async_practice.Common.{
  ◌⊎◌, ℕ, ◌+◌, ◌≤◌, ◌<◌, ◌≡◌, refl, sym, ◌∙◌, String, Bool, true, false, List, [], ◌∷◌, arith, ◌==◌,
  leb, keep, length, Bool-cases, inl, inr,
}
use go_async_practice.Messages.Bus.{Message}
use go_async_practice.Messages.Bus.Logs.{IsLog}
use go_async_practice.Messages.Consumer.{Consumption, last_offset, attempt, process_all}
use go_async_practice.Messages.Consumer.Attempts.{has, dealt_with, attempt-Attempted}

module _ {B : Type 0} where
  -- What the loop over the messages of a log from number `n` on leaves.
  pub record Processed (g t : String) (p n : ℕ) (ms : List (Message B)) (c d : Consumption B)
      : Type 0 where
    pub reached :
        ((j : ℕ) → j < n → dealt_with t p j c ≡ true)
        → (j : ℕ) → j < n + length ms
        → dealt_with t p j d ≡ true
    pub handled_kept :
        (u : String) (q j : ℕ) → has u q j c.handled ≡ true → has u q j d.handled ≡ true
    pub letters_kept :
        (u : String) (q j : ℕ) → has u q j c.dead_letters ≡ true → has u q j d.dead_letters ≡ true
    pub committed :
        (h u : String) (q : ℕ)
        → (last_offset h u q d.offsets ≡ last_offset h u q c.offsets)
          ⊎ ((h ≡ g) × (u ≡ t) × (q ≡ p) × (last_offset h u q d.offsets ≤ n + length ms))

  same_message :
      (u t : String) (q p i n : ℕ) (d : Consumption B)
      → u ≡ t
      → q ≡ p
      → i ≡ n
      → dealt_with u q i d ≡ true
      → dealt_with t p n d ≡ true
  same_message u t q p i n d e e' e'' h = rw (sym e, sym e', sym e'') h

  -- What was dealt with stays so.
  pub dealt_with-kept :
      (u : String) (q j : ℕ) (c d : Consumption B)
      → (has u q j c.handled ≡ true → has u q j d.handled ≡ true)
      → (has u q j c.dead_letters ≡ true → has u q j d.dead_letters ≡ true)
      → dealt_with u q j c ≡ true
      → dealt_with u q j d ≡ true
  dealt_with-kept u q j c d handled letters e = elim (Bool-cases (has u q j c.handled)) [
    | inl h ↦ rw (handled h) refl
    | inr h ↦ ground (arith, e, h, letters)
  ]

  module _ (succeeds : Message B → ℕ → Bool) (g t : String) (p : ℕ) where
    pub process_all-Processed :
        (n : ℕ) (ms : List (Message B)) (c : Consumption B)
        → IsLog t p n ms
        → Processed g t p n ms c (process_all succeeds g t p ms c)
    unfolding process_all
    process_all-Processed n [] c log = record {
      reached = λ before j lt. before j (omega (arith, lt));
      handled_kept = λ u q j h. h;
      letters_kept = λ u q j h. h;
      committed = λ h u q. inl refl;
    }
    process_all-Processed n (m ∷ ms) c ((topic, place, number), log) =
        let d = attempt succeeds g t p 3 0 m c in
        let a = attempt-Attempted succeeds g t p 3 0 m c in
        let rest = process_all-Processed (n + 1) ms d log in
        let own : dealt_with t p n d ≡ true =
          same_message m.topic t m.partition p m.offset n d topic place number a.own in
        record {
          reached = λ before j lt.
              rest.reached
                (λ i le. elim (Bool-cases (i == n)) [
                  | inl here ↦ let same : i ≡ n = ground (arith, here) in rw same own
                  | inr lower ↦
                      let le' : i < n = ground (arith, le, lower) in
                      dealt_with-kept t p i c d (a.handled_kept t p i) (a.letters_kept t p i)
                        (before i le')
                ])
                j (omega (arith, lt));
          handled_kept = λ u q j h. rest.handled_kept u q j (a.handled_kept u q j h);
          letters_kept = λ u q j h. rest.letters_kept u q j (a.letters_kept u q j h);
          committed = λ h u q. elim (rest.committed h u q) [
            | inr (e, e', e'', le) ↦ inr (e, e', e'', omega (arith, le))
            | inl same ↦ elim (a.committed h u q) [
              | inl same' ↦ inl (same ∙ same')
              | inr (e, e', e'', new) ↦ inr (e, e', e'', omega (arith, same, new, number))
            ]
          ];
        }

  keep_all :
      (t : String) (p last n : ℕ) (ms : List (Message B))
      → IsLog t p n ms
      → last ≤ n
      → keep (λ m. leb last m.offset) ms ≡ ms
  keep_all t p last n [] log le = refl
  keep_all t p last n (m ∷ ms) ((_, _, number), log) le =
      ground (arith, number, keep_all t p last (n + 1) ms log (omega (arith, le)))

  -- The messages from an offset on are a log that reaches as far.
  pub keep-IsLog :
      (t : String) (p last n : ℕ) (ms : List (Message B))
      → IsLog t p n ms
      → n ≤ last
      → let unread = keep (λ m. leb last m.offset) ms in
        IsLog t p last unread × (n + length ms ≤ last + length unread)
  keep-IsLog t p last n [] log le = (tt, omega (arith, le))
  keep-IsLog t p last n (m ∷ ms) ((topic, place, number), log) le = elim (Bool-cases (n == last)) [
    | inl here ↦
        let at : n ≡ last = ground (arith, here) in
        let all : keep (λ x. leb last x.offset) (m ∷ ms) ≡ m ∷ ms =
          keep_all t p last n (m ∷ ms) ((topic, place, number), log) (omega (arith, at)) in
        rw (all, sym at) (((topic, place, number), log), omega arith)
    | inr later ↦
        let lt : n < last = ground (arith, later, le) in
        let (log', size) = keep-IsLog t p last (n + 1) ms log (omega (arith, lt)) in
        let skip : leb last m.offset ≡ false = ground (arith, number, lt) in
        rw skip (log', omega (arith, size))
  ]
