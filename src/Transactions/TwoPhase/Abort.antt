-- ===== src/Transactions/TwoPhase/Abort.antt =====
-- Preparing, then aborting.
use go_async_practice.Common.{
  ℕ, zero, suc, ◌+◌, ◌≡◌, refl, ap, ◌∙◌, none, List, [], ◌∷◌, String, map, All,
}
use go_async_practice.Common.Dict.{lookup, erase-erase, erase-insert, erase_absent}
use go_async_practice.Transactions.TwoPhase.{
  Transaction, Participant, prepare_one, prepare_all, forget, at, roll_back, abort_all,
}

module _ {V : Type 0} where
  forget_twice : (t : String) (p : Participant V) → forget t (forget t p) ≡ forget t p
  forget_twice t p = rw (erase-erase t p.prepared)

  map-forget-at :
      (t : String) (i : ℕ) (ps : List (Participant V))
      → map (forget t) (at i (forget t) ps) ≡ map (forget t) ps
  map-forget-at t i [] = refl
  map-forget-at t zero (p ∷ ps) = cc (forget_twice t p)
  map-forget-at t (suc i) (p ∷ ps) = cc (map-forget-at t i ps)

  map-forget-roll_back :
      (t : String) (is : List ℕ) (ps : List (Participant V))
      → map (forget t) (roll_back t is ps) ≡ map (forget t) ps
  unfolding roll_back
  map-forget-roll_back t [] ps = refl
  map-forget-roll_back t (i ∷ is) ps =
      map-forget-roll_back t is (at i (forget t) ps) ∙ map-forget-at t i ps

  map-forget-prepare_all :
      (t : String) (tx : Transaction V) (i : ℕ) (ps : List (Participant V))
      → All (λ p. lookup t p.prepared ≡ none) ps
      → map (forget t) (prepare_all t tx i ps).0 ≡ ps
  unfolding prepare_all prepare_one
  map-forget-prepare_all t tx i [] fresh = refl
  map-forget-prepare_all t tx i (p ∷ ps) fresh =
      rw (erase-insert t tx p.prepared, erase_absent t p.prepared fresh.0)
        (ap (◌∷◌ p) (map-forget-prepare_all t tx (i + 1) ps fresh.1))

-- If no participant knows the transaction, then preparing it everywhere and aborting it leaves all
-- participants as they were, whichever of the rollbacks were recorded.
pub abort_undoes_prepare :
    {V : Type 0} (t : String) (tx : Transaction V) (recorded : List ℕ) (ps : List (Participant V))
    → All (λ p. lookup t p.prepared ≡ none) ps
    → abort_all t recorded (prepare_all t tx 0 ps).0 ≡ ps
unfolding abort_all
abort_undoes_prepare t tx recorded ps fresh =
    map-forget-roll_back t recorded (prepare_all t tx 0 ps).0
    ∙ map-forget-prepare_all t tx 0 ps fresh
