-- ===== src/Signals/Choice.antt =====
-- The choice of the signal to handle, `getSignalToHandle` of process/signals.c.
use some_os.Prelude.{ℕ, ◌≡◌, ◌⊎◌, true, false, Option, none, some, List, [], ◌∷◌, ◌++◌}
use some_os.Signals.{PendingSignal, is_deliverable}

-- No signal of the list can be handled.
unfoldable pub AreBlocked : ℕ → List PendingSignal → Type 0
AreBlocked mask [] = Unit
AreBlocked mask (p ∷ ps) = (is_deliverable mask p.signal ≡ false) × AreBlocked mask ps

-- The first signal that can be handled, and the list without it, or none.
abbrev pub IsTaken : ℕ → List PendingSignal → Option ℕ → List PendingSignal → Type 0
IsTaken mask ps found left =
    ((found ≡ none) × (left ≡ ps) × AreBlocked mask ps)
    ⊎ ((before : List PendingSignal) × (p : PendingSignal) × (after : List PendingSignal) × (ps
          ≡ before ++ (p ∷ after))
        × AreBlocked mask before
        × (is_deliverable mask p.signal ≡ true)
        × (found ≡ some p.signal)
        × (left ≡ before ++ after))
