-- ===== src/Signals/Pending.antt =====
-- The list of pending signals of process/signals.c.
use mathlib.Core.Path.{subst}
use some_os.Prelude.{
  ℕ, ◌<◌, ◌≡◌, ◌≢◌, refl, sym, ap, ◌∙◌, Bool, true, false, Option, none, some, List, [], ◌∷◌, ◌++◌,
  arith, ◌==◌, ltb, ◌||◌,
}
use some_os.Signals.{
  PendingSignal, ProcessSignals, append_behind, append_signal, add_signal_to_process,
  is_child_signal, remove_child_signals, clear_pending_child_signals, should_ignore_signal,
}

-- The address of the last entry, with that of the entry before the list.
unfoldable pub last_address : Option ℕ → List PendingSignal → Option ℕ
last_address before [] = before
last_address before (p ∷ ps) = last_address (some p.address) ps

unfoldable pub has_address : ℕ → List PendingSignal → Bool
has_address a [] = false
has_address a (p ∷ ps) = p.address == a || has_address a ps

unfoldable pub AreDistinct : List PendingSignal → Type 0
unfolding has_address
AreDistinct [] = Unit
AreDistinct (p ∷ ps) = (has_address p.address ps ≡ false) × AreDistinct ps

-- The entries lie at addresses of their own, and the tail points to the last one.
pub record IsQueue (s : ProcessSignals) : Type 0 where
  pub distinct : AreDistinct s.signals
  pub tail : s.signals_tail ≡ last_address none s.signals

pub has_address-last :
    (p : PendingSignal) (ps : List PendingSignal) (before : Option ℕ) (tail : ℕ)
    → last_address before (p ∷ ps) ≡ some tail
    → has_address tail (p ∷ ps) ≡ true
unfolding has_address last_address
has_address-last p [] before tail h = ground arith
has_address-last p (q ∷ qs) before tail h =
    ground (arith, has_address-last q qs (some p.address) tail h)

append_behind-last :
    (before : Option ℕ) (p : PendingSignal) (ps : List PendingSignal) (entry : PendingSignal)
    (tail : ℕ)
    → AreDistinct (p ∷ ps)
    → last_address before (p ∷ ps) ≡ some tail
    → append_behind tail entry (p ∷ ps) ≡ some ((p ∷ ps) ++ (entry ∷ []))
unfolding append_behind last_address AreDistinct has_address
append_behind-last before p [] entry tail d h = ground arith
append_behind-last before p (q ∷ qs) entry tail d h =
    let different : (p.address == tail) ≡ false =
      ground (arith, has_address-last q qs (some p.address) tail h, d.0) in
    rw (different, append_behind-last (some p.address) q qs entry tail d.1 h) refl

last_address-append :
    (before : Option ℕ) (ps : List PendingSignal) (entry : PendingSignal)
    → last_address before (ps ++ (entry ∷ [])) ≡ some entry.address
unfolding last_address
last_address-append before [] entry = refl
last_address-append before (p ∷ ps) entry = last_address-append (some p.address) ps entry

has_address-append :
    (a : ℕ) (ps : List PendingSignal) (entry : PendingSignal)
    → has_address a ps ≡ false
    → entry.address ≢ a
    → has_address a (ps ++ (entry ∷ [])) ≡ false
unfolding has_address
has_address-append a [] entry h n = ground arith
has_address-append a (p ∷ ps) entry h n = ground (arith, has_address-append a ps entry)

AreDistinct-append :
    (ps : List PendingSignal) (entry : PendingSignal)
    → AreDistinct ps
    → has_address entry.address ps ≡ false
    → AreDistinct (ps ++ (entry ∷ []))
unfolding AreDistinct has_address
AreDistinct-append [] entry d h = (refl, tt)
AreDistinct-append (p ∷ ps) entry d h = (
  has_address-append p.address ps entry d.0 (ground arith),
  AreDistinct-append ps entry d.1 (ground arith),
)

pub last_address-some :
    (before : Option ℕ) (p : PendingSignal) (ps : List PendingSignal)
    → (a : ℕ) × (last_address before (p ∷ ps) ≡ some a)
unfolding last_address
last_address-some before p [] = (p.address, refl)
last_address-some before p (q ∷ qs) = last_address-some (some p.address) q qs

-- The list with a new entry behind it, in order.
abbrev pub IsAppended : PendingSignal → ProcessSignals → Option ProcessSignals → Type 0
IsAppended entry s r =
    (s' : ProcessSignals) × (r ≡ some s') × (s'.signals ≡ s.signals ++ (entry ∷ [])) × IsQueue s'

append_signal-IsAppended :
    (entry : PendingSignal) (ps : List PendingSignal) (s : ProcessSignals)
    → s.signals ≡ ps
    → IsQueue s
    → has_address entry.address s.signals ≡ false
    → IsAppended entry s (append_signal entry s)
unfolding append_signal last_address AreDistinct has_address
append_signal-IsAppended entry [] s e v fresh =
    let no_tail : s.signals_tail ≡ none = v.tail ∙ ap (last_address none) e in
    rw no_tail (
      record s { signals = entry ∷ []; signals_tail = some entry.address },
      refl,
      rw e refl,
      record { distinct = (refl, tt); tail = refl },
    )
append_signal-IsAppended entry (p ∷ ps) s e v fresh =
    let (t, last) = last_address-some none p ps in
    let at : s.signals_tail ≡ some t = v.tail ∙ ap (last_address none) e ∙ last in
    let linked : append_behind t entry s.signals ≡ some (s.signals ++ (entry ∷ [])) =
      rw e (append_behind-last none p ps entry t (rw e at v.distinct) last) in
    (
      record s { signals = s.signals ++ (entry ∷ []); signals_tail = some entry.address },
      ground (arith, at, linked),
      refl,
      record {
        distinct = AreDistinct-append s.signals entry v.distinct fresh;
        tail = sym (last_address-append none s.signals entry);
      },
    )

-- When the tail of the pending signals is right (IsQueue), the entry for the signal lies at a new
-- address, and the signal is from 1 to 31 and not ignored by the process, then addSignalToProcess puts it
-- behind the pending ones, and the tail is right afterwards.
pub add_signal-IsAppended :
    (fresh signal child_pid : ℕ) (s : ProcessSignals)
    → IsQueue s
    → has_address fresh s.signals ≡ false
    → 0 < signal
    → signal < 32
    → should_ignore_signal s signal ≡ false
    → IsAppended
        (record { address = fresh; signal = signal; child_pid = child_pid })
        s
        (add_signal_to_process fresh signal child_pid s).1
unfolding add_signal_to_process
add_signal-IsAppended fresh signal child_pid s v new positive small heard =
    let some_signal : ltb 0 signal ≡ true = ground arith in
    let known : ltb signal 32 ≡ true = ground arith in
    rw (some_signal, known, heard)
      (append_signal-IsAppended (record { address = fresh; signal = signal; child_pid = child_pid })
        s.signals s refl v new)

append_behind-none :
    (tail : ℕ) (entry : PendingSignal) (ps : List PendingSignal)
    → has_address tail ps ≡ false
    → append_behind tail entry ps ≡ none
unfolding append_behind has_address
append_behind-none tail entry [] h = refl
append_behind-none tail entry (p ∷ ps) h = ground (arith, append_behind-none tail entry ps)

has_address-end :
    (ps : List PendingSignal) (p : PendingSignal) → has_address p.address (ps ++ (p ∷ [])) ≡ true
unfolding has_address
has_address-end [] p = ground arith
has_address-end (q ∷ qs) p = ground (arith, has_address-end qs p)

-- A last entry that is removed leaves no entry at its address.
remove-has_address :
    (child_pid : ℕ) (ps : List PendingSignal) (p : PendingSignal)
    → AreDistinct (ps ++ (p ∷ []))
    → is_child_signal child_pid p ≡ true
    → has_address p.address (remove_child_signals child_pid (ps ++ (p ∷ []))) ≡ false
unfolding has_address remove_child_signals AreDistinct
remove-has_address child_pid [] p d h = rw h refl
remove-has_address child_pid (q ∷ qs) p d h =
    ground (arith, has_address-end qs p, d.0, remove-has_address child_pid qs p d.1 h)

-- When the last pending signal is a SIGCHLD of the given child and some other signal stays pending,
-- clearPendingChildSignals leaves the tail on the entry that it has freed: the next signal that is
-- put behind it is written through that tail and is not in the list.
clear_child-dangles :
    (child_pid : ℕ) (s : ProcessSignals) (ps : List PendingSignal) (p q entry : PendingSignal)
    (qs : List PendingSignal)
    → IsQueue s
    → s.signals ≡ ps ++ (p ∷ [])
    → is_child_signal child_pid p ≡ true
    → remove_child_signals child_pid s.signals ≡ q ∷ qs
    → append_signal entry (clear_pending_child_signals child_pid s) ≡ none
unfolding append_signal clear_pending_child_signals
clear_child-dangles child_pid s ps p q entry qs v e h left =
    let at : s.signals_tail ≡ some p.address =
      v.tail ∙ ap (last_address none) e ∙ last_address-append none ps p in
    let left' : remove_child_signals child_pid (ps ++ (p ∷ [])) ≡ q ∷ qs =
      ap (remove_child_signals child_pid) (sym e) ∙ left in
    let gone : has_address p.address (q ∷ qs) ≡ false =
      subst (λ xs. has_address p.address xs ≡ false) left'
        (remove-has_address child_pid ps p (subst AreDistinct e v.distinct) h) in
    ground (arith, at, left, append_behind-none p.address entry (q ∷ qs) gone)
