-- ===== src/Signals/Restore.antt =====
-- A handler's return restores what was interrupted.
use some_os.Prelude.{
  ℕ, ◌+◌, ◌-◌, ◌*◌, ◌/◌, ◌%◌, ◌≤◌, ◌<◌, ◌≡◌, ◌≢◌, refl, ap, ◌∙◌, true, false, ltb, leb, ◌==◌, add64,
  sub64, add64-eq, sub64-eq, arith, word,
}
use some_os.Signals.{sig_none}
use some_os.Signals.Handler.{
  Task, store_word, store_words, load_words, push_frame, enter_handler, return_from_signal,
}

store_words-at : (a n i : ℕ) (v m : ℕ → ℕ) → i < n → store_words a n v m (a + 8 * i) ≡ v i
unfolding store_words
store_words-at a n i v m h =
    let inside : leb a (a + 8 * i) ≡ true = ground arith in
    let before : ltb (a + 8 * i) (a + 8 * n) ≡ true = ground arith in
    let aligned : ((a + 8 * i - a) % 8 == 0) ≡ true = ground arith in
    let index : (a + 8 * i - a) / 8 ≡ i = omega arith in rw (inside, before, aligned, index) refl

store_words-above : (a n b : ℕ) (v m : ℕ → ℕ) → a + 8 * n ≤ b → store_words a n v m b ≡ m b
unfolding store_words
store_words-above a n b v m h =
    let outside : ltb b (a + 8 * n) ≡ false = ground arith in rw outside (ground arith)

store_word-at : (a v : ℕ) (m : ℕ → ℕ) → store_word a v m a ≡ v
unfolding store_word
store_word-at a v m = ground arith

store_word-other : (a v b : ℕ) (m : ℕ → ℕ) → b ≢ a → store_word a v m b ≡ m b
unfolding store_word
store_word-other a v b m h = ground arith

-- The saved objects from `b` on.
abbrev saved : ℕ → Task → (ℕ → ℕ) → ℕ → ℕ
saved b t below =
    let s = t.process_signals in
    store_words b 31 t.frame.regs (
      store_words (b + 248) 32 t.frame.fregs (
        store_word (b + 504) t.frame.pc (
          store_word (b + 512) s.current_signal
            (store_word (b + 516) s.restore_frame (store_word (b + 524) s.mask below)))))

-- What is found in the saved objects.
abbrev IsSaved : ℕ → Task → (ℕ → ℕ) → Type 0
IsSaved b t m =
    ((i : ℕ) → i < 31 → m (b + 8 * i) ≡ t.frame.regs i)
    × ((i : ℕ) → i < 32 → m (b + 248 + 8 * i) ≡ t.frame.fregs i)
    × (m (b + 504) ≡ t.frame.pc)
    × (m (b + 512) ≡ t.process_signals.current_signal)
    × (m (b + 516) ≡ t.process_signals.restore_frame)
    × (m (b + 524) ≡ t.process_signals.mask)

module _ (b : ℕ) (t : Task) (below : ℕ → ℕ) where
  -- Behind the two register files.
  saved-behind :
      (a : ℕ)
      → b + 504 ≤ a
      → saved b t below a
        ≡ store_word
            (b + 504)
            t.frame.pc
            (store_word (b + 512) t.process_signals.current_signal (
              store_word
                (b + 516)
                t.process_signals.restore_frame
                (store_word (b + 524) t.process_signals.mask below)))
            a
  saved-behind a h =
      store_words-above b 31 a _ _ (omega arith)
      ∙ store_words-above (b + 248) 32 a _ _ (omega arith)

  saved-IsSaved : IsSaved b t (saved b t below)
  unfolding store_word
  saved-IsSaved = (
    λ i h. store_words-at b 31 i _ _ h,
    λ i h.
        store_words-above b 31 (b + 248 + 8 * i) _ _ (omega arith)
        ∙ store_words-at (b + 248) 32 i _ _ h,
    saved-behind (b + 504) (omega arith) ∙ ground arith,
    saved-behind (b + 512) (omega arith) ∙ ground arith,
    saved-behind (b + 516) (omega arith) ∙ ground arith,
    saved-behind (b + 524) (omega arith) ∙ ground arith,
  )

-- The `SigInfo` above them.
abbrev with_info : ℕ → Task → ℕ → ℕ → ℕ
with_info signal t a =
    store_word a signal (store_word (add64 a 4) 0 (store_word (add64 a 8) 0 t.memory))

-- The return, with the addresses written out.
return_from_signal-eq :
    (q : Task) (b : ℕ)
    → q.process_signals.current_signal ≢ sig_none
    → q.process_signals.restore_frame ≡ b
    → b + 532 < word
    → return_from_signal q ≡ record q {
      frame = record {
        regs = load_words b q.memory;
        fregs = load_words (b + 248) q.memory;
        pc = q.memory (b + 504);
      };
      process_signals = record q.process_signals {
        current_signal = q.memory (b + 512);
        restore_frame = q.memory (b + 516);
        mask = q.memory (b + 524);
      };
    }
unfolding return_from_signal
return_from_signal-eq q b current at fits =
    let open_signal : (q.process_signals.current_signal == sig_none) ≡ false = ground arith in
    let e2 : add64 b 248 ≡ b + 248 = add64-eq b 248 (omega arith) in
    let e3 : add64 (b + 248) 256 ≡ b + 504 = add64-eq (b + 248) 256 (omega arith) ∙ omega arith in
    let e4 : add64 (b + 504) 8 ≡ b + 512 = add64-eq (b + 504) 8 (omega arith) ∙ omega arith in
    let e5 : add64 (b + 512) 4 ≡ b + 516 = add64-eq (b + 512) 4 (omega arith) ∙ omega arith in
    let e6 : add64 (b + 516) 8 ≡ b + 524 = add64-eq (b + 516) 8 (omega arith) ∙ omega arith in
    rw (open_signal, at, e2, e3, e4, e5, e6) refl

module _ (signal : ℕ) (t : Task) (room : 548 ≤ t.frame.regs 1) (fits : t.frame.regs 1 < word) where
  -- `pushToVirtPtrStack` from the stack pointer on does not wrap.
  push_frame-saved : push_frame signal t ≡ (
    t.frame.regs 1 - 548,
    saved (t.frame.regs 1 - 548) t (with_info signal t (t.frame.regs 1 - 16)),
  )
  unfolding push_frame
  push_frame-saved =
      let sp = t.frame.regs 1 in
      let e1 : sub64 sp 16 ≡ sp - 16 = sub64-eq sp 16 (omega arith) fits in
      let e2 : sub64 (sp - 16) 8 ≡ sp - 548 + 524 =
        sub64-eq (sp - 16) 8 (omega arith) (omega arith) ∙ omega arith in
      let e3 : sub64 (sp - 548 + 524) 8 ≡ sp - 548 + 516 =
        sub64-eq (sp - 548 + 524) 8 (omega arith) (omega arith) ∙ omega arith in
      let e4 : sub64 (sp - 548 + 516) 4 ≡ sp - 548 + 512 =
        sub64-eq (sp - 548 + 516) 4 (omega arith) (omega arith) ∙ omega arith in
      let e5 : sub64 (sp - 548 + 512) 8 ≡ sp - 548 + 504 =
        sub64-eq (sp - 548 + 512) 8 (omega arith) (omega arith) ∙ omega arith in
      let e6 : sub64 (sp - 548 + 504) 256 ≡ sp - 548 + 248 =
        sub64-eq (sp - 548 + 504) 256 (omega arith) (omega arith) ∙ omega arith in
      let e7 : sub64 (sp - 548 + 248) 248 ≡ sp - 548 =
        sub64-eq (sp - 548 + 248) 248 (omega arith) (omega arith) ∙ omega arith in
      rw (e1, e2, e3, e4, e5, e6, e7) refl

  -- If a handler is entered with room for the frame of 548 bytes on the stack, then whatever happens
  -- until the return, as long as it leaves the saved objects in memory and the restore frame alone
  -- and some signal is current, returnFromSignal brings back the registers, the program counter, the
  -- signal mask, the current signal and the restore frame of before.
  pub return-enter :
      (q : Task)
      → ((a : ℕ)
          → t.frame.regs 1 - 548 ≤ a
          → a < t.frame.regs 1 - 16
          → q.memory a ≡ (enter_handler signal t).memory a)
      → q.process_signals.restore_frame ≡ (enter_handler signal t).process_signals.restore_frame
      → q.process_signals.current_signal ≢ sig_none
      → let r = return_from_signal q in
        ((i : ℕ) → i < 31 → r.frame.regs i ≡ t.frame.regs i)
        × ((i : ℕ) → i < 32 → r.frame.fregs i ≡ t.frame.fregs i)
        × (r.frame.pc ≡ t.frame.pc)
        × (r.process_signals.mask ≡ t.process_signals.mask)
        × (r.process_signals.current_signal ≡ t.process_signals.current_signal)
        × (r.process_signals.restore_frame ≡ t.process_signals.restore_frame)
  unfolding enter_handler
  return-enter q kept frame current =
      let sp = t.frame.regs 1 in
      let b = sp - 548 in
      let below = with_info signal t (sp - 16) in
      let (regs, fregs, pc, current_signal, restore_frame, mask) = saved-IsSaved b t below in
      let at : q.process_signals.restore_frame ≡ b = frame ∙ ap (λ x. x.0) push_frame-saved in
      let found : (a : ℕ) → b ≤ a → a < sp - 16 → q.memory a ≡ saved b t below a =
        λ a h k. kept a h k ∙ ap (λ x. x.1 a) push_frame-saved in
      rw (return_from_signal-eq q b current at (omega arith)) (
        λ i h. found (b + 8 * i) (omega arith) (omega arith) ∙ regs i h,
        λ i h. found (b + 248 + 8 * i) (omega arith) (omega arith) ∙ fregs i h,
        found (b + 504) (omega arith) (omega arith) ∙ pc,
        found (b + 524) (omega arith) (omega arith) ∙ mask,
        found (b + 512) (omega arith) (omega arith) ∙ current_signal,
        found (b + 516) (omega arith) (omega arith) ∙ restore_frame,
      )
