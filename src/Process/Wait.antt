-- ===== src/Process/Wait.antt =====
-- What a wait of process/process.c reports, and what it leaves.
use mathlib.Core.Bool.{false≢true}
use Prim.Native.Nat.{bit_and}
use some_os.Prelude.{
  ℕ, ◌+◌, ◌<◌, ◌≡◌, refl, ap, true, false, List, [], ◌∷◌, ◌++◌, All, add64, ℤ, ◌==◌, ◌≢◌, ◌∙◌, ◌⊎◌,
  sym, pos, negsuc, zero, suc, ◌/◌, if◌then◌else◌, Bool-cases, ==_iff, inl, inr, arith,
}
use some_os.Signals.{clear_pending_child_signals}
use some_os.Process.{
  Child, Parent, status_stop, status_cont, wnohang, is_set, is_wanted, is_reportable, Walk, reports,
  finds, past, walk_children, WaitAnswer, answer, eagain, eintr, echild, answered,
  basic_process_wait,
}

-- What the argument asks for: -1 for any child, 0 for the children of the parent's group, another
-- number below 0 for every child if it is the parent's own group and for none otherwise, and a number
-- above 0 for the child with that pid.
abbrev pub Asks : ℤ → ℕ → Child → Type 0
Asks pid own child =
    (pid ≡ negsuc 0)
    ⊎ ((pid ≡ pos 0) × (child.pgid ≡ own))
    ⊎ ((group : ℕ) × (pid ≡ negsuc (suc group)) × (own ≡ group + 2))
    ⊎ ((pid ≡ pos child.pid) × (0 < child.pid))

-- What there is to report of a child: that it is done, or, with the flag for it, that it is stopped or
-- that it goes on.
abbrev pub Reports : ℕ → Child → Type 0
Reports flags child =
    (child.is_done ≡ true)
    ⊎ ((bit_and flags 2 ≢ 0) × (child.status / 256 ≡ status_stop))
    ⊎ ((bit_and flags 4 ≢ 0) × (child.status / 256 ≡ status_cont))

abbrev pub IsReady : ℤ → ℕ → ℕ → Child → Type 0
IsReady pid own flags child = Asks pid own child × Reports flags child

abbrev pub NoneReady : ℤ → ℕ → ℕ → List Child → Type 0
NoneReady pid own flags cs = All (λ c. ¬ IsReady pid own flags c) cs

wanted-Asks : (pid : ℤ) (own : ℕ) (c : Child) → is_wanted pid own c ≡ true → Asks pid own c
wanted-Asks (negsuc zero) own c e = inl refl
wanted-Asks (negsuc (suc n)) own c e =
    inr (inr (inl (n, refl, omega (arith, (==_iff own (suc (suc n))).0 e))))
wanted-Asks (pos zero) own c e = inr (inl (refl, sym ((==_iff own c.pgid).0 e)))
wanted-Asks (pos (suc n)) own c e =
    let same : c.pid ≡ suc n = (==_iff c.pid (suc n)).0 e in
    inr (inr (inr (ap pos (sym same), omega (arith, same))))

Asks-wanted : (pid : ℤ) (own : ℕ) (c : Child) → Asks pid own c → is_wanted pid own c ≡ true
Asks-wanted pid own c (inl e) = rw e refl
Asks-wanted pid own c (inr (inl (e, same))) = rw e (ground (arith, same))
Asks-wanted pid own c (inr (inr (inl (n, e, same)))) = rw e (ground (arith, same))
Asks-wanted pid own c (inr (inr (inr (e, above)))) = rw e (of_pid c.pid above)
  where
    of_pid : (n : ℕ) → 0 < n → is_wanted (pos n) own (record c { pid = n }) ≡ true
    of_pid zero h = absurd (omega (arith, h))
    of_pid (suc n) h = ground arith

reportable-Reports : (flags : ℕ) (c : Child) → is_reportable flags c ≡ true → Reports flags c
unfolding is_reportable
reportable-Reports flags c e = ground (arith, e)

Reports-reportable : (flags : ℕ) (c : Child) → Reports flags c → is_reportable flags c ≡ true
unfolding is_reportable
Reports-reportable flags c h = ground (arith, h)

abbrev pub NoneAsked : ℤ → ℕ → List Child → Type 0
NoneAsked pid own cs = All (λ c. ¬ Asks pid own c) cs

abbrev count_wanted : ℤ → ℕ → List Child → ℕ
count_wanted pid own [] = 0
count_wanted pid own (c ∷ cs) = (if is_wanted pid own c then 1 else 0) + count_wanted pid own cs

count_wanted-none :
    (pid : ℤ) (own : ℕ) (cs : List Child) → count_wanted pid own cs ≡ 0 → NoneAsked pid own cs
count_wanted-none pid own [] e = tt
count_wanted-none pid own (c ∷ cs) e = (
  λ asks. let h = Asks-wanted pid own c asks in ground (arith, h, e),
  count_wanted-none pid own cs (omega (arith, e)),
)

count_wanted-some :
    (pid : ℤ) (own : ℕ) (cs : List Child) → 0 < count_wanted pid own cs → ¬ NoneAsked pid own cs
count_wanted-some pid own [] h none = omega (arith, h)
count_wanted-some pid own (c ∷ cs) h none = elim (Bool-cases (is_wanted pid own c)) [
  | inl wanted ↦ none.0 (wanted-Asks pid own c wanted)
  | inr skipped ↦ count_wanted-some pid own cs (omega (arith, rw skipped at h)) none.1
]

-- The two ways in which a child is not ready.
unwanted-unready :
    (pid : ℤ) (own flags : ℕ) (c : Child) → is_wanted pid own c ≡ false → ¬ IsReady pid own flags c
unwanted-unready pid own flags c e h = false≢true (sym e ∙ Asks-wanted pid own c h.0)

unreported-unready :
    (pid : ℤ) (own flags : ℕ) (c : Child)
    → is_reportable flags c ≡ false
    → ¬ IsReady pid own flags c
unreported-unready pid own flags c e h = false≢true (sym e ∙ Reports-reportable flags c h.1)

-- The first child that is ready, between those before and behind it.
pub record IsFirst (pid : ℤ) (own flags : ℕ) (cs : List Child) (child : Child) (left : List Child)
    : Type 0 where
  pub before : List Child
  pub after : List Child
  pub splits : cs ≡ before ++ (child ∷ after)
  pub none_before : NoneReady pid own flags before
  pub ready : IsReady pid own flags child
  pub keeps :
      left ≡ before ++ (if child.is_done then after else record child { status = 0 } ∷ after)

IsWalked : ℤ → ℕ → ℕ → ℕ → List Child → Walk → Type 0
IsWalked pid own flags found cs (reports child left) = IsFirst pid own flags cs child left
IsWalked pid own flags found cs (finds n) =
    NoneReady pid own flags cs × (n ≡ found + count_wanted pid own cs)

past-IsWalked :
    (pid : ℤ) (own flags found n : ℕ) (c : Child) (cs : List Child) (w : Walk)
    → ¬ IsReady pid own flags c
    → found + (if is_wanted pid own c then 1 else 0) ≡ n
    → IsWalked pid own flags n cs w
    → IsWalked pid own flags found (c ∷ cs) (past c w)
unfolding IsWalked
past-IsWalked pid own flags found n c cs (reports child left) unready e h = record {
  before = c ∷ h.before;
  after = h.after;
  splits = ap (λ l. c ∷ l) h.splits;
  none_before = (unready, h.none_before);
  ready = h.ready;
  keeps = ap (λ l. c ∷ l) h.keeps;
}
past-IsWalked pid own flags found n c cs (finds m) unready e h =
    ((unready, h.0), omega (arith, e, h.1))

walk-IsWalked :
    (pid : ℤ) (own flags found : ℕ) (cs : List Child)
    → IsWalked pid own flags found cs (walk_children pid own flags found cs)
unfolding walk_children IsWalked
walk-IsWalked pid own flags found [] = (tt, omega arith)
walk-IsWalked pid own flags found (c ∷ cs) = elim (Bool-cases (is_wanted pid own c)) [
  | inl wanted ↦ elim (Bool-cases (is_reportable flags c)) [
    | inl e ↦
        rw (wanted, e)
          (record {
            before = [];
            after = cs;
            splits = refl;
            none_before = tt;
            ready = (wanted-Asks pid own c wanted, reportable-Reports flags c e);
            keeps = refl;
          })
    | inr e ↦
        rw (wanted, e)
          (past-IsWalked pid own flags found (found + 1) c cs
            (walk_children pid own flags (found + 1) cs) (unreported-unready pid own flags c e)
            (rw wanted refl) (walk-IsWalked pid own flags (found + 1) cs))
  ]
  | inr skipped ↦ rw skipped (
      past-IsWalked pid own flags found found c cs (walk_children pid own flags found cs)
        (unwanted-unready pid own flags c skipped) (rw skipped (omega arith))
        (walk-IsWalked pid own flags found cs))
]

-- What a wait may come to: each answer, with what it says of the children and what is left.
unfoldable pub IsAnswered : ℤ → ℕ → Parent → WaitAnswer × Parent → Type 0
IsAnswered pid flags p (answer n status, p') =
    (child : Child) × IsFirst pid p.pgid flags p.children child p'.children
    × (n ≡ child.pid)
    × (status ≡ child.status)
    × (p'.signals ≡ clear_pending_child_signals child.pid p.signals)
    × (p'.user_child_time ≡ add64 p.user_child_time (add64 child.user_time child.user_child_time))
    × (p'.system_child_time
        ≡ add64 p.system_child_time (add64 child.system_time child.system_child_time))
IsAnswered pid flags p (echild, p') = NoneAsked pid p.pgid p.children × (p' ≡ p)
IsAnswered pid flags p (eagain, p') =
    NoneReady pid p.pgid flags p.children
    × ¬ NoneAsked pid p.pgid p.children
    × (is_set flags wnohang ≡ true)
    × (p' ≡ p)
IsAnswered pid flags p (eintr, p') =
    NoneReady pid p.pgid flags p.children
    × ¬ NoneAsked pid p.pgid p.children
    × (is_set flags wnohang ≡ false)
    × (p' ≡ p)

answered-IsAnswered :
    (pid : ℤ) (flags : ℕ) (p : Parent) (w : Walk)
    → IsWalked pid p.pgid flags 0 p.children w
    → IsAnswered pid flags p (answered flags p w)
unfolding answered IsWalked IsAnswered
answered-IsAnswered pid flags p (reports child left) h = (child, h, refl, refl, refl, refl, refl)
answered-IsAnswered pid flags p (finds n) h = elim (Bool-cases (n == 0)) [
  | inl e ↦
      rw (e, answered)
        (count_wanted-none pid p.pgid p.children (omega (arith, (==_iff n 0).0 e, h.1)), refl)
  | inr e ↦
      let some_wanted = count_wanted-some pid p.pgid p.children (ground (arith, e, h.1)) in
      elim (Bool-cases (is_set flags wnohang)) [
        | inl f ↦ rw (e, f, answered) (h.0, some_wanted, f, refl)
        | inr f ↦ rw (e, f, answered) (h.0, some_wanted, f, refl)
      ]
]

-- A wait returns the pid and the status of the first child that its argument asks for and that has
-- something to report: it is done, or it is stopped or goes on and the flags ask for that. The argument
-- -1 asks for every child, 0 for those of the parent's group, a number above 0 for the child with that
-- pid; any other number below 0 asks for every child if it is minus the parent's own group, and else for
-- none. The wait takes a child that is done out of the list, and resets the status of another; all
-- other children stay. It drops the signals of the child and adds up its times. When there is no such
-- child nothing changes, and the error is ECHILD if no child is asked for, else EAGAIN with WNOHANG and
-- EINTR without.
pub wait-IsAnswered :
    (pid : ℤ) (flags : ℕ) (p : Parent) → IsAnswered pid flags p (basic_process_wait pid flags p)
unfolding basic_process_wait
wait-IsAnswered pid flags p =
    answered-IsAnswered pid flags p (walk_children pid p.pgid flags 0 p.children)
      (walk-IsWalked pid p.pgid flags 0 p.children)
