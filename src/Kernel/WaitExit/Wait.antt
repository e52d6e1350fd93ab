-- ===== src/Kernel/WaitExit/Wait.antt =====
-- `internal_wait` of disastrOS_wait.c: the scan of the children, and what follows it.
use disastr_os_semaphores.PoolAllocator.{narrow}
use disastr_os_semaphores.Base.{
  ℕ, zero, suc, ◌<◌, ◌≡◌, ◌≢◌, refl, sym, ap, ◌∙◌, Bool, true, false, not, ◌&&◌, ◌||◌, List, [],
  ◌∷◌, arith, ◌==◌, if◌then◌else◌, length, head_or, ok, ==_ne, Bool-cases, inl, inr, Outcome,
}
use disastr_os_semaphores.Base.Int.{ℤ, pos, ltb_ℤ, ◌==ℤ◌}
use disastr_os_semaphores.LinkedList.{null}
use disastr_os_semaphores.LinkedList.Chain.{Chain, IsList}
use disastr_os_semaphores.Kernel.{System}
use disastr_os_semaphores.Kernel.Constants.Error
use disastr_os_semaphores.Kernel.Cmd.{pcbs, pcb_ptrs, rounds}
use disastr_os_semaphores.Kernel.Running.{is_zombie}
use disastr_os_semaphores.Kernel.Rules.{
  load-ok, argument-ok, int_argument-ok, return_value-ok, returning,
}
use disastr_os_semaphores.Kernel.WaitExit.{wait_scan, reap, sleep_for_child, internal_wait}

-- The process that a pointer of the list of children leads to.
abbrev pub child : System → ℕ → ℕ
child s c = (s.pcb_ptrs.at c).pcb

-- Whether the scan stops there: at a zombie for pid 0, and at the process with the pid for any other.
abbrev pub stops : System → ℤ → ℕ → Bool
stops s pid c =
    (pid ==ℤ pos 0 && is_zombie (s.pcbs.at (child s c)).status)
    || (not (pid ==ℤ pos 0) && (s.pcbs.at (child s c)).pid ==ℤ pid)

-- The pointer where the scan stops, and else the last one.
abbrev pub awaited : System → ℤ → List ℕ → ℕ → ℕ
awaited s pid [] last = last
awaited s pid (c ∷ cs) last = if stops s pid c then c else awaited s pid cs c

-- Each pointer of the list leads to a process.
abbrev pub AllLead : System → List ℕ → Type 0
AllLead s [] = Unit
AllLead s (c ∷ cs) = (child s c ≢ null) × AllLead s cs

wait_scan_lem :
    (s : System) (pid : ℤ) (fuel : ℕ) (cs : List ℕ) (p last : ℕ)
    → Chain s.pcb_ptrs.links p cs null
    → AllLead s cs
    → length cs < fuel
    → wait_scan pid fuel (head_or cs null) last (child s last) s
      ≡ ok ((awaited s pid cs last, child s (awaited s pid cs last)), s)
unfolding wait_scan
wait_scan_lem s pid zero cs p last c leads f = absurd (omega arith)
wait_scan_lem s pid (suc fuel) [] p last c leads f = refl
wait_scan_lem s pid (suc fuel) (x ∷ cs) p last c leads f = elim (Bool-cases (stops s pid x)) [
  | inl e ↦ rw (==_ne x null c.0, load-ok pcb_ptrs x s c.0, load-ok pcbs _ s leads.0, e) refl
  | inr e ↦
      rw
        (
          ==_ne x null c.0,
          load-ok pcb_ptrs x s c.0,
          load-ok pcbs _ s leads.0,
          e,
          ==_ne x null c.0,
          c.1,
        )
        (wait_scan_lem s pid fuel cs x x c.2 leads.1 (omega arith))
]

first_scan :
    (s : System) (pid : ℤ) (fuel : ℕ) (x : ℕ) (cs : List ℕ) (p ptr pcb : ℕ)
    → Chain s.pcb_ptrs.links p (x ∷ cs) null
    → AllLead s (x ∷ cs)
    → length (x ∷ cs) < fuel
    → wait_scan pid fuel x ptr pcb s
      ≡ ok ((awaited s pid (x ∷ cs) ptr, child s (awaited s pid (x ∷ cs) ptr)), s)
unfolding wait_scan
first_scan s pid zero x cs p ptr pcb c leads f = absurd (omega arith)
first_scan s pid (suc fuel) x cs p ptr pcb c leads f = elim (Bool-cases (stops s pid x)) [
  | inl e ↦ rw (==_ne x null c.0, load-ok pcb_ptrs x s c.0, load-ok pcbs _ s leads.0, e) refl
  | inr e ↦
      rw
        (
          ==_ne x null c.0,
          load-ok pcb_ptrs x s c.0,
          load-ok pcbs _ s leads.0,
          e,
          ==_ne x null c.0,
          c.1,
        )
        (wait_scan_lem s pid fuel cs x x c.2 leads.1 (omega arith))
]

awaited-leads :
    (s : System) (pid : ℤ) (cs : List ℕ) (last : ℕ)
    → child s last ≢ null
    → AllLead s cs
    → child s (awaited s pid cs last) ≢ null
awaited-leads s pid [] last some_last leads = some_last
awaited-leads s pid (c ∷ cs) last some_last leads = elim (Bool-cases (stops s pid c)) [
  | inl e ↦ rw e leads.0
  | inr e ↦ rw e (awaited-leads s pid cs c leads.0 leads.1)
]

some_awaited :
    (s : System) (pid : ℤ) (x : ℕ) (cs : List ℕ)
    → AllLead s (x ∷ cs)
    → child s (awaited s pid (x ∷ cs) null) ≢ null
some_awaited s pid x cs leads = elim (Bool-cases (stops s pid x)) [
  | inl e ↦ rw e leads.0
  | inr e ↦ rw e (awaited-leads s pid cs x leads.0 leads.1)
]

never : (b : Bool) → (b && false) ≡ false
never true = refl
never false = refl

-- What `internal_wait` does with the children `cs`.
abbrev pub waited : System → (pid result : ℤ) → List ℕ → Outcome (Unit {0} × System)
waited s pid result [] = ok (tt, returning Error.wait s)
waited s pid result (x ∷ cs) =
    let ptr = awaited s pid (x ∷ cs) null in
    if is_zombie (s.pcbs.at (child s ptr)).status
    then reap ptr (child s ptr) result s
    else sleep_for_child s

-- Where a process runs, its list of children is well formed, and each pointer in it leads to a
-- process, the scan of `internal_wait` for the pid that was passed, as an `int`, ends. With no child the call returns DSOS_EWAIT. With
-- children it never returns that error, whether one of them has the pid or not: it takes the first
-- child where the scan stops, or where it stops at none the last child; it
-- goes on to reap that child if it is a zombie, and to put the process to sleep if not.
pub internal_wait_lem :
    (s : System) (cs : List ℕ)
    → s.running ≢ null
    → IsList s.pcb_ptrs.links (s.pcbs.at s.running).children cs
    → AllLead s cs
    → internal_wait s
      ≡ waited s
          (narrow ((s.pcbs.at s.running).syscall_args 0))
          ((s.pcbs.at s.running).syscall_args 1)
          cs
unfolding internal_wait
internal_wait_lem s [] some_running is leads =
    let none_first : ((s.pcbs.at s.running).children.first == null) ≡ true = rw is.first refl in
    rw
      (
        int_argument-ok s some_running 0,
        argument-ok s some_running 1,
        ==_ne s.running null some_running,
        none_first,
        return_value-ok s some_running Error.wait,
      )
      refl
internal_wait_lem s (x ∷ cs) some_running is leads =
    let pid = narrow ((s.pcbs.at s.running).syscall_args 0) in
    let ptr = awaited s pid (x ∷ cs) null in
    let fuel = rounds (s.pcbs.at s.running).children in
    let some_child = some_awaited s pid x cs leads in
    let some_first : (s.pcbs.at s.running).children.first ≢ null =
      λ e. is.chain.0 (sym is.first ∙ e) in
    let enough : length (x ∷ cs) < fuel = ground (arith, is.size) in
    let scan =
      ap (λ a. wait_scan pid fuel a null null s) is.first
      ∙ first_scan s pid fuel x cs null null null is.chain leads enough in
    rw
      (
        int_argument-ok s some_running 0,
        argument-ok s some_running 1,
        ==_ne s.running null some_running,
        ==_ne _ null some_first,
        load-ok pcbs s.running s some_running,
        scan,
        ==_ne (child s ptr) null some_child,
        never (ltb_ℤ (pos 0) pid),
        load-ok pcbs (child s ptr) s some_child,
      )
      (elim (Bool-cases (is_zombie (s.pcbs.at (child s ptr)).status)) [
        | inl e ↦ rw e refl
        | inr e ↦ rw e refl
      ])
