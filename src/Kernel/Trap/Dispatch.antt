-- ===== src/Kernel/Trap/Dispatch.antt =====
-- `disastrOS_syscall` of disastrOS.c on every number.
use disastr_os_semaphores.Base.{
  ℕ, ◌≡◌, ◌≢◌, refl, false, not, ltb, if◌then◌else◌, arith, ==_ne, ==_self, Option, none, some,
  Outcome, ok, fault, and_then, List, [], ◌∷◌, ◌==◌,
}
use disastr_os_semaphores.Base.Int.{ℤ, pos, negsuc, ◌==ℤ◌, pos_part}
use disastr_os_semaphores.LinkedList.{null}
use disastr_os_semaphores.Kernel.{System}
use disastr_os_semaphores.Kernel.Constants.{max_syscalls}
use disastr_os_semaphores.Kernel.Constants.Error
use disastr_os_semaphores.Kernel.Cmd.{Cmd, modified, pcbs}
use disastr_os_semaphores.Kernel.Rules.{load-ok, modify-ok, return_value-ok, returning}
use disastr_os_semaphores.Kernel.Running.{return_value}
use disastr_os_semaphores.Kernel.ProcessCalls.{
  internal_preempt, internal_spawn, internal_fork, internal_sleep, internal_shutdown,
}
use disastr_os_semaphores.Kernel.WaitExit.{internal_wait, internal_exit}
use disastr_os_semaphores.Kernel.ResourceCalls.{
  internal_open_resource, internal_close_resource, internal_destroy_resource,
}
use disastr_os_semaphores.Kernel.SemaphoreCalls.{
  internal_sem_open, internal_sem_close, internal_sem_wait, internal_sem_post,
}
use disastr_os_semaphores.Kernel.Trap.{
  syscall, trap, dispatch, return_to_process, syscall_vector, syscall_numarg, is_out_of_range,
}

-- The state in which the handler starts: the number and `count` arguments are in the PCB.
abbrev pub called : ℤ → ℕ → (ℕ → ℤ) → System → System
called num count args s =
    modified pcbs s.running
      (λ p. record p {
        syscall_args = λ i. if ltb i count then args i else p.syscall_args i;
        syscall_num = num;
      })
      s

-- A row of the table of system calls: the number, the handler, and how many arguments it has.
pub record Entry : Type 0 where
  pub number : ℕ
  pub handler : Cmd (Unit {0})
  pub count : ℕ

abbrev pub entry : ℕ → Cmd (Unit {0}) → ℕ → Entry
entry number handler count = record { number = number; handler = handler; count = count }

-- The system calls that there are.
abbrev pub table : List Entry
table =
    entry 1 internal_preempt 0
    ∷ entry 2 internal_fork 0
    ∷ entry 5 internal_spawn 2
    ∷ entry 3 internal_wait 2
    ∷ entry 4 internal_exit 1
    ∷ entry 6 internal_sleep 1
    ∷ entry 7 internal_open_resource 3
    ∷ entry 8 internal_close_resource 1
    ∷ entry 9 internal_destroy_resource 1
    ∷ entry 10 internal_shutdown 0
    ∷ entry 11 internal_sem_open 2
    ∷ entry 12 internal_sem_close 1
    ∷ entry 14 internal_sem_post 1
    ∷ entry 13 internal_sem_wait 1
    ∷ []

abbrev pub handler_of : List Entry → ℕ → Option (Cmd (Unit {0}))
handler_of [] n = none
handler_of (e ∷ es) n = if n == e.number then some e.handler else handler_of es n

abbrev pub count_of : List Entry → ℕ → ℕ
count_of [] n = 0
count_of (e ∷ es) n = if n == e.number then e.count else count_of es n

-- What the vector has for a number, run at the state `s`, and then the return to a process.
abbrev pub handled : Option (Cmd (Unit {0})) → System → Outcome (Option ℤ × System)
handled none s = ok (none, returning Error.not_implemented s)
handled (some handler) s =
    and_then (and_then (handler s) (λ r. return_to_process r.1)) (λ q. ok (none, q.1))

-- The one number that passes the test and is behind the vector.
edge :
    (num : ℤ)
    → is_out_of_range num ≡ false
    → not (ltb (pos_part num) max_syscalls) ≡ (num ==ℤ pos max_syscalls)
edge (pos n) inside = ground arith
edge (negsuc n) inside = ground arith

idle-return : (s : System) → s.running ≢ null → return_to_process s ≡ ok (tt, s)
unfolding return_to_process
idle-return s some_running = rw (==_ne s.running null some_running) refl

chosen :
    (h : Option (Cmd (Unit {0}))) (s : System)
    → s.running ≢ null
    → and_then
        (and_then
          ((elim h as (λ _. Cmd (Unit {0})) [
            | none ↦ return_value Error.not_implemented
            | some handler ↦ handler
          ])
            s)
          (λ r. return_to_process r.1))
        (λ q. ok (none, q.1))
      ≡ handled h s
chosen none s some_running =
    rw
      (
        return_value-ok s some_running Error.not_implemented,
        idle-return (returning Error.not_implemented s) some_running,
      )
      refl
chosen (some handler) s some_running = refl

-- What a system call does, by its number.
abbrev pub answered : ℤ → (ℕ → ℤ) → System → Outcome (Option ℤ × System)
answered (negsuc n) args s = ok (some Error.out_of_range, s)
answered (pos n) args s =
    if ltb 32 n
    then ok (some Error.out_of_range, s)
    else if n == 32
    then fault
    else handled (handler_of table n) (called (pos n) (count_of table n) args s)

-- A number that passes both tests.
inside :
    (s : System) (n : ℕ) (args : ℕ → ℤ)
    → s.running ≢ null
    → is_out_of_range (pos n) ≡ false
    → (n == 32) ≡ false
    → syscall (pos n) args s ≡ handled (syscall_vector n) (called (pos n) (syscall_numarg n) args s)
unfolding syscall trap dispatch
inside s n args some_running e m =
    rw
      (
        ==_ne _ null some_running,
        e,
        edge (pos n) e,
        m,
        modify-ok pcbs s.running s some_running,
        load-ok pcbs s.running (called (pos n) (syscall_numarg n) args s) some_running,
        ==_self,
        e,
        edge (pos n) e,
        m,
      )
      (chosen (syscall_vector n) (called (pos n) (syscall_numarg n) args s) some_running)
