-- ===== src/Kernel/WaitExit/Alike.antt =====
-- PCBs that agree in what the first loop of `internal_exit` of disastrOS_exit.c leaves alone.
use native.Mathlib.Decide.{ℕ_discrete}
use mathlib.Core.Path.{subst}
use disastr_os_semaphores.Base.{ℕ, ◌≡◌, refl, sym, ◌∙◌, ==_ne, ==_self}
use disastr_os_semaphores.LinkedList.{ListHead}
use disastr_os_semaphores.Kernel.{Pcb}
use disastr_os_semaphores.Kernel.Cmd.{write_at}

-- Two PCBs that agree but for children and signals.
pub record Alike (p q : Pcb) : Type 0 where
  pub pid : q.pid ≡ p.pid
  pub return_value : q.return_value ≡ p.return_value
  pub status : q.status ≡ p.status
  pub parent : q.parent ≡ p.parent
  pub syscall_num : q.syscall_num ≡ p.syscall_num
  pub syscall_args : q.syscall_args ≡ p.syscall_args

pub Alike-self : (p : Pcb) → Alike p p
Alike-self p = record {
  pid = refl;
  return_value = refl;
  status = refl;
  parent = refl;
  syscall_num = refl;
  syscall_args = refl;
}

pub Alike-then : (p q r : Pcb) → Alike p q → Alike q r → Alike p r
Alike-then p q r a b = record {
  pid = b.pid ∙ a.pid;
  return_value = b.return_value ∙ a.return_value;
  status = b.status ∙ a.status;
  parent = b.parent ∙ a.parent;
  syscall_num = b.syscall_num ∙ a.syscall_num;
  syscall_args = b.syscall_args ∙ a.syscall_args;
}

pub Alike-write_at :
    (f : ℕ → Pcb) (b : ℕ) (v : Pcb) → Alike (f b) v → (a : ℕ) → Alike (f a) (write_at f b v a)
Alike-write_at f b v alike a = elim (ℕ_discrete a b) [
  | yes e ↦ subst (λ a. Alike (f a) (write_at f b v a)) (sym e) (rw ==_self alike)
  | no ne ↦ rw (==_ne a b ne) (Alike-self (f a))
]

pub Alike-children : (p : Pcb) (h : ListHead) → Alike p (record p { children = h })
Alike-children p h = record {
  pid = refl;
  return_value = refl;
  status = refl;
  parent = refl;
  syscall_num = refl;
  syscall_args = refl;
}

pub Alike-signals : (p : Pcb) (n : ℕ) → Alike p (record p { signals = n })
Alike-signals p n = record {
  pid = refl;
  return_value = refl;
  status = refl;
  parent = refl;
  syscall_num = refl;
  syscall_args = refl;
}
