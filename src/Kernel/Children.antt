-- ===== src/Kernel/Children.antt =====
-- The lists of children that the PCBs have, as a family of lists by the address of the PCB.
use native.Mathlib.Decide.{ℕ_discrete}
use disastr_os_semaphores.Base.{ℕ, refl, arith, ==_ne}
use disastr_os_semaphores.LinkedList.{Links, ListHead}
use disastr_os_semaphores.LinkedList.Family.{IsUpdate}
use disastr_os_semaphores.Kernel.{System}
use disastr_os_semaphores.Kernel.Lists.{children_of}
use disastr_os_semaphores.Kernel.Families.{ListTable}

abbrev pub children_head : System → ℕ → ListHead
children_head s p = (s.pcbs.at p).children

pub children-IsUpdate :
    (s : System) (k : ℕ) (l : Links) (h : ListHead)
    → IsUpdate (children_head s) (children_head ((children_of k).with_list l h s)) k h
children-IsUpdate s k l h = record {
  here = ground arith;
  there = λ j ne. let e = ==_ne j k ne in ground arith;
}

abbrev pub child_table : ListTable ℕ
child_table = record {
  dec = ℕ_discrete;
  ref = children_of;
  links = λ s. s.pcb_ptrs.links;
  shared = λ k s. refl;
  stored = λ k l h s. refl;
  headed = λ k l h s. children-IsUpdate s k l h;
}
