-- ===== src/Kernel/SemLists.antt =====
-- The lists of pointers to descriptors that the semaphores have, as a family of lists.
use native.Mathlib.Decide.{ℕ_discrete}
use disastr_os_semaphores.Base.{ℕ, ◌≡◌, ◌≢◌, refl, ap, arith, ==_ne}
use disastr_os_semaphores.LinkedList.{Links, ListHead}
use disastr_os_semaphores.LinkedList.Family.{IsUpdate}
use disastr_os_semaphores.Kernel.{System}
use disastr_os_semaphores.Kernel.Cmd.{ListRef}
use disastr_os_semaphores.Kernel.Lists.{openers_of, waiters_of}
use disastr_os_semaphores.Kernel.Families.{ListTable}

-- The lists of pointers to descriptors of a semaphore: of those that are open, and of those whose
-- process waits.
pub data SemList : Type 0 where
  openers waiters : ℕ → SemList

pub SemList-discrete : Discrete SemList
SemList-discrete = hlevel ℕ_discrete

abbrev pub sem_list : SemList → ListRef
sem_list (openers a) = openers_of a
sem_list (waiters a) = waiters_of a

abbrev pub sem_head : System → SemList → ListHead
sem_head s k = (sem_list k).head s

abbrev pub sem_of : SemList → ℕ
sem_of (openers a) = a
sem_of (waiters a) = a

-- A change of one head changes no other.
pub sem-IsUpdate :
    (s : System) (k : SemList) (l : Links) (h : ListHead)
    → IsUpdate (sem_head s) (sem_head ((sem_list k).with_list l h s)) k h
sem-IsUpdate s (openers a) l h = record { here = ground arith; there = go }
  where
    go : (j : SemList) → j ≢ openers a → sem_head ((openers_of a).with_list l h s) j ≡ sem_head s j
    go (openers b) ne = let e' = ==_ne b a (λ e. ne (ap openers e)) in ground arith
    go (waiters b) ne = ground arith
sem-IsUpdate s (waiters a) l h = record { here = ground arith; there = go }
  where
    go : (j : SemList) → j ≢ waiters a → sem_head ((waiters_of a).with_list l h s) j ≡ sem_head s j
    go (openers b) ne = ground arith
    go (waiters b) ne = let e' = ==_ne b a (λ e. ne (ap waiters e)) in ground arith

pub sem-shared : (k : SemList) (s : System) → (sem_list k).links s ≡ s.sem_descriptor_ptrs.links
sem-shared (openers a) s = refl
sem-shared (waiters a) s = refl

pub sem-stored :
    (k : SemList) (l : Links) (h : ListHead) (s : System)
    → ((sem_list k).with_list l h s).sem_descriptor_ptrs.links ≡ l
sem-stored (openers a) l h s = refl
sem-stored (waiters a) l h s = refl

abbrev pub sem_table : ListTable SemList
sem_table = record {
  dec = SemList-discrete;
  ref = sem_list;
  links = λ s. s.sem_descriptor_ptrs.links;
  shared = sem-shared;
  stored = sem-stored;
  headed = λ k l h s. sem-IsUpdate s k l h;
}
