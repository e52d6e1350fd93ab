-- ===== src/Kernel/SemaphoreCalls/Found.antt =====
-- The common start of `internal_semClose`, `internal_semWait` and `internal_semPost`: the search for
-- the descriptor.
use disastr_os_semaphores.PoolAllocator.{narrow}
use disastr_os_semaphores.Base.{ℕ, ◌≡◌, ◌≢◌, List}
use disastr_os_semaphores.Base.Int.{ℤ, ◌==ℤ◌}
use disastr_os_semaphores.LinkedList.{null}
use disastr_os_semaphores.LinkedList.Chain.{IsList}
use disastr_os_semaphores.LinkedList.Find.{first_of}
use disastr_os_semaphores.Base.{ok}
use disastr_os_semaphores.Kernel.{System}
use disastr_os_semaphores.Kernel.Rules.{find_by-first_of}
use disastr_os_semaphores.Kernel.Lists.{sem_descriptors_of}
use disastr_os_semaphores.Kernel.Semaphores.{sem_descriptor_by_fd}

-- The first argument of the system call of the running process.
abbrev pub fd_argument : System → ℤ
fd_argument s = narrow ((s.pcbs.at s.running).syscall_args 0)

-- The first descriptor of the running process whose `fd` is the argument: NULL if there is none.
abbrev pub descriptor_for : System → List ℕ → ℕ
descriptor_for s ds = first_of (λ d. (s.sem_descriptors.at d).fd ==ℤ fd_argument s) ds

-- A process runs, and its descriptors of semaphores are `ds`.
pub record HasDescriptors (s : System) (ds : List ℕ) : Type 0 where
  pub some_running : s.running ≢ null
  pub list : IsList s.sem_descriptors.links (s.pcbs.at s.running).sem_descriptors ds

pub by_fd-ok :
    (s : System) (ds : List ℕ)
    → HasDescriptors s ds
    → sem_descriptor_by_fd (sem_descriptors_of s.running) (fd_argument s) s
      ≡ ok (descriptor_for s ds, s)
unfolding sem_descriptor_by_fd
by_fd-ok s ds has = find_by-first_of _ _ s ds has.some_running has.list
