-- ===== src/Kernel/SemaphoreCalls/Allocate.antt =====
-- `SemDescriptor_alloc` and `SemDescriptorPtr_alloc` of disastrOS_semdescriptor.c, with a free block
-- and without one.
use disastr_os_semaphores.Base.{ℕ, ◌≡◌, ◌≢◌, refl, List, [], ◌∷◌, ==_ne, ok}
use disastr_os_semaphores.Base.Int.{ℤ}
use disastr_os_semaphores.LinkedList.{null}
use disastr_os_semaphores.PoolAllocator.FreeList.{IsPool}
use disastr_os_semaphores.PoolAllocator.Blocks.{address, get_block-nil}
use disastr_os_semaphores.Kernel.{System}
use disastr_os_semaphores.Kernel.Cmd.{modified, sem_descriptors, sem_descriptor_ptrs, alloc_block}
use disastr_os_semaphores.Kernel.Rules.{modify-ok, alloc_block-ok, unlink-ok, allocated, unlinked}
use disastr_os_semaphores.Kernel.Semaphores.{sem_descriptor_alloc, sem_descriptor_ptr_alloc}

-- The state after `SemDescriptor_alloc` and after `SemDescriptorPtr_alloc`, of the blocks at the
-- given indices.
abbrev pub with_descriptor : ℕ → ℤ → (sem pcb : ℕ) → System → System
with_descriptor i fd sem pcb s =
    let d = address s.sem_descriptors.pool i in
    modified sem_descriptors d (λ des. record des { fd = fd; semaphore = sem; pcb = pcb })
      (unlinked sem_descriptors d (allocated sem_descriptors i s))

abbrev pub with_pointer : ℕ → ℕ → System → System
with_pointer j d s =
    let x = address s.sem_descriptor_ptrs.pool j in
    modified sem_descriptor_ptrs x (λ _. record { descriptor = d })
      (unlinked sem_descriptor_ptrs x (allocated sem_descriptor_ptrs j s))

pub sem_descriptor_alloc-ok :
    (s : System) (i : ℕ) (free : List ℕ) (fd : ℤ) (sem pcb : ℕ)
    → IsPool s.sem_descriptors.pool (i ∷ free)
    → address s.sem_descriptors.pool i ≢ null
    → sem_descriptor_alloc fd sem pcb s
      ≡ ok (address s.sem_descriptors.pool i, with_descriptor i fd sem pcb s)
unfolding sem_descriptor_alloc
sem_descriptor_alloc-ok s i free fd sem pcb pool some_d =
    let d = address s.sem_descriptors.pool i in
    rw
      (
        alloc_block-ok sem_descriptors s i free pool,
        ==_ne d null some_d,
        unlink-ok sem_descriptors d (allocated sem_descriptors i s) some_d,
        modify-ok sem_descriptors d (unlinked sem_descriptors d (allocated sem_descriptors i s))
            some_d,
      )
      refl

pub sem_descriptor_ptr_alloc-ok :
    (s : System) (j : ℕ) (free : List ℕ) (d : ℕ)
    → IsPool s.sem_descriptor_ptrs.pool (j ∷ free)
    → address s.sem_descriptor_ptrs.pool j ≢ null
    → sem_descriptor_ptr_alloc d s ≡ ok (address s.sem_descriptor_ptrs.pool j, with_pointer j d s)
unfolding sem_descriptor_ptr_alloc
sem_descriptor_ptr_alloc-ok s j free d pool some_x =
    let x = address s.sem_descriptor_ptrs.pool j in
    rw
      (
        alloc_block-ok sem_descriptor_ptrs s j free pool,
        ==_ne x null some_x,
        unlink-ok sem_descriptor_ptrs x (allocated sem_descriptor_ptrs j s) some_x,
        modify-ok sem_descriptor_ptrs x
            (unlinked sem_descriptor_ptrs x (allocated sem_descriptor_ptrs j s)) some_x,
      )
      refl

pub sem_descriptor_alloc-none :
    (s : System) (fd : ℤ) (sem pcb : ℕ)
    → IsPool s.sem_descriptors.pool []
    → sem_descriptor_alloc fd sem pcb s ≡ ok (null, s)
unfolding sem_descriptor_alloc alloc_block
sem_descriptor_alloc-none s fd sem pcb pool = rw (get_block-nil s.sem_descriptors.pool pool) refl
