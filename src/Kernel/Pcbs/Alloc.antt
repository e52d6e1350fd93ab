-- ===== src/Kernel/Pcbs/Alloc.antt =====
-- `PCB_alloc` and `PCBPtr_alloc` of disastrOS_pcb.c while their pools have a free block.
use disastr_os_semaphores.Base.{ℕ, ◌≡◌, ◌≢◌, refl, List, ◌∷◌, ok}
use disastr_os_semaphores.Base.Int.{pos, ◌+ℤ◌}
use disastr_os_semaphores.LinkedList.{null}
use disastr_os_semaphores.PoolAllocator.FreeList.{IsPool}
use disastr_os_semaphores.PoolAllocator.Blocks.{address}
use disastr_os_semaphores.Kernel.{System}
use disastr_os_semaphores.Kernel.Cmd.{pcbs, pcb_ptrs, modified}
use disastr_os_semaphores.Kernel.Rules.{alloc_block-ok, unlink-ok, modify-ok, allocated, unlinked}
use disastr_os_semaphores.Kernel.Pcbs.{fresh_pcb, pcb_alloc, pcb_ptr_alloc}

-- The state after each of the two, at the block with the given index.
abbrev pub with_pcb : ℕ → System → System
with_pcb i s =
    let p = address s.pcbs.pool i in
    record (modified pcbs p (fresh_pcb s.last_pid) (unlinked pcbs p (allocated pcbs i s))) {
      last_pid = s.last_pid +ℤ pos 1;
    }

abbrev pub with_ptr : ℕ → ℕ → System → System
with_ptr j pcb s =
    let p = address s.pcb_ptrs.pool j in
    modified pcb_ptrs p (λ _. record { pcb = pcb }) (unlinked pcb_ptrs p (allocated pcb_ptrs j s))

pub pcb_alloc-ok :
    (s : System) (i : ℕ) (free : List ℕ)
    → IsPool s.pcbs.pool (i ∷ free)
    → address s.pcbs.pool i ≢ null
    → pcb_alloc s ≡ ok (address s.pcbs.pool i, with_pcb i s)
unfolding pcb_alloc
pcb_alloc-ok s i free pool some_p =
    rw
      (
        alloc_block-ok pcbs s i free pool,
        unlink-ok pcbs _ (allocated pcbs i s) some_p,
        modify-ok pcbs _ (unlinked pcbs (address s.pcbs.pool i) (allocated pcbs i s)) some_p,
      )
      refl

pub pcb_ptr_alloc-ok :
    (s : System) (j pcb : ℕ) (free : List ℕ)
    → IsPool s.pcb_ptrs.pool (j ∷ free)
    → address s.pcb_ptrs.pool j ≢ null
    → pcb_ptr_alloc pcb s ≡ ok (address s.pcb_ptrs.pool j, with_ptr j pcb s)
unfolding pcb_ptr_alloc
pcb_ptr_alloc-ok s j pcb free pool some_p =
    rw
      (
        alloc_block-ok pcb_ptrs s j free pool,
        unlink-ok pcb_ptrs _ (allocated pcb_ptrs j s) some_p,
        modify-ok pcb_ptrs _
            (unlinked pcb_ptrs (address s.pcb_ptrs.pool j) (allocated pcb_ptrs j s)) some_p,
      )
      refl
