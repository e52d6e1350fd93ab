-- ===== src/Kernel/Pcbs.antt =====
-- sorgente/disastrOS_pcb.c: process control blocks and pointers to them. The printing is left out.
pub mod Alloc
use disastr_os_semaphores.Base.{ℕ, ◌==◌, ◌||◌, if◌then◌else◌}
use disastr_os_semaphores.LinkedList.{null}
use disastr_os_semaphores.Base.Int.{ℤ, pos, ◌+ℤ◌, ◌==ℤ◌}
use disastr_os_semaphores.LinkedList
use disastr_os_semaphores.PoolAllocator.{PoolAllocatorResult}
use disastr_os_semaphores.Kernel.{Pcb, invalid}
use disastr_os_semaphores.Kernel.Cmd.{
  Cmd, pure, get, put, ◌>>=◌, ◌>>◌, load, modify, unlink, alloc_block, free_block, pcbs, pcb_ptrs,
  ListRef, find_by,
}

-- The fields that `PCB_alloc` sets: all but `sem_descriptors` and those of the system calls.
abbrev pub fresh_pcb : ℤ → Pcb → Pcb
fresh_pcb pid pcb = record pcb {
  pid = pid;
  return_value = pos 0;
  status = invalid;
  last_fd = pos 0;
  signals = 0;
  signals_mask = 0xFFFFFFFF;
  descriptors = LinkedList.init;
  parent = 0;
  timer = 0;
  children = LinkedList.init;
  last_sem_fd = pos 0;
}

-- `PCB_alloc`, which does not test for NULL.
unfoldable pub pcb_alloc : Cmd ℕ
pcb_alloc = do
  pcb ← alloc_block pcbs
  unlink pcbs pcb
  s ← get
  modify pcbs pcb (fresh_pcb s.last_pid)
  put (λ s'. record s' { last_pid = s'.last_pid +ℤ pos 1 })
  pure pcb

-- `PCB_free`
unfoldable pub pcb_free : ℕ → Cmd PoolAllocatorResult
pcb_free pcb = free_block pcbs pcb

-- `PCBPtr_alloc`, which does not test for NULL.
unfoldable pub pcb_ptr_alloc : ℕ → Cmd ℕ
pcb_ptr_alloc pcb = do
  pcb_ptr ← alloc_block pcb_ptrs
  unlink pcb_ptrs pcb_ptr
  modify pcb_ptrs pcb_ptr (λ _. record { pcb = pcb })
  pure pcb_ptr

-- `PCBPtr_free`
unfoldable pub pcb_ptr_free : ℕ → Cmd PoolAllocatorResult
pcb_ptr_free pcb_ptr = free_block pcb_ptrs pcb_ptr

-- `PCB_byPID`
unfoldable pub pcb_by_pid : ListRef → ℤ → Cmd ℕ
pcb_by_pid head pid = find_by head (λ s aux. (s.pcbs.at aux).pid ==ℤ pid)

-- `PCBPtr_byPID`. The scan reads the `pid` through each pointer that it passes, and through NULL that
-- is a fault.
unfoldable pub pcb_ptr_by_pid : ListRef → ℤ → Cmd ℕ
pcb_ptr_by_pid head pid = do
  found ←
      find_by head (λ s aux.
        let pcb = (s.pcb_ptrs.at aux).pcb in (pcb == null) || ((s.pcbs.at pcb).pid ==ℤ pid))
  if found == null
      then pure null
      else do pcb_ptr ← load pcb_ptrs found; load pcbs pcb_ptr.pcb; pure found
