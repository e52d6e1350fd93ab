-- ===== src/Kernel/Semaphores.antt =====
-- sorgente/disastrOS_semaphore.c and sorgente/disastrOS_semdescriptor.c: semaphores, the
-- descriptors that processes hold on them, and the pointers to those. The printing is left out.
use disastr_os_semaphores.Base.{ℕ, ◌==◌, if◌then◌else◌}
use disastr_os_semaphores.Base.Int.{ℤ, ◌==ℤ◌}
use disastr_os_semaphores.LinkedList
use disastr_os_semaphores.LinkedList.{null}
use disastr_os_semaphores.PoolAllocator.{PoolAllocatorResult}
use disastr_os_semaphores.Kernel.Cmd.{
  Cmd, pure, ◌>>=◌, ◌>>◌, assert, load, modify, unlink, alloc_block, free_block, semaphores,
  sem_descriptors, sem_descriptor_ptrs, ListRef, find_by,
}

-- `Semaphore_alloc`, which leaves the field `waiting_descriptors`.
unfoldable pub semaphore_alloc : ℤ → ℤ → Cmd ℕ
semaphore_alloc id count = do
  r ← alloc_block semaphores
  if r == null then pure null else do
    unlink semaphores r
    modify semaphores r
        (λ sem. record sem { id = id; count = count; descriptors = LinkedList.init })
    pure r

-- `Semaphore_free`
unfoldable pub semaphore_free : ℕ → Cmd PoolAllocatorResult
semaphore_free r = do
  sem ← load semaphores r
  assert (sem.descriptors.first == null)
  assert (sem.descriptors.last == null)
  free_block semaphores r

-- `SemaphoreList_byId`
unfoldable pub semaphore_by_id : ListRef → ℤ → Cmd ℕ
semaphore_by_id l id = find_by l (λ s aux. (s.semaphores.at aux).id ==ℤ id)

-- `SemDescriptor_alloc`, which leaves the field `ptr`.
unfoldable pub sem_descriptor_alloc : ℤ → (res pcb : ℕ) → Cmd ℕ
sem_descriptor_alloc fd res pcb = do
  d ← alloc_block sem_descriptors
  if d == null then pure null else do
    unlink sem_descriptors d
    modify sem_descriptors d (λ des. record des { fd = fd; semaphore = res; pcb = pcb })
    pure d

-- `SemDescriptor_free`
unfoldable pub sem_descriptor_free : ℕ → Cmd PoolAllocatorResult
sem_descriptor_free d = free_block sem_descriptors d

-- `SemDescriptorList_byFd`
unfoldable pub sem_descriptor_by_fd : ListRef → ℤ → Cmd ℕ
sem_descriptor_by_fd l fd = find_by l (λ s aux. (s.sem_descriptors.at aux).fd ==ℤ fd)

-- `SemDescriptorPtr_alloc`
unfoldable pub sem_descriptor_ptr_alloc : ℕ → Cmd ℕ
sem_descriptor_ptr_alloc descriptor = do
  d ← alloc_block sem_descriptor_ptrs
  if d == null then pure null else do
    unlink sem_descriptor_ptrs d
    modify sem_descriptor_ptrs d (λ _. record { descriptor = descriptor })
    pure d

-- `SemDescriptorPtr_free`
unfoldable pub sem_descriptor_ptr_free : ℕ → Cmd PoolAllocatorResult
sem_descriptor_ptr_free d = free_block sem_descriptor_ptrs d
