-- ===== src/Kernel/Resources.antt =====
-- sorgente/disastrOS_resource.c and sorgente/disastrOS_descriptor.c: resources, the descriptors
-- that processes hold on them, and the pointers to those. The printing is left out.
use disastr_os_semaphores.Base.{ℕ, ◌==◌, if◌then◌else◌}
use disastr_os_semaphores.Base.Int.{ℤ, ◌==ℤ◌}
use disastr_os_semaphores.LinkedList
use disastr_os_semaphores.LinkedList.{null}
use disastr_os_semaphores.PoolAllocator.{PoolAllocatorResult}
use disastr_os_semaphores.Kernel.Cmd.{
  Cmd, pure, ◌>>=◌, ◌>>◌, assert, load, modify, unlink, alloc_block, free_block, resources,
  descriptors, descriptor_ptrs, ListRef, find_by,
}

-- `Resource_alloc`
unfoldable pub resource_alloc : ℤ → ℤ → Cmd ℕ
resource_alloc id type = do
  r ← alloc_block resources
  if r == null then pure null else do
    unlink resources r
    modify resources r (λ _. record { id = id; type = type; descriptors = LinkedList.init })
    pure r

-- `Resource_free`
unfoldable pub resource_free : ℕ → Cmd PoolAllocatorResult
resource_free r = do
  res ← load resources r
  assert (res.descriptors.first == null)
  assert (res.descriptors.last == null)
  free_block resources r

-- `ResourceList_byId`
unfoldable pub resource_by_id : ListRef → ℤ → Cmd ℕ
resource_by_id l id = find_by l (λ s aux. (s.resources.at aux).id ==ℤ id)

-- `Descriptor_alloc`, which leaves the field `ptr`.
unfoldable pub descriptor_alloc : ℤ → (res pcb : ℕ) → Cmd ℕ
descriptor_alloc fd res pcb = do
  d ← alloc_block descriptors
  if d == null then pure null else do
    unlink descriptors d
    modify descriptors d (λ des. record des { fd = fd; resource = res; pcb = pcb })
    pure d

-- `Descriptor_free`
unfoldable pub descriptor_free : ℕ → Cmd PoolAllocatorResult
descriptor_free d = free_block descriptors d

-- `DescriptorList_byFd`
unfoldable pub descriptor_by_fd : ListRef → ℤ → Cmd ℕ
descriptor_by_fd l fd = find_by l (λ s aux. (s.descriptors.at aux).fd ==ℤ fd)

-- `DescriptorPtr_alloc`
unfoldable pub descriptor_ptr_alloc : ℕ → Cmd ℕ
descriptor_ptr_alloc descriptor = do
  d ← alloc_block descriptor_ptrs
  if d == null then pure null else do
    unlink descriptor_ptrs d
    modify descriptor_ptrs d (λ _. record { descriptor = descriptor })
    pure d

-- `DescriptorPtr_free`
unfoldable pub descriptor_ptr_free : ℕ → Cmd PoolAllocatorResult
descriptor_ptr_free d = free_block descriptor_ptrs d
