-- ===== src/Kernel.antt =====
-- The state of the kernel: the structures of sorgente/disastrOS_pcb.h, disastrOS_timer.h,
-- disastrOS_resource.h, disastrOS_descriptor.h, disastrOS_semaphore.h and
-- disastrOS_semdescriptor.h, their stores, and the globals of disastrOS.c.
--
-- A pointer is an address, and 0 is NULL. Each type of structure has a store of its own, since
-- each comes from a pool of its own. The first field of a structure, its `ListItem`, is kept in
-- the store's links. The saved processor states and the stacks are left out.
pub mod Cmd
pub mod Constants
pub mod Lists
pub mod Timers
pub mod Pcbs
pub mod Resources
pub mod Semaphores
pub mod Running
pub mod SemaphoreCalls
pub mod ProcessCalls
pub mod WaitExit
pub mod ResourceCalls
pub mod Start
pub mod Trap
pub mod Families
pub mod Queues
pub mod SemLists
pub mod Children
pub mod Rules
pub mod Printing
mod Tests
use disastr_os_semaphores.Base.{ℕ}
use disastr_os_semaphores.Base.Int.{ℤ}
use disastr_os_semaphores.LinkedList.{Links, ListHead}
use disastr_os_semaphores.PoolAllocator.{PoolAllocator}

pub data ProcessStatus : Type 0 where
  invalid created running ready waiting suspended zombie : ProcessStatus

-- `PCB`. The signals and their mask are bit patterns of 32 bits.
pub record Pcb : Type 0 where
  pub pid : ℤ
  pub return_value : ℤ
  pub status : ProcessStatus
  pub signals : ℕ
  pub signals_mask : ℕ
  pub parent : ℕ
  pub children : ListHead
  pub timer : ℕ
  pub last_fd : ℤ
  pub descriptors : ListHead
  pub last_sem_fd : ℤ
  pub sem_descriptors : ListHead
  pub syscall_num : ℤ
  pub syscall_args : ℕ → ℤ
  pub syscall_retvalue : ℤ

pub record PcbPtr : Type 0 where
  pub pcb : ℕ

pub record TimerItem : Type 0 where
  pub awakening_time : ℤ
  pub pcb : ℕ

pub record Resource : Type 0 where
  pub id : ℤ
  pub type : ℤ
  pub descriptors : ListHead

pub record Descriptor : Type 0 where
  pub pcb : ℕ
  pub resource : ℕ
  pub fd : ℤ
  pub ptr : ℕ

pub record DescriptorPtr : Type 0 where
  pub descriptor : ℕ

pub record Semaphore : Type 0 where
  pub id : ℤ
  pub count : ℤ
  pub descriptors : ListHead
  pub waiting_descriptors : ListHead

pub record SemDescriptor : Type 0 where
  pub pcb : ℕ
  pub semaphore : ℕ
  pub fd : ℤ
  pub ptr : ℕ

pub record SemDescriptorPtr : Type 0 where
  pub descriptor : ℕ

-- The structures of one type: their list items, the rest of their fields, and their pool.
pub record Store (T : Type 0) : Type 0 where
  pub links : Links
  pub at : ℕ → T
  pub pool : PoolAllocator

-- The stores, the globals, and the memory of the processes that the kernel writes to.
pub record System : Type 0 where
  pub pcbs : Store Pcb
  pub pcb_ptrs : Store PcbPtr
  pub timer_items : Store TimerItem
  pub resources : Store Resource
  pub descriptors : Store Descriptor
  pub descriptor_ptrs : Store DescriptorPtr
  pub semaphores : Store Semaphore
  pub sem_descriptors : Store SemDescriptor
  pub sem_descriptor_ptrs : Store SemDescriptorPtr
  pub init_pcb : ℕ
  pub running : ℕ
  pub last_pid : ℤ
  pub ready_list : ListHead
  pub waiting_list : ListHead
  pub zombie_list : ListHead
  pub timer_list : ListHead
  pub resources_list : ListHead
  pub semaphores_list : ListHead
  pub time : ℤ
  pub shutdown_now : ℤ
  pub user_memory : ℤ → ℤ
