-- ===== src/Kernel/Printing.antt =====
-- The functions of the kernel that print: those of sorgente/disastrOS_pcb.c, disastrOS_timer.c,
-- disastrOS_resource.c, disastrOS_descriptor.c, disastrOS_semaphore.c and
-- disastrOS_semdescriptor.c, and `disastrOS_printStatus` of disastrOS.c.
--
-- What a function prints is its result, as pieces of text and numbers; it reads the state, and
-- faults where it reads through NULL.
pub mod Objects
pub mod Joined
pub mod View
pub mod Status
mod Tests
use Prim.Native.String.{String}
use disastr_os_semaphores.Base.{
  ℕ, zero, suc, List, [], ◌∷◌, ◌++◌, ◌==◌, if◌then◌else◌, Outcome, ok, out_of_fuel, and_then,
}
use disastr_os_semaphores.Base.Int.{ℤ}
use disastr_os_semaphores.LinkedList.{null}
use disastr_os_semaphores.Kernel.{
  System, Resource, Descriptor, DescriptorPtr, Semaphore, SemDescriptor, SemDescriptorPtr,
}
use disastr_os_semaphores.Kernel.Cmd.{
  Cmd, Table, load, first, next, rounds, ListRef, pcbs, pcb_ptrs, timer_items, resources,
  descriptors, descriptor_ptrs, semaphores, sem_descriptors, sem_descriptor_ptrs,
}
use disastr_os_semaphores.Kernel.Lists.{
  ready_list, waiting_list, zombie_list, timer_list, resources_list, semaphores_list, children_of,
  users_of, openers_of, waiters_of,
}

pub data Piece : Type 0 where
  text : String → Piece
  number : ℤ → Piece

abbrev pub Printer : Type 0
Printer = System → Outcome (List Piece)

-- `printf`
abbrev pub print : List Piece → Printer
print pieces s = ok pieces

abbrev pub print_text : String → Printer
print_text str = print (text str ∷ [])

-- What a read gives is passed on; what two functions print stands one behind the other.
infixl 5 ◌>>=◌ ◌>>◌
abbrev pub ◌>>=◌ : {A : Type 0} → Cmd A → (A → Printer) → Printer
◌>>=◌ m k s = and_then (m s) (λ r. k r.0 s)

abbrev pub ◌>>◌ : Printer → Printer → Printer
◌>>◌ p q s = and_then (p s) (λ a. and_then (q s) (λ b. ok (a ++ b)))

-- The loop of a function that prints a list: `between` is printed behind each item but the last,
-- and then `after` behind each item.
unfoldable pub print_items :
    {T : Type 0} → Table T → (ℕ → Printer) → (between after : List Piece) → ℕ → ℕ → Printer
print_items t entry between after zero aux = λ _. out_of_fuel
print_items t entry between after (suc fuel) aux = if aux == null then print [] else do
  entry aux
  following ← next t aux
  if following == null then print [] else print between
  print after
  print_items t entry between after fuel following

-- A function that prints a list.
unfoldable pub print_list :
    {T : Type 0}
    → Table T
    → ListRef
    → (opening : List Piece) → (ℕ → Printer)
    → (between after closing : List Piece) → Printer
print_list t l opening entry between after closing = do
  aux ← first l
  print opening
  (λ s. print_items t entry between after (rounds (l.head s)) aux s)
  print closing

-- `TimerList_print`, and what it prints for an item
abbrev pub timer_entry : ℕ → Printer
timer_entry aux = do
  timer ← load timer_items aux
  pcb ← load pcbs timer.pcb
  print (text "(pid:" ∷ number pcb.pid ∷ text ", t:" ∷ number timer.awakening_time ∷ text ")" ∷ [])

unfoldable pub timer_list_print : ListRef → Printer
timer_list_print timers =
    print_list timer_items timers (text "[" ∷ []) timer_entry (text ", " ∷ []) [] (text "]" ∷ [])

-- `PCBPtrList_print`, and what it prints for an item
abbrev pub child_entry : ℕ → Printer
child_entry aux = do
  pcb_ptr ← load pcb_ptrs aux
  pcb ← load pcbs pcb_ptr.pcb
  print (number pcb.pid ∷ [])

unfoldable pub pcb_ptr_list_print : ListRef → Printer
pcb_ptr_list_print head =
    print_list pcb_ptrs head (text "(" ∷ []) child_entry (text ", " ∷ []) [] (text ")" ∷ [])

-- `PCB_print`
unfoldable pub pcb_print : ℕ → Printer
pcb_print p = do
  pcb ← load pcbs p
  print (text "[pid: " ∷ number pcb.pid ∷ text ", child: " ∷ [])
  pcb_ptr_list_print (children_of p)
  print_text "]"

-- `PCBList_print`
unfoldable pub pcb_list_print : ListRef → Printer
pcb_list_print head =
    print_list pcbs head (text "{\n" ∷ []) (λ aux. do print_text "\t"; pcb_print aux)
      (text "," ∷ []) (text "\n" ∷ []) (text "}\n" ∷ [])
