-- ===== src/Kernel/Printing/Objects.antt =====
-- The functions that print descriptors, resources and semaphores: those of
-- sorgente/disastrOS_descriptor.c, disastrOS_resource.c, disastrOS_semdescriptor.c and
-- disastrOS_semaphore.c; and `disastrOS_printStatus` of disastrOS.c.
use disastr_os_semaphores.Base.{ℕ, [], ◌∷◌, ◌==◌, if◌then◌else◌}
use disastr_os_semaphores.Base.Int.{ℤ}
use disastr_os_semaphores.LinkedList.{null}
use disastr_os_semaphores.Kernel.{
  Resource, Descriptor, DescriptorPtr, Semaphore, SemDescriptor, SemDescriptorPtr,
}
use disastr_os_semaphores.Kernel.Cmd.{
  Table, load, ListRef, pcbs, resources, descriptors, descriptor_ptrs, semaphores, sem_descriptors,
  sem_descriptor_ptrs,
}
use disastr_os_semaphores.Kernel.Lists.{
  ready_list, waiting_list, zombie_list, timer_list, resources_list, semaphores_list, users_of,
  openers_of, waiters_of,
}
use disastr_os_semaphores.Kernel.Running.{running_pcb}
use disastr_os_semaphores.Kernel.Printing.{
  text, number, Printer, print, print_text, ◌>>=◌, ◌>>◌, print_list, pcb_print, pcb_list_print,
  timer_list_print,
}

-- `DescriptorList_print`
unfoldable pub descriptor_list_print : ListRef → Printer
descriptor_list_print l =
    print_list descriptors l (text "[" ∷ [])
      (λ aux. do
        d ← load descriptors aux
        r ← load resources d.resource
        print (text "(fd: " ∷ number d.fd ∷ text ", rid:" ∷ number r.id ∷ text ")" ∷ []))
      (text ", " ∷ []) [] (text "]" ∷ [])

-- The structures that `DescriptorPtrList_print` reads: it is called for a list of `DescriptorPtr`,
-- and for one of `SemDescriptorPtr`, whose fields lie at the same offsets.
pub record Overlay (P D R : Type 0) : Type 0 where
  pub ptrs : Table P
  pub opened : Table D
  pub objects : Table R
  pub descriptor : P → ℕ
  pub pcb : D → ℕ
  pub resource : D → ℕ
  pub fd : D → ℤ
  pub id : R → ℤ

abbrev pub resource_overlay : Overlay DescriptorPtr Descriptor Resource
resource_overlay = record {
  ptrs = descriptor_ptrs;
  opened = descriptors;
  objects = resources;
  descriptor = λ d. d.descriptor;
  pcb = λ d. d.pcb;
  resource = λ d. d.resource;
  fd = λ d. d.fd;
  id = λ r. r.id;
}

abbrev pub semaphore_overlay : Overlay SemDescriptorPtr SemDescriptor Semaphore
semaphore_overlay = record {
  ptrs = sem_descriptor_ptrs;
  opened = sem_descriptors;
  objects = semaphores;
  descriptor = λ d. d.descriptor;
  pcb = λ d. d.pcb;
  resource = λ d. d.semaphore;
  fd = λ d. d.fd;
  id = λ r. r.id;
}

-- `DescriptorPtrList_print`, and what it prints for an item
abbrev pub ptr_entry : {P D R : Type 0} → Overlay P D R → ℕ → Printer
ptr_entry o aux = do
  ptr ← load o.ptrs aux
  d ← load o.opened (o.descriptor ptr)
  pcb ← load pcbs (o.pcb d)
  r ← load o.objects (o.resource d)
  print (
      text "(pid: "
      ∷ number pcb.pid
      ∷ text ", fd: "
      ∷ number (o.fd d)
      ∷ text ", rid:"
      ∷ number (o.id r)
      ∷ text ")"
      ∷ [])

unfoldable pub descriptor_ptr_list_print : {P D R : Type 0} → Overlay P D R → ListRef → Printer
descriptor_ptr_list_print o l =
    print_list o.ptrs l (text "[" ∷ []) (ptr_entry o) (text ", " ∷ []) [] (text "]" ∷ [])

-- `Resource_print`
unfoldable pub resource_print : ℕ → Printer
resource_print r = do
  res ← load resources r
  print (text "id: " ∷ number res.id ∷ text ", type:" ∷ number res.type ∷ text ", pids:" ∷ [])
  descriptor_ptr_list_print resource_overlay (users_of r)

-- `ResourceList_print`
unfoldable pub resource_list_print : ListRef → Printer
resource_list_print l =
    print_list resources l (text "{\n" ∷ []) (λ aux. do print_text "\t"; resource_print aux)
      (text "," ∷ []) (text "\n" ∷ []) (text "}\n" ∷ [])

-- `SemDescriptorList_print`
unfoldable pub sem_descriptor_list_print : ListRef → Printer
sem_descriptor_list_print l =
    print_list sem_descriptors l (text "[" ∷ [])
      (λ aux. do
        d ← load sem_descriptors aux
        r ← load semaphores d.semaphore
        print (text "(fd: " ∷ number d.fd ∷ text ", rid:" ∷ number r.id ∷ text ")" ∷ []))
      (text ", " ∷ []) [] (text "]" ∷ [])

-- `SemDescriptorPtrList_print`, whose format has the pid first and whose arguments the fd.
unfoldable pub sem_descriptor_ptr_list_print : ListRef → Printer
sem_descriptor_ptr_list_print l =
    print_list sem_descriptor_ptrs l (text "[" ∷ [])
      (λ aux. do
        ptr ← load sem_descriptor_ptrs aux
        d ← load sem_descriptors ptr.descriptor
        pcb ← load pcbs d.pcb
        r ← load semaphores d.semaphore
        print (
            text "(pid: "
            ∷ number d.fd
            ∷ text ", fd: "
            ∷ number pcb.pid
            ∷ text ", rid:"
            ∷ number r.id
            ∷ text ")"
            ∷ []))
      (text ", " ∷ []) [] (text "]" ∷ [])

-- `Semaphore_print`, which prints the two lists with `DescriptorPtrList_print`.
unfoldable pub semaphore_print : ℕ → Printer
semaphore_print r = do
  sem ← load semaphores r
  print (text "id: " ∷ number sem.id ∷ text ", count:" ∷ number sem.count ∷ text ", pids:" ∷ [])
  descriptor_ptr_list_print semaphore_overlay (openers_of r)
  print_text "waiting: "
  descriptor_ptr_list_print semaphore_overlay (waiters_of r)

-- `SemaphoreList_print`
unfoldable pub semaphore_list_print : ListRef → Printer
semaphore_list_print l =
    print_list semaphores l (text "{\n" ∷ []) (λ aux. do print_text "\t"; semaphore_print aux)
      (text "," ∷ []) (text "\n" ∷ []) (text "}\n" ∷ [])

-- `disastrOS_printStatus`
unfoldable pub print_status : Printer
print_status = do
  print_text "****************** DisastrOS ******************\n"
  print_text "Running: "
  running ← running_pcb
  if running == null then print [] else pcb_print running
  print_text "\n"
  print_text "Timers: "
  timer_list_print timer_list
  print_text "\nResources: "
  resource_list_print resources_list
  print_text "\nSemaphores: "
  semaphore_list_print semaphores_list
  print_text "\nReady: "
  pcb_list_print ready_list
  print_text "\nWaiting: "
  pcb_list_print waiting_list
  print_text "\nZombie: "
  pcb_list_print zombie_list
  print_text "\n***********************************************\n\n"
