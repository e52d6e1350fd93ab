-- ===== src/Kernel/Printing/View.antt =====
-- What the status of the kernel is, given the lists that its heads stand for: a description of the
-- output of `disastrOS_printStatus` without pointers and loops.
use disastr_os_semaphores.Base.{ℕ, ◌≢◌, List, [], ◌∷◌, ◌++◌, All, ◌==◌, if◌then◌else◌}
use disastr_os_semaphores.LinkedList.{null}
use disastr_os_semaphores.LinkedList.Chain.{IsList}
use disastr_os_semaphores.Kernel.{System}
use disastr_os_semaphores.Kernel.Printing.{Piece, text, number}
use disastr_os_semaphores.Kernel.Printing.Joined.{joined}
use disastr_os_semaphores.Kernel.Printing.Objects.{Overlay, resource_overlay, semaphore_overlay}

-- The lists of the kernel as lists of addresses; those inside a structure by its address.
pub record View : Type 0 where
  pub timers : List ℕ
  pub resources : List ℕ
  pub semaphores : List ℕ
  pub ready : List ℕ
  pub waiting : List ℕ
  pub zombie : List ℕ
  pub children : ℕ → List ℕ
  pub users : ℕ → List ℕ
  pub openers : ℕ → List ℕ
  pub waiters : ℕ → List ℕ

abbrev pub shown_timer : System → ℕ → List Piece
shown_timer s x =
    text "(pid:"
    ∷ number (s.pcbs.at (s.timer_items.at x).pcb).pid
    ∷ text ", t:"
    ∷ number (s.timer_items.at x).awakening_time
    ∷ text ")"
    ∷ []

abbrev pub shown_child : System → ℕ → List Piece
shown_child s x = number (s.pcbs.at (s.pcb_ptrs.at x).pcb).pid ∷ []

abbrev pub shown_children : System → List ℕ → List Piece
shown_children s cs = text "(" ∷ joined (shown_child s) (text ", " ∷ []) [] cs ++ text ")" ∷ []

abbrev pub shown_pcb : View → System → ℕ → List Piece
shown_pcb v s p =
    text "[pid: " ∷ number (s.pcbs.at p).pid ∷ text ", child: " ∷ shown_children s (v.children p)
    ++ text "]" ∷ []

abbrev pub shown_ptr : {P D R : Type 0} → Overlay P D R → System → ℕ → List Piece
shown_ptr o s x =
    let d = (o.opened.store s).at (o.descriptor ((o.ptrs.store s).at x)) in
    text "(pid: "
    ∷ number (s.pcbs.at (o.pcb d)).pid
    ∷ text ", fd: "
    ∷ number (o.fd d)
    ∷ text ", rid:"
    ∷ number (o.id ((o.objects.store s).at (o.resource d)))
    ∷ text ")"
    ∷ []

abbrev pub shown_ptrs : {P D R : Type 0} → Overlay P D R → System → List ℕ → List Piece
shown_ptrs o s xs = text "[" ∷ joined (shown_ptr o s) (text ", " ∷ []) [] xs ++ text "]" ∷ []

abbrev pub shown_resource : View → System → ℕ → List Piece
shown_resource v s r =
    text "id: "
    ∷ number (s.resources.at r).id
    ∷ text ", type:"
    ∷ number (s.resources.at r).type
    ∷ text ", pids:"
    ∷ shown_ptrs resource_overlay s (v.users r)

abbrev pub shown_semaphore : View → System → ℕ → List Piece
shown_semaphore v s r =
    text "id: "
      ∷ number (s.semaphores.at r).id
      ∷ text ", count:"
      ∷ number (s.semaphores.at r).count
      ∷ text ", pids:"
      ∷ shown_ptrs semaphore_overlay s (v.openers r)
    ++ text "waiting: " ∷ shown_ptrs semaphore_overlay s (v.waiters r)

-- Items of a list of objects, one in a line.
abbrev pub shown_objects : (ℕ → List Piece) → List ℕ → List Piece
shown_objects shown xs =
    text "{\n" ∷ joined (λ p. text "\t" ∷ shown p) (text "," ∷ []) (text "\n" ∷ []) xs
    ++ text "}\n" ∷ []

abbrev pub shown_running : View → System → List Piece
shown_running v s = if s.running == null then [] else shown_pcb v s s.running

abbrev pub shown_timers : System → List ℕ → List Piece
shown_timers s ts = text "[" ∷ joined (shown_timer s) (text ", " ∷ []) [] ts ++ text "]" ∷ []

abbrev glued : List (List Piece) → List Piece
glued [] = []
glued (p ∷ ps) = p ++ glued ps

abbrev pub shown_status : View → System → List Piece
shown_status v s = glued (
    (text "****************** DisastrOS ******************\n" ∷ text "Running: " ∷ [])
    ∷ shown_running v s
    ∷ (text "\n" ∷ text "Timers: " ∷ [])
    ∷ shown_timers s v.timers
    ∷ (text "\nResources: " ∷ [])
    ∷ shown_objects (shown_resource v s) v.resources
    ∷ (text "\nSemaphores: " ∷ [])
    ∷ shown_objects (shown_semaphore v s) v.semaphores
    ∷ (text "\nReady: " ∷ [])
    ∷ shown_objects (shown_pcb v s) v.ready
    ∷ (text "\nWaiting: " ∷ [])
    ∷ shown_objects (shown_pcb v s) v.waiting
    ∷ (text "\nZombie: " ∷ [])
    ∷ shown_objects (shown_pcb v s) v.zombie
    ∷ (text "\n***********************************************\n\n" ∷ [])
    ∷ [])

-- A pointer to a descriptor leads to a descriptor with a process and an object.
pub record Leads {P D R : Type 0} (o : Overlay P D R) (s : System) (x : ℕ) : Type 0 where
  pub descriptor : o.descriptor ((o.ptrs.store s).at x) ≢ null
  pub pcb : o.pcb ((o.opened.store s).at (o.descriptor ((o.ptrs.store s).at x))) ≢ null
  pub object : o.resource ((o.opened.store s).at (o.descriptor ((o.ptrs.store s).at x))) ≢ null

-- Each of a list of timers, or of children, leads to a process.
abbrev pub Timed : System → List ℕ → Type 0
Timed s = All (λ x. (s.timer_items.at x).pcb ≢ null)

abbrev pub Begotten : System → List ℕ → Type 0
Begotten s = All (λ x. (s.pcb_ptrs.at x).pcb ≢ null)

-- In the state `s` the lists of the kernel are those of the view, and the pointers of their items
-- are not NULL.
pub record IsView (v : View) (s : System) : Type 0 where
  pub timers : IsList s.timer_items.links s.timer_list v.timers × Timed s v.timers
  pub resources : IsList s.resources.links s.resources_list v.resources
  pub semaphores : IsList s.semaphores.links s.semaphores_list v.semaphores
  pub ready : IsList s.pcbs.links s.ready_list v.ready
  pub waiting : IsList s.pcbs.links s.waiting_list v.waiting
  pub zombie : IsList s.pcbs.links s.zombie_list v.zombie
  pub children :
      (p : ℕ)
      → IsList s.pcb_ptrs.links (s.pcbs.at p).children (v.children p) × Begotten s (v.children p)
  pub users :
      (r : ℕ)
      → IsList s.descriptor_ptrs.links (s.resources.at r).descriptors (v.users r)
        × All (Leads resource_overlay s) (v.users r)
  pub openers :
      (r : ℕ)
      → IsList s.sem_descriptor_ptrs.links (s.semaphores.at r).descriptors (v.openers r)
        × All (Leads semaphore_overlay s) (v.openers r)
  pub waiters :
      (r : ℕ)
      → IsList s.sem_descriptor_ptrs.links (s.semaphores.at r).waiting_descriptors (v.waiters r)
        × All (Leads semaphore_overlay s) (v.waiters r)
