-- ===== src/Kernel/Queues.antt =====
-- The queues that PCBs are in, as a family of lists.
use disastr_os_semaphores.Base.{ℕ, ◌≡◌, ◌≢◌, refl, List, arith}
use disastr_os_semaphores.LinkedList.{Links, ListHead, null}
use disastr_os_semaphores.LinkedList.Family.{IsUpdate}
use disastr_os_semaphores.Kernel.{System}
use disastr_os_semaphores.Kernel.Cmd.{ListRef}
use disastr_os_semaphores.Kernel.Lists.{ready_list, waiting_list, zombie_list}
use disastr_os_semaphores.Kernel.Families.{ListTable, Holds, Holds-frame}

-- The queues that PCBs are in.
pub data Queue : Type 0 where
  ready waiting zombie : Queue

pub Queue-discrete : Discrete Queue
Queue-discrete = hlevel

abbrev pub queue : Queue → ListRef
queue ready = ready_list
queue waiting = waiting_list
queue zombie = zombie_list

abbrev pub queue_head : System → Queue → ListHead
queue_head s q = (queue q).head s

abbrev pub Queues : Type 0
Queues = Queue → List ℕ

abbrev pub queues : (rs ws zs : List ℕ) → Queues
queues rs ws zs ready = rs
queues rs ws zs waiting = ws
queues rs ws zs zombie = zs

pub ready-IsUpdate : (rs ws zs xs : List ℕ) → IsUpdate (queues rs ws zs) (queues xs ws zs) ready xs
ready-IsUpdate rs ws zs xs = record { here = refl; there = go }
  where
    go : (j : Queue) → j ≢ ready → queues xs ws zs j ≡ queues rs ws zs j
    go ready ne = absurd (ne refl)
    go waiting ne = refl
    go zombie ne = refl

pub waiting-IsUpdate :
    (rs ws zs xs : List ℕ) → IsUpdate (queues rs ws zs) (queues rs xs zs) waiting xs
waiting-IsUpdate rs ws zs xs = record { here = refl; there = go }
  where
    go : (j : Queue) → j ≢ waiting → queues rs xs zs j ≡ queues rs ws zs j
    go ready ne = refl
    go waiting ne = absurd (ne refl)
    go zombie ne = refl

pub zombie-IsUpdate :
    (rs ws zs xs : List ℕ) → IsUpdate (queues rs ws zs) (queues rs ws xs) zombie xs
zombie-IsUpdate rs ws zs xs = record { here = refl; there = go }
  where
    go : (j : Queue) → j ≢ zombie → queues rs ws xs j ≡ queues rs ws zs j
    go ready ne = refl
    go waiting ne = refl
    go zombie ne = absurd (ne refl)

-- A change of one head changes no other.
pub queue-IsUpdate :
    (s : System) (k : Queue) (l : Links) (h : ListHead)
    → IsUpdate (queue_head s) (queue_head ((queue k).with_list l h s)) k h
queue-IsUpdate s ready l h = record { here = refl; there = go }
  where
    go : (j : Queue) → j ≢ ready → queue_head (ready_list.with_list l h s) j ≡ queue_head s j
    go ready ne = absurd (ne refl)
    go waiting ne = refl
    go zombie ne = refl
queue-IsUpdate s waiting l h = record { here = refl; there = go }
  where
    go : (j : Queue) → j ≢ waiting → queue_head (waiting_list.with_list l h s) j ≡ queue_head s j
    go ready ne = refl
    go waiting ne = absurd (ne refl)
    go zombie ne = refl
queue-IsUpdate s zombie l h = record { here = refl; there = go }
  where
    go : (j : Queue) → j ≢ zombie → queue_head (zombie_list.with_list l h s) j ≡ queue_head s j
    go ready ne = refl
    go waiting ne = refl
    go zombie ne = absurd (ne refl)

pub queue-shared : (k : Queue) (s : System) → (queue k).links s ≡ s.pcbs.links
queue-shared ready s = refl
queue-shared waiting s = refl
queue-shared zombie s = refl

pub queue-stored :
    (k : Queue) (l : Links) (h : ListHead) (s : System) → ((queue k).with_list l h s).pcbs.links ≡ l
queue-stored ready l h s = refl
queue-stored waiting l h s = refl
queue-stored zombie l h s = refl

abbrev pub queue_table : ListTable Queue
queue_table = record {
  dec = Queue-discrete;
  ref = queue;
  links = λ s. s.pcbs.links;
  shared = queue-shared;
  stored = queue-stored;
  headed = λ k l h s. queue-IsUpdate s k l h;
}

pub queue-owned : (k : Queue) → (queue k).owner ≢ null
queue-owned ready e = absurd (omega arith)
queue-owned waiting e = absurd (omega arith)
queue-owned zombie e = absurd (omega arith)

pub queues-frame :
    (s s' : System) {lists : Queues}
    → s'.pcbs.links ≡ s.pcbs.links
    → s'.ready_list ≡ s.ready_list
    → s'.waiting_list ≡ s.waiting_list
    → s'.zombie_list ≡ s.zombie_list
    → Holds queue_table lists s
    → Holds queue_table lists s'
queues-frame s s' el er ew ez = Holds-frame queue_table s s' el go
  where
    go : (k : Queue) → (queue k).head s' ≡ (queue k).head s
    go ready = er
    go waiting = ew
    go zombie = ez
