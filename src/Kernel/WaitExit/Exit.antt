-- ===== src/Kernel/WaitExit/Exit.antt =====
-- `internal_exit` of disastrOS_exit.c for a process whose parent does not wait for it.
mod Tests
use Prim.Native.Nat.{bit_and, bit_or}
use disastr_os_semaphores.PoolAllocator.{narrow}
use disastr_os_semaphores.Base.{
  ℕ, ◌<◌, ◌≡◌, ◌≢◌, refl, sym, ap, ◌∙◌, false, List, [], ◌∷◌, ◌++◌, arith, ◌==◌, ==_ne, ==_self,
  length, ok,
}
use disastr_os_semaphores.Base.Int.{ℤ}
use disastr_os_semaphores.LinkedList.{ListHead, null}
use disastr_os_semaphores.Kernel.{System, Pcb}
use disastr_os_semaphores.Kernel
use disastr_os_semaphores.Kernel.Constants.{sigchld}
use disastr_os_semaphores.Kernel.Cmd.{pcbs, modified, rounds, list_insert, list_detach}
use disastr_os_semaphores.Kernel.Lists.{zombie_list, ready_list}
use disastr_os_semaphores.Kernel.Families.{
  Holds, Holds-frame, Loose, append-Holds, append-Loose, pop-Holds, inserted, detached,
}
use disastr_os_semaphores.Kernel.Queues.{
  ready, zombie, queues, queue_table, queue-owned, queues-frame, ready-IsUpdate, zombie-IsUpdate,
}
use disastr_os_semaphores.Kernel.Children.{child_table}
use disastr_os_semaphores.Kernel.Rules.{
  write_at-same, load-ok, modify-ok, argument-ok, int_argument-ok, set_status-ok,
}
use disastr_os_semaphores.Kernel.WaitExit.{awaits, reparent, exit_to_next, internal_exit}
use disastr_os_semaphores.Kernel.WaitExit.Wait.{AllLead}
use disastr_os_semaphores.Kernel.WaitExit.Alike.{Alike, Alike-then, Alike-signals}
use disastr_os_semaphores.Kernel.WaitExit.Orphans.{Orphaned, AllLead-frame, reparent_lem}
use disastr_os_semaphores.Kernel.WaitExit.Bury.{
  valued, entombed, signalled, succeeded, left, bury_step, next_step, exit_to_next-ok,
}

awaits-Alike : (p q : Pcb) (n : ℤ) → Alike p q → awaits q n ≡ awaits p n
awaits-Alike p q n a = rw (a.status, a.syscall_num, a.syscall_args) refl

-- From `s` to `t` the running process has become a zombie, its children have gone to `init`, and the
-- first ready process `r` runs.
pub record Exited (s t : System) (lists lists' : ℕ → List ℕ) (r : ℕ) (rs ws zs : List ℕ)
    : Type 0 where
  pub runs : t.running ≡ r
  pub queued : Holds queue_table (queues rs ws (zs ++ s.running ∷ [])) t
  pub dequeued : Loose queue_table (queues rs ws (zs ++ s.running ∷ [])) r t
  pub status : (t.pcbs.at r).status ≡ Kernel.running
  pub zombie : (t.pcbs.at s.running).status ≡ Kernel.zombie
  pub value : (t.pcbs.at s.running).return_value ≡ narrow ((s.pcbs.at s.running).syscall_args 0)
  pub children : Holds child_table lists' t
  pub childless : lists' s.running ≡ []
  pub adopted : lists' s.init_pcb ≡ lists s.init_pcb ++ lists s.running
  pub others : (p : ℕ) → p ≢ s.running → p ≢ s.init_pcb → lists' p ≡ lists p

module _ (s : System) (r : ℕ) (rs ws zs : List ℕ) (lists : ℕ → List ℕ)
    (some_init : s.init_pcb ≢ null) (ordinary : s.running ≢ s.init_pcb)
    (some_parent : (s.pcbs.at s.running).parent ≢ null)
    (other_parent : (s.pcbs.at s.running).parent ≢ s.running)
    (holds : Holds queue_table (queues (r ∷ rs) ws zs) s)
    (loose : Loose queue_table (queues (r ∷ rs) ws zs) s.running s)
    (family : Holds child_table lists s) (leads : AllLead s (lists s.running))
    (unawaited : awaits (s.pcbs.at (s.pcbs.at s.running).parent) (s.pcbs.at s.running).pid
      ≡ false) where
  abbrev me : ℕ
  me = s.running

  abbrev parent : ℕ
  parent = (s.pcbs.at s.running).parent

  heads : (p : ℕ) → ((valued s).pcbs.at p).children ≡ (s.pcbs.at p).children
  heads = write_at-same (λ (p : Pcb). p.children) s.pcbs.at me _ refl

  orphaned :
      (t : System) × (lists' : ℕ → List ℕ) × (reparent (rounds (s.pcbs.at me).children) (valued s)
        ≡ ok (tt, t))
      × Orphaned (valued s) t lists lists' (lists me)
  orphaned =
      let enough : length (lists me) < rounds (s.pcbs.at me).children =
        let size = (family.each me).size in ground arith in
      reparent_lem (valued s) (lists me) lists _ loose.some_item some_init ordinary
        (Holds-frame child_table s (valued s) refl heads family) refl
        (AllLead-frame s (valued s) (lists me) refl leads) enough

  module _ (u : System) (lists' : ℕ → List ℕ)
      (o : Orphaned (valued s) u lists lists' (lists me)) where
    u-Holds : Holds queue_table (queues (r ∷ rs) ws zs) u
    u-Holds = queues-frame s u o.links o.ready_list o.waiting_list o.zombie_list holds

    u-Loose : Loose queue_table (queues (r ∷ rs) ws zs) me u
    u-Loose = record {
      some_item = loose.some_item;
      outside = loose.outside;
      unlinked = ap (λ l. l me) o.links ∙ loose.unlinked;
    }

    abbrev last : System
    last = left u me parent r rs ws zs u-Holds u-Loose

    ne : (parent == me) ≡ false
    ne = ==_ne parent me other_parent

    still_unawaited : awaits (last.pcbs.at parent) (s.pcbs.at me).pid ≡ false
    still_unawaited =
        awaits-Alike ((valued s).pcbs.at parent) (last.pcbs.at parent) (s.pcbs.at me).pid (
          Alike-then _ _ _ (o.alike parent) (rw (==_self, ne) (Alike-signals (u.pcbs.at parent) _)))
        ∙ (rw ne unawaited)

    exit-ok :
        reparent (rounds (s.pcbs.at me).children) (valued s) ≡ ok (tt, u)
        → internal_exit s ≡ ok (tt, succeeded r rs last)
    unfolding internal_exit
    exit-ok e =
        rw
          (
            int_argument-ok s loose.some_item 0,
            modify-ok pcbs me s loose.some_item,
            ==_ne s.init_pcb null some_init,
            load-ok pcbs me (valued s) loose.some_item,
            ==_self,
            e,
            set_status-ok me Kernel.zombie u loose.some_item,
            (bury_step u me parent r rs ws zs u-Holds u-Loose).0,
            modify-ok pcbs parent (entombed me zs u) some_parent,
            load-ok pcbs parent last some_parent,
            still_unawaited,
          )
          (exit_to_next-ok u me parent r rs ws zs u-Holds u-Loose)

    abbrev after : System
    after = succeeded r rs last

    abbrev children : Pcb → ListHead
    children p = p.children

    kept : (p : ℕ) → (after.pcbs.at p).children ≡ (u.pcbs.at p).children
    kept p =
        write_at-same children last.pcbs.at r _ refl p
        ∙ write_at-same children (entombed me zs u).pcbs.at parent _ refl p
        ∙ write_at-same children u.pcbs.at me _ refl p

    distinct : (me == r) ≡ false
    distinct = ==_ne me r (λ e. let out = loose.outside ready in absurd (ground (arith, e)))

    not_parent : (me == parent) ≡ false
    not_parent = ==_ne me parent (λ e. other_parent (sym e))

    exited : Exited s after lists lists' r rs ws zs
    exited =
        let next = next_step u me parent r rs ws zs u-Holds u-Loose in
        record {
          runs = refl;
          queued = queues-frame (detached ready_list [] rs r last) after refl refl refl refl next.1;
          dequeued = record {
            some_item = next.2.some_item;
            outside = next.2.outside;
            unlinked = next.2.unlinked;
          };
          status = rw ==_self refl;
          zombie = rw (distinct, not_parent, ==_self) refl;
          value = rw (distinct, not_parent, ==_self) ((o.alike me).return_value ∙ rw ==_self refl);
          children = Holds-frame child_table u after refl kept o.holds;
          childless = o.mine;
          adopted = o.adopted;
          others = o.others;
        }

  -- Where `init` exists and is not the running process, the running process has another process as
  -- its parent, which does not wait for it, the queues and the lists of children are well formed, the
  -- running process is in no queue, each pointer to a child of it leads to a process, and `r` is the
  -- first ready process, `internal_exit` ends without a fault. The process is a zombie, the last of
  -- the list of zombies, and keeps the value that it left, as an `int`; its children are children of `init`, in
  -- their order and behind those it had, and the other lists of children are as they were; `r` is
  -- Running and in no queue.
  pub exit_lem :
      (t : System) × (lists' : ℕ → List ℕ) × (internal_exit s ≡ ok (tt, t))
      × Exited s t lists lists' r rs ws zs
  exit_lem =
      let (u, lists', e, o) = orphaned in
      (after u lists' o, lists', exit-ok u lists' o e, exited u lists' o)
