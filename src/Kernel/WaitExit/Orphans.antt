-- ===== src/Kernel/WaitExit/Orphans.antt =====
-- The first loop of `internal_exit` of disastrOS_exit.c: the children go to `init`.
use Prim.Native.Nat.{bit_and, bit_or}
use native.Mathlib.Decide.{ℕ_discrete}
use disastr_os_semaphores.Base.{
  ℕ, zero, suc, ◌<◌, ◌≡◌, ◌≢◌, refl, sym, ap, ◌∙◌, List, [], ◌∷◌, ◌++◌, append_assoc, append-nil,
  arith, ◌==◌, ==_ne, ==_self, length, ok, head_or,
}
use disastr_os_semaphores.LinkedList.{null}
use disastr_os_semaphores.LinkedList.Family.{update, update-IsUpdate}
use disastr_os_semaphores.Kernel.{System}
use disastr_os_semaphores.Kernel.Constants.{sighup}
use disastr_os_semaphores.Kernel.Cmd.{pcbs, pcb_ptrs, modified, list_detach, list_insert}
use disastr_os_semaphores.Kernel.Lists.{children_of}
use disastr_os_semaphores.Kernel.Families.{
  Holds, Holds-frame, Loose, append-Holds, pop-Holds, inserted, detached,
}
use disastr_os_semaphores.Kernel.Children.{child_table}
use disastr_os_semaphores.Kernel.Rules.{load-ok, modify-ok}
use disastr_os_semaphores.Kernel.WaitExit.{reparent}
use disastr_os_semaphores.Kernel.WaitExit.Wait.{child, AllLead}
use disastr_os_semaphores.Kernel.WaitExit.Alike.{
  Alike, Alike-self, Alike-then, Alike-write_at, Alike-children, Alike-signals,
}

-- From `s` to `t` the children `cs` of the running process went to `init`, behind those it had.
pub record Orphaned (s t : System) (lists lists' : ℕ → List ℕ) (cs : List ℕ) : Type 0 where
  pub mine : lists' s.running ≡ []
  pub adopted : lists' s.init_pcb ≡ lists s.init_pcb ++ cs
  pub others : (p : ℕ) → p ≢ s.running → p ≢ s.init_pcb → lists' p ≡ lists p
  pub holds : Holds child_table lists' t
  pub alike : (a : ℕ) → Alike (s.pcbs.at a) (t.pcbs.at a)
  pub running : t.running ≡ s.running
  pub init_pcb : t.init_pcb ≡ s.init_pcb
  pub links : t.pcbs.links ≡ s.pcbs.links
  pub ready_list : t.ready_list ≡ s.ready_list
  pub waiting_list : t.waiting_list ≡ s.waiting_list
  pub zombie_list : t.zombie_list ≡ s.zombie_list

-- One round, for the child at `x`.
module _ (s : System) (x : ℕ) (xs : List ℕ) (lists : ℕ → List ℕ) (some_running : s.running ≢ null)
    (some_init : s.init_pcb ≢ null) (ordinary : s.running ≢ s.init_pcb)
    (holds : Holds child_table lists s) (mine : lists s.running ≡ x ∷ xs)
    (leads : child s x ≢ null) where
  abbrev left : ℕ → List ℕ
  left = update ℕ_discrete lists s.running xs

  abbrev given : ℕ → List ℕ
  given = update ℕ_discrete left s.init_pcb (left s.init_pcb ++ x ∷ [])

  abbrev orphan : System
  orphan = detached (children_of s.running) [] xs x s

  abbrev moved : System
  moved = inserted (children_of s.init_pcb) (left s.init_pcb) [] x orphan

  abbrev pub hung : System
  hung =
      modified pcbs (child s x)
        (λ p. record p { signals = bit_or p.signals (bit_and sighup p.signals_mask) }) moved

  pop_step :
      (list_detach (children_of s.running) (s.pcbs.at s.running).children.first s ≡ ok (x, orphan))
      × Holds child_table left orphan
      × Loose child_table left x orphan
  pop_step =
      pop-Holds child_table s s.running some_running holds x xs mine
        (update-IsUpdate ℕ_discrete lists s.running xs)

  push_step :
      (list_insert (children_of s.init_pcb) (orphan.pcbs.at s.init_pcb).children.last x orphan
        ≡ ok (x, moved))
      × Holds child_table given moved
  push_step =
      append-Holds child_table orphan s.init_pcb some_init pop_step.1 x pop_step.2
        (update-IsUpdate ℕ_discrete left s.init_pcb (left s.init_pcb ++ x ∷ []))

  some_head : (s.pcbs.at s.running).children.first ≢ null
  some_head e =
      pop_step.2.some_item (sym ((holds.each s.running).first ∙ ap (λ l. head_or l null) mine) ∙ e)

  pub round-hung : (fuel : ℕ) → reparent (suc fuel) s ≡ reparent fuel hung
  unfolding reparent
  round-hung fuel =
      rw
        (
          ==_ne s.running null some_running,
          ==_ne _ null some_head,
          pop_step.0,
          ==_ne x null pop_step.2.some_item,
          ==_ne s.init_pcb null some_init,
          push_step.0,
          load-ok pcb_ptrs x moved pop_step.2.some_item,
          modify-ok pcbs (child s x) moved leads,
        )
        refl

  heads : (p : ℕ) → (hung.pcbs.at p).children ≡ (moved.pcbs.at p).children
  heads p = elim (ℕ_discrete p (child s x)) [
    | yes e ↦ rw (e, ==_self) refl
    | no ne ↦ rw (==_ne p (child s x) ne) refl
  ]

  pub hung-Holds : Holds child_table given hung
  hung-Holds = Holds-frame child_table moved hung refl heads push_step.1

  pub hung-Alike : (a : ℕ) → Alike (s.pcbs.at a) (hung.pcbs.at a)
  hung-Alike a =
      Alike-then (s.pcbs.at a) (moved.pcbs.at a) (hung.pcbs.at a)
        (Alike-then (s.pcbs.at a) (orphan.pcbs.at a) (moved.pcbs.at a)
          (Alike-write_at s.pcbs.at s.running _ (Alike-children (s.pcbs.at s.running) _) a)
          (Alike-write_at orphan.pcbs.at s.init_pcb _ (Alike-children (orphan.pcbs.at s.init_pcb) _)
            a))
        (Alike-write_at moved.pcbs.at (child s x) _ (Alike-signals (moved.pcbs.at (child s x)) _) a)

  pub given-mine : given s.running ≡ xs
  given-mine =
      (update-IsUpdate ℕ_discrete left s.init_pcb _).there s.running ordinary
      ∙ (update-IsUpdate ℕ_discrete lists s.running xs).here

  pub given-init : given s.init_pcb ≡ lists s.init_pcb ++ x ∷ []
  given-init =
      (update-IsUpdate ℕ_discrete left s.init_pcb _).here
      ∙ ap (λ l. l ++ x ∷ [])
          ((update-IsUpdate ℕ_discrete lists s.running xs).there s.init_pcb (λ e. ordinary (sym e)))

  pub given-others : (p : ℕ) → p ≢ s.running → p ≢ s.init_pcb → given p ≡ lists p
  given-others p not_me not_init =
      (update-IsUpdate ℕ_discrete left s.init_pcb _).there p not_init
      ∙ (update-IsUpdate ℕ_discrete lists s.running xs).there p not_me

-- The children lead to a process in each state with the same pointers.
pub AllLead-frame :
    (s t : System) (cs : List ℕ) → t.pcb_ptrs.at ≡ s.pcb_ptrs.at → AllLead s cs → AllLead t cs
AllLead-frame s t [] e leads = tt
AllLead-frame s t (c ∷ cs) e leads = (rw e leads.0, AllLead-frame s t cs e leads.1)

-- Where the lists of children are well formed, `init` exists and is not the running process, and each
-- child's pointer leads to a process, the loop ends, and all children of the running process are
-- children of `init`, in their order and behind those it had.
pub reparent_lem :
    (s : System) (cs : List ℕ) (lists : ℕ → List ℕ) (fuel : ℕ)
    → s.running ≢ null
    → s.init_pcb ≢ null
    → s.running ≢ s.init_pcb
    → Holds child_table lists s
    → lists s.running ≡ cs
    → AllLead s cs
    → length cs < fuel
    → (t : System) × (lists' : ℕ → List ℕ) × (reparent fuel s ≡ ok (tt, t))
      × Orphaned s t lists lists' cs
unfolding reparent
reparent_lem s cs lists zero some_running some_init ordinary holds mine leads enough =
    absurd (omega arith)
reparent_lem s [] lists (suc fuel) some_running some_init ordinary holds mine leads enough =
    let none_first = (holds.each s.running).first ∙ ap (λ l. head_or l null) mine in
    (
      s,
      lists,
      rw (==_ne s.running null some_running, ap (λ p. p == null) none_first) refl,
      record {
        mine = mine;
        adopted = sym (append-nil (lists s.init_pcb));
        others = λ p a b. refl;
        holds = holds;
        alike = λ a. Alike-self (s.pcbs.at a);
        running = refl;
        init_pcb = refl;
        links = refl;
        ready_list = refl;
        waiting_list = refl;
        zombie_list = refl;
      },
    )
reparent_lem s (x ∷ xs) lists (suc fuel) some_running some_init ordinary holds mine leads enough =
    let next = hung s x xs lists some_running some_init ordinary holds mine leads.0 in
    let rest =
      reparent_lem next xs _ fuel some_running some_init ordinary
        (hung-Holds s x xs lists some_running some_init ordinary holds mine leads.0)
        (given-mine s x xs lists some_running some_init ordinary holds mine leads.0)
        (AllLead-frame s next xs refl leads.1) (omega arith) in
    (
      rest.0,
      rest.1,
      round-hung s x xs lists some_running some_init ordinary holds mine leads.0 fuel ∙ rest.2,
      record {
        mine = rest.3.mine;
        adopted =
            rest.3.adopted
            ∙ ap (λ l. l ++ xs)
                (given-init s x xs lists some_running some_init ordinary holds mine leads.0)
            ∙ append_assoc (lists s.init_pcb) (x ∷ []) xs;
        others = λ p a b.
            rest.3.others p a b
            ∙ given-others s x xs lists some_running some_init ordinary holds mine leads.0 p a b;
        holds = rest.3.holds;
        alike = λ a.
            Alike-then _ _ _
              (hung-Alike s x xs lists some_running some_init ordinary holds mine leads.0 a)
              (rest.3.alike a);
        running = rest.3.running;
        init_pcb = rest.3.init_pcb;
        links = rest.3.links;
        ready_list = rest.3.ready_list;
        waiting_list = rest.3.waiting_list;
        zombie_list = rest.3.zombie_list;
      },
    )
