-- ===== src/Kernel/Printing/Status.antt =====
-- `disastrOS_printStatus` of disastrOS.c prints the status of the kernel.
use disastr_os_semaphores.Base.{
  ℕ, ◌≡◌, ◌≢◌, refl, List, [], ◌∷◌, arith, Bool-cases, inl, inr, ok, All, ◌==◌, if◌then◌else◌,
}
use disastr_os_semaphores.LinkedList.{Links, null}
use disastr_os_semaphores.LinkedList.Chain.{IsList, Chain}
use disastr_os_semaphores.Kernel.{System}
use disastr_os_semaphores.Kernel.Cmd.{
  Table, ListRef, pcbs, pcb_ptrs, timer_items, resources, semaphores,
}
use disastr_os_semaphores.Kernel.Lists.{
  ready_list, waiting_list, zombie_list, timer_list, resources_list, semaphores_list, children_of,
  users_of, openers_of, waiters_of,
}
use disastr_os_semaphores.Kernel.Rules.{load-ok}
use disastr_os_semaphores.Kernel.Printing.{
  Piece, text, timer_entry, child_entry, print, print_text, ◌>>◌, print_list, Printer,
  timer_list_print, pcb_ptr_list_print, pcb_print, pcb_list_print,
}
use disastr_os_semaphores.Kernel.Printing.Joined.{print_list-joined}
use disastr_os_semaphores.Kernel.Printing.Objects.{
  Overlay, ptr_entry, resource_overlay, semaphore_overlay, descriptor_ptr_list_print,
  resource_print, resource_list_print, semaphore_print, semaphore_list_print, print_status,
}
use disastr_os_semaphores.Kernel.Printing.View.{
  View, IsView, Leads, Timed, Begotten, shown_timer, shown_timers, shown_child, shown_children,
  shown_pcb, shown_ptr, shown_ptrs, shown_resource, shown_semaphore, shown_objects, shown_running,
  shown_status,
}

module _ (s : System) where
  -- Each item of a list is printed as it should be, if each item is that is not NULL.
  entries :
      {P : ℕ → Type 0} (entry : ℕ → Printer) (shown : ℕ → List Piece) (l : Links) (p : ℕ)
      (xs : List ℕ)
      → ((x : ℕ) → x ≢ null → P x → entry x s ≡ ok (shown x))
      → Chain l p xs null
      → All P xs
      → All (λ x. entry x s ≡ ok (shown x)) xs
  entries entry shown l p [] prints c a = tt
  entries entry shown l p (x ∷ xs) prints c a =
      (prints x c.0 a.0, entries entry shown l x xs prints c.2 a.1)

  anywhere : (xs : List ℕ) → All (λ _. Unit {0}) xs
  anywhere [] = tt
  anywhere (x ∷ xs) = (tt, anywhere xs)

  timers_lem :
      (ts : List ℕ)
      → IsList s.timer_items.links s.timer_list ts
      → Timed s ts
      → timer_list_print timer_list s ≡ ok (shown_timers s ts)
  unfolding timer_list_print
  timers_lem ts is timed =
      print_list-joined timer_items timer_entry (shown_timer s) _ _ s timer_list _ _ ts
        (λ e. absurd (omega arith)) refl is
        (entries timer_entry (shown_timer s) _ null ts
          (λ x some_x some_pcb. rw (load-ok timer_items x s some_x, load-ok pcbs _ s some_pcb) refl)
          is.chain timed)

  children_lem :
      (p : ℕ) (cs : List ℕ)
      → p ≢ null
      → IsList s.pcb_ptrs.links (s.pcbs.at p).children cs
      → Begotten s cs
      → pcb_ptr_list_print (children_of p) s ≡ ok (shown_children s cs)
  unfolding pcb_ptr_list_print
  children_lem p cs some_p is begotten =
      print_list-joined pcb_ptrs child_entry (shown_child s) _ _ s (children_of p) _ _ cs some_p
        refl is
        (entries child_entry (shown_child s) _ null cs
          (λ x some_x some_pcb. rw (load-ok pcb_ptrs x s some_x, load-ok pcbs _ s some_pcb) refl)
          is.chain begotten)

  ptrs_lem :
      {P D R : Type 0} (o : Overlay P D R) (l : ListRef) (xs : List ℕ)
      → l.owner ≢ null
      → l.links s ≡ (o.ptrs.store s).links
      → IsList (l.links s) (l.head s) xs
      → All (Leads o s) xs
      → descriptor_ptr_list_print o l s ≡ ok (shown_ptrs o s xs)
  unfolding descriptor_ptr_list_print
  ptrs_lem o l xs owned shared is leads =
      print_list-joined o.ptrs (ptr_entry o) (shown_ptr o s) _ _ s l _ _ xs owned shared is (
        entries (ptr_entry o) (shown_ptr o s) _ null xs
          (λ x some_x lead.
            rw
              (
                load-ok o.ptrs x s some_x,
                load-ok o.opened _ s lead.descriptor,
                load-ok pcbs _ s lead.pcb,
                load-ok o.objects _ s lead.object,
              )
              refl)
          is.chain leads)

  -- A list of objects, where each that is not NULL is printed as it should be.
  objects_lem :
      {T : Type 0} (t : Table T) (l : ListRef) (print_object : ℕ → Printer) (shown : ℕ → List Piece)
      (xs : List ℕ)
      → l.owner ≢ null
      → l.links s ≡ (t.store s).links
      → IsList (l.links s) (l.head s) xs
      → ((x : ℕ) → x ≢ null → print_object x s ≡ ok (shown x))
      → print_list t l
          (text "{\n" ∷ [])
          (λ aux. print_text "\t" >> print_object aux)
          (text "," ∷ [])
          (text "\n" ∷ [])
          (text "}\n" ∷ [])
          s
        ≡ ok (shown_objects shown xs)
  objects_lem t l print_object shown xs owned shared is prints =
      print_list-joined t (λ aux. print_text "\t" >> print_object aux) (λ p. text "\t" ∷ shown p) _
        _ s l _ _ xs owned shared is
        (entries (λ aux. print_text "\t" >> print_object aux) (λ p. text "\t" ∷ shown p) _ null xs
          (λ x some_x _. rw (prints x some_x) refl) is.chain (anywhere xs))

  module _ (v : View) (is : IsView v s) where
    pcb_lem : (p : ℕ) → p ≢ null → pcb_print p s ≡ ok (shown_pcb v s p)
    unfolding pcb_print
    pcb_lem p some_p =
        rw
          (
            load-ok pcbs p s some_p,
            children_lem p (v.children p) some_p (is.children p).0 (is.children p).1,
          )
          refl

    resource_lem : (r : ℕ) → r ≢ null → resource_print r s ≡ ok (shown_resource v s r)
    unfolding resource_print
    resource_lem r some_r =
        rw
          (
            load-ok resources r s some_r,
            ptrs_lem resource_overlay (users_of r) (v.users r) some_r refl (is.users r).0
                (is.users r).1,
          )
          refl

    semaphore_lem : (r : ℕ) → r ≢ null → semaphore_print r s ≡ ok (shown_semaphore v s r)
    unfolding semaphore_print
    semaphore_lem r some_r =
        rw
          (
            load-ok semaphores r s some_r,
            ptrs_lem semaphore_overlay (openers_of r) (v.openers r) some_r refl (is.openers r).0
                (is.openers r).1,
            ptrs_lem semaphore_overlay (waiters_of r) (v.waiters r) some_r refl (is.waiters r).0
                (is.waiters r).1,
          )
          refl

    pcbs_lem :
        (l : ListRef) (ps : List ℕ)
        → l.owner ≢ null
        → l.links s ≡ s.pcbs.links
        → IsList (l.links s) (l.head s) ps
        → pcb_list_print l s ≡ ok (shown_objects (shown_pcb v s) ps)
    unfolding pcb_list_print
    pcbs_lem l ps owned shared is_list =
        objects_lem pcbs l pcb_print (shown_pcb v s) ps owned shared is_list pcb_lem

    resources_lem :
        resource_list_print resources_list s ≡ ok (shown_objects (shown_resource v s) v.resources)
    unfolding resource_list_print
    resources_lem =
        objects_lem resources resources_list resource_print (shown_resource v s) v.resources
          (λ e. absurd (omega arith)) refl is.resources resource_lem

    semaphores_lem :
        semaphore_list_print semaphores_list s
        ≡ ok (shown_objects (shown_semaphore v s) v.semaphores)
    unfolding semaphore_list_print
    semaphores_lem =
        objects_lem semaphores semaphores_list semaphore_print (shown_semaphore v s) v.semaphores
          (λ e. absurd (omega arith)) refl is.semaphores semaphore_lem

    running_lem :
        (if s.running == null then print [] else pcb_print s.running) s ≡ ok (shown_running v s)
    running_lem = elim (Bool-cases (s.running == null)) [
      | inl e ↦ rw e refl
      | inr e ↦ rw e (pcb_lem s.running (λ q. ground (arith, e, q)))
    ]

    -- Where every list that the printing reads is well formed, and each timer, child and pointer to
    -- a descriptor leads to structures that are not NULL, `disastrOS_printStatus` ends without a
    -- fault, and prints the running process, the timers, the resources, the semaphores, and the
    -- ready, waiting and zombie processes, each list once and in its order.
    pub print_status_lem : print_status s ≡ ok (shown_status v s)
    unfolding print_status
    print_status_lem =
        rw
          (
            running_lem,
            timers_lem v.timers is.timers.0 is.timers.1,
            resources_lem,
            semaphores_lem,
            pcbs_lem ready_list v.ready (λ e. absurd (omega arith)) refl is.ready,
            pcbs_lem waiting_list v.waiting (λ e. absurd (omega arith)) refl is.waiting,
            pcbs_lem zombie_list v.zombie (λ e. absurd (omega arith)) refl is.zombie,
          )
          refl
