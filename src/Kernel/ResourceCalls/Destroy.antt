-- ===== src/Kernel/ResourceCalls/Destroy.antt =====
-- `internal_destroyResource` of disastrOS_destroy_resource.c.
use native.Mathlib.Decide.{ℕ_discrete}
use disastr_os_semaphores.PoolAllocator.{narrow}
use disastr_os_semaphores.Base.{
  ℕ, suc, ◌<◌, ◌≡◌, ◌≢◌, ◌⊎◌, inl, inr, refl, sym, ap, ◌∙◌, false, List, [], ◌∷◌, ◌++◌, arith,
  ==_ne, ==_self, has, length, ok,
}
use disastr_os_semaphores.Base.Int.{ℤ, pos, ◌==ℤ◌}
use disastr_os_semaphores.LinkedList.{null}
use disastr_os_semaphores.LinkedList.Chain.{IsList}
use disastr_os_semaphores.LinkedList.Find.{first_of, split_of_first_of}
use disastr_os_semaphores.LinkedList.Detach.{detach-remove}
use disastr_os_semaphores.PoolAllocator.{success}
use disastr_os_semaphores.PoolAllocator.FreeList.{IsPool}
use disastr_os_semaphores.PoolAllocator.Blocks.{address, released-IsPool}
use disastr_os_semaphores.Kernel.{System}
use disastr_os_semaphores.Kernel.Constants.Error
use disastr_os_semaphores.Kernel.Cmd.{resources, list_detach, free_block}
use disastr_os_semaphores.Kernel.Lists.{resources_list}
use disastr_os_semaphores.Kernel.Families.{detached, list_detach-detached}
use disastr_os_semaphores.Kernel.Rules.{
  find_by-first_of, load-ok, int_argument-ok, free_block-ok, freed, return_value-ok, returning,
}
use disastr_os_semaphores.Kernel.Resources.{resource_by_id, resource_free}
use disastr_os_semaphores.Kernel.ResourceCalls.{internal_destroy_resource}

-- The first resource of the list with the id that the call asks for, or NULL.
abbrev pub resource_for : System → List ℕ → ℕ
resource_for s rs =
    first_of (λ a. (s.resources.at a).id ==ℤ narrow ((s.pcbs.at s.running).syscall_args 0)) rs

-- The resource is in a block that is handed out, and its descriptors are `us`.
pub record InUse (s : System) (res : ℕ) (us fk : List ℕ) : Type 0 where
  pub index : ℕ
  pub at_block : res ≡ address s.resources.pool index
  pub below : index < s.resources.pool.size_max
  pub out : has index fk ≡ false
  pub users : IsList s.descriptor_ptrs.links (s.resources.at res).descriptors us

-- From `s` to `t` the resource was removed, and the call returned 0.
pub record Destroyed (s t : System) (rs : List ℕ) (res index : ℕ) (fk : List ℕ) : Type 0 where
  pub before : List ℕ
  pub after : List ℕ
  pub listed : rs ≡ before ++ res ∷ after
  pub list : IsList t.resources.links t.resources_list (before ++ after)
  pub at_block : res ≡ address s.resources.pool index
  pub pool : IsPool t.resources.pool (index ∷ fk)
  pub resources : t.resources.at ≡ s.resources.at
  pub returned : (t.pcbs.at s.running).syscall_retvalue ≡ pos 0
  pub running : t.running ≡ s.running

module _ (s : System) (rs : List ℕ) (some_running : s.running ≢ null)
    (list : IsList s.resources.links s.resources_list rs) where
  abbrev id : ℤ
  id = narrow ((s.pcbs.at s.running).syscall_args 0)

  abbrev res : ℕ
  res = resource_for s rs

  by_id-ok : resource_by_id resources_list id s ≡ ok (res, s)
  unfolding resource_by_id
  by_id-ok = find_by-first_of resources_list _ s rs (λ e. absurd (omega arith)) list

  destroy-missing :
      res ≡ null → internal_destroy_resource s ≡ ok (tt, returning Error.resource_close s)
  unfolding internal_destroy_resource
  destroy-missing none =
      rw (int_argument-ok s some_running 0, by_id-ok, none)
        (return_value-ok s some_running Error.resource_close)

  destroy-used :
      (u : ℕ) (us fk : List ℕ)
      → res ≢ null
      → InUse s res (u ∷ us) fk
      → internal_destroy_resource s ≡ ok (tt, returning Error.resource_in_use s)
  unfolding internal_destroy_resource
  destroy-used u us fk some in_use =
      rw
        (
          int_argument-ok s some_running 0,
          by_id-ok,
          ==_ne res null some,
          in_use.users.size,
          ==_ne res null some,
          ==_ne (suc (length us)) 0 (λ e. absurd (omega arith)),
        )
        (return_value-ok s some_running Error.resource_in_use)

  module _ (fk : List ℕ) (some : res ≢ null) (in_use : InUse s res [] fk)
      (pool : IsPool s.resources.pool fk) where
    abbrev ys : List ℕ
    ys = (split_of_first_of _ rs some).0

    abbrev zs : List ℕ
    zs = (split_of_first_of _ rs some).1

    abbrev unhooked : System
    unhooked = detached resources_list ys zs res s

    abbrev gone : System
    gone = freed resources in_use.index unhooked

    unhook_step :
        (list_detach resources_list res s ≡ ok (res, unhooked))
        × IsList unhooked.resources.links unhooked.resources_list (ys ++ zs)
    unhook_step =
        let is : IsList s.resources.links s.resources_list (ys ++ res ∷ zs) =
          rw (sym (split_of_first_of _ rs some).2) list in
        let step = detach-remove s.resources.links s.resources_list ys zs res is in
        (list_detach-detached resources_list s ys zs res (λ e. absurd (omega arith)) step.0, step.1)

    free_step : resource_free res unhooked ≡ ok (success, gone)
    unfolding resource_free
    free_step =
        rw (load-ok resources res unhooked some, in_use.users.first, in_use.users.last)
          (ap (λ p. free_block resources p unhooked) in_use.at_block
            ∙ free_block-ok resources unhooked in_use.index fk pool in_use.below in_use.out)

    destroy-unused : internal_destroy_resource s ≡ ok (tt, returning (pos 0) gone)
    unfolding internal_destroy_resource
    destroy-unused =
        rw
          (
            int_argument-ok s some_running 0,
            by_id-ok,
            ==_ne res null some,
            in_use.users.size,
            ==_ne res null some,
            unhook_step.0,
            ==_ne res null some,
            free_step,
          )
          (return_value-ok gone some_running (pos 0))

    unused-Destroyed : Destroyed s (returning (pos 0) gone) rs res in_use.index fk
    unused-Destroyed = record {
      before = ys;
      after = zs;
      listed = (split_of_first_of _ rs some).2;
      list = unhook_step.1;
      at_block = in_use.at_block;
      pool = released-IsPool s.resources.pool in_use.index fk pool in_use.below in_use.out;
      resources = refl;
      returned = rw ==_self refl;
      running = refl;
    }

  -- Where a process runs, the list of resources is well formed, and the resource with the id that
  -- was passed, as an `int`, if there is one, is in a block that is handed out and has a well-formed list of
  -- descriptors `us`, `internal_destroyResource` ends without a fault in one of three ways. Without
  -- such a resource it returns the error of a close, and with one that has descriptors the error
  -- that the resource is in use, and changes nothing else. With one that has no descriptors it
  -- returns 0, the first resource with the id is out of the list, the others stay in order, and its
  -- block is free.
  pub destroy_lem :
      (us fk : List ℕ)
      → (res ≢ null → InUse s res us fk)
      → IsPool s.resources.pool fk
      → ((res ≡ null) × (internal_destroy_resource s ≡ ok (tt, returning Error.resource_close s)))
        ⊎ (((us ≢ []) × (internal_destroy_resource s ≡ ok (tt, returning Error.resource_in_use s)))
            ⊎ ((us ≡ [])
                × (t : System) × (index : ℕ) × (internal_destroy_resource s ≡ ok (tt, t))
                × Destroyed s t rs res index fk))
  destroy_lem us fk in_use pool = elim (ℕ_discrete res null) [
    | yes e ↦ inl (e, destroy-missing e)
    | no ne ↦ inr (used_or_not us fk ne (in_use ne) pool)
  ]
    where
      used_or_not :
          (us fk : List ℕ)
          → res ≢ null
          → InUse s res us fk
          → IsPool s.resources.pool fk
          → ((us ≢ []) × (internal_destroy_resource s ≡ ok (tt, returning Error.resource_in_use s)))
            ⊎ ((us ≡ [])
                × (t : System) × (index : ℕ) × (internal_destroy_resource s ≡ ok (tt, t))
                × Destroyed s t rs res index fk)
      used_or_not [] fk some in_use pool =
          inr (refl, _, _, destroy-unused fk some in_use pool, unused-Destroyed fk some in_use pool)
      used_or_not (u ∷ us) fk some in_use pool = inl ((λ e. cc e), destroy-used u us fk some in_use)
