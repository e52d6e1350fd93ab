-- ===== src/Kernel/Families.antt =====
-- Lists of the kernel that share a store, as families: one rule for each access by which a system call
-- moves an item of linked_list.c.
pub mod Bystanders
use mathlib.Core.Path.{subst}
use disastr_os_semaphores.Base.{
  sym, ◌∙◌, ℕ, ◌≡◌, ◌≢◌, refl, ap, false, List, [], ◌∷◌, ◌++◌, ==_ne, has, has-append, ok, head_or,
  last_or, append-nil,
}
use disastr_os_semaphores.LinkedList.{Links, ListHead, null, link, insert, detach}
use disastr_os_semaphores.LinkedList.Chain.{IsList}
use disastr_os_semaphores.LinkedList.Insert.{insert-append}
use disastr_os_semaphores.LinkedList.Family.{
  IsFamily, IsLoose, IsUpdate, insert-IsFamily, detach-IsFamily, inserted_links, inserted_head,
  detached_links, detached_head,
}
use disastr_os_semaphores.Kernel.{System}
use disastr_os_semaphores.Kernel.Cmd.{ListRef, list_insert, list_detach}

-- The state after a list operation.
abbrev pub inserted : ListRef → (ys zs : List ℕ) → ℕ → System → System
inserted l ys zs item s =
    l.with_list (inserted_links (l.links s) ys zs item) (inserted_head (l.head s) ys zs item) s

abbrev pub detached : ListRef → (ys zs : List ℕ) → ℕ → System → System
detached l ys zs item s =
    l.with_list (detached_links (l.links s) ys zs item) (detached_head (l.head s) ys zs item) s

module _ (l : ListRef) (s : System) (ys zs : List ℕ) (item : ℕ) (owned : l.owner ≢ null) where
  pub list_insert-inserted :
      insert (l.links s) (l.head s) (last_or null ys) item
        ≡ ok (item, inserted_head (l.head s) ys zs item, inserted_links (l.links s) ys zs item)
      → list_insert l (last_or null ys) item s ≡ ok (item, inserted l ys zs item s)
  unfolding list_insert
  list_insert-inserted e = rw (==_ne l.owner null owned, e)

  pub list_detach-detached :
      detach (l.links s) (l.head s) item
        ≡ ok (item, detached_head (l.head s) ys zs item, detached_links (l.links s) ys zs item)
      → list_detach l item s ≡ ok (item, detached l ys zs item s)
  unfolding list_detach
  list_detach-detached e = rw (==_ne l.owner null owned, e)

-- Lists over one store, each with a head of its own.
pub record ListTable (K : Type 0) : Type 0 where
  pub dec : Discrete K
  pub ref : K → ListRef
  pub links : System → Links
  pub shared : (k : K) (s : System) → (ref k).links s ≡ links s
  pub stored : (k : K) (l : Links) (h : ListHead) (s : System) → links ((ref k).with_list l h s) ≡ l
  pub headed :
      (k : K) (l : Links) (h : ListHead) (s : System)
      → IsUpdate (λ j. (ref j).head s) (λ j. (ref j).head ((ref k).with_list l h s)) k h

-- In the state `s` the lists of the table are `lists`.
abbrev pub Holds : {K : Type 0} → ListTable K → (K → List ℕ) → System → Type 0
Holds t lists s = IsFamily (t.links s) (λ k. (t.ref k).head s) lists

abbrev pub Loose : {K : Type 0} → ListTable K → (K → List ℕ) → ℕ → System → Type 0
Loose t lists item s = IsLoose (t.links s) lists item

module _ {K : Type 0} (t : ListTable K) (s : System) {lists lists' : K → List ℕ} (k : K)
    (ys zs : List ℕ) (item : ℕ) (owned : (t.ref k).owner ≢ null) (holds : Holds t lists s) where
  -- An insertion of a loose item, as a step from lists to lists.
  pub insert-Holds :
      lists k ≡ ys ++ zs
      → Loose t lists item s
      → IsUpdate lists lists' k (ys ++ item ∷ zs)
      → (list_insert (t.ref k) (last_or null ys) item s
          ≡ ok (item, inserted (t.ref k) ys zs item s))
        × Holds t lists' (inserted (t.ref k) ys zs item s)
  insert-Holds e loose ul =
      let h = (t.ref k).head s in
      let l = (t.ref k).links s in
      let holds' =
        subst (λ x. IsFamily x (λ j. (t.ref j).head s) lists) (sym (t.shared k s)) holds in
      let loose' = subst (λ x. IsLoose x lists item) (sym (t.shared k s)) loose in
      let step =
        insert-IsFamily t.dec holds' k ys zs item e loose'
          (t.headed k (inserted_links l ys zs item) (inserted_head h ys zs item) s) ul in
      (list_insert-inserted (t.ref k) s ys zs item owned step.0, rw t.stored step.1)

  -- A removal, after which the item is loose.
  pub detach-Holds :
      lists k ≡ ys ++ item ∷ zs
      → IsUpdate lists lists' k (ys ++ zs)
      → (list_detach (t.ref k) item s ≡ ok (item, detached (t.ref k) ys zs item s))
        × Holds t lists' (detached (t.ref k) ys zs item s)
        × Loose t lists' item (detached (t.ref k) ys zs item s)
  detach-Holds e ul =
      let h = (t.ref k).head s in
      let l = (t.ref k).links s in
      let holds' =
        subst (λ x. IsFamily x (λ j. (t.ref j).head s) lists) (sym (t.shared k s)) holds in
      let step =
        detach-IsFamily t.dec holds' k ys zs item e
          (t.headed k (detached_links l ys zs item) (detached_head h ys zs item) s) ul in
      (
        list_detach-detached (t.ref k) s ys zs item owned step.0,
        rw t.stored step.1,
        rw t.stored step.2,
      )

module _ {K : Type 0} (t : ListTable K) (s : System) {lists lists' : K → List ℕ} (k : K)
    (owned : (t.ref k).owner ≢ null) (holds : Holds t lists s) where
  -- An insertion behind the last item.
  pub append-Holds :
      (item : ℕ)
      → Loose t lists item s
      → IsUpdate lists lists' k (lists k ++ item ∷ [])
      → (list_insert (t.ref k) ((t.ref k).head s).last item s
          ≡ ok (item, inserted (t.ref k) (lists k) [] item s))
        × Holds t lists' (inserted (t.ref k) (lists k) [] item s)
  append-Holds item loose ul =
      let step =
        insert-Holds t s k (lists k) [] item owned holds (sym (append-nil (lists k))) loose ul in
      (ap (λ p. list_insert (t.ref k) p item s) (holds.each k).last ∙ step.0, step.1)

  -- The removal of the first item.
  pub pop-Holds :
      (x : ℕ) (xs : List ℕ)
      → lists k ≡ x ∷ xs
      → IsUpdate lists lists' k xs
      → (list_detach (t.ref k) ((t.ref k).head s).first s ≡ ok (x, detached (t.ref k) [] xs x s))
        × Holds t lists' (detached (t.ref k) [] xs x s)
        × Loose t lists' x (detached (t.ref k) [] xs x s)
  pop-Holds x xs e ul =
      let step = detach-Holds t s k [] xs x owned holds e ul in
      let first : ((t.ref k).head s).first ≡ x =
        (holds.each k).first ∙ ap (λ l. head_or l null) e in
      (ap (λ p. list_detach (t.ref k) p s) first ∙ step.0, step.1, step.2)

  -- Another loose item stays loose.
  pub append-Loose :
      (item other : ℕ)
      → Loose t lists item s
      → Loose t lists other s
      → other ≢ item
      → IsUpdate lists lists' k (lists k ++ item ∷ [])
      → Loose t lists' other (inserted (t.ref k) (lists k) [] item s)
  append-Loose item other loose loose' ne ul =
      let l = (t.ref k).links s in
      let shared : l ≡ t.links s = t.shared k s in
      let is : IsList l ((t.ref k).head s) (lists k ++ []) =
        rw (append-nil (lists k), shared) (holds.each k) in
      let out : has item (lists k ++ []) ≡ false = rw (append-nil (lists k)) (loose.outside k) in
      let unlinked : l item ≡ link null null = rw shared loose.unlinked in
      let main =
        insert-append l ((t.ref k).head s) (lists k) [] item is loose.some_item out unlinked in
      let out' : has other (item ∷ lists k ++ []) ≡ false =
        rw (append-nil (lists k), ==_ne other item ne) (loose'.outside k) in
      record {
        some_item = loose'.some_item;
        outside = λ j. elim (t.dec j k) [
          | yes e ↦
              subst (λ j. has other (lists' j) ≡ false) (sym e)
                (rw
                  (
                    ul.here,
                    has-append other (lists k) (item ∷ []),
                    loose'.outside k,
                    ==_ne other item ne,
                  )
                  refl)
          | no nj ↦ rw (ul.there j nj) (loose'.outside j)
        ];
        unlinked = rw t.stored (main.2 other loose'.some_item out' ∙ (rw shared loose'.unlinked));
      }

-- A change of the state that leaves the heads and the links alone.
pub Holds-frame :
    {K : Type 0} (t : ListTable K) (s s' : System) {lists : K → List ℕ}
    → t.links s' ≡ t.links s
    → ((k : K) → (t.ref k).head s' ≡ (t.ref k).head s)
    → Holds t lists s
    → Holds t lists s'
Holds-frame t s s' {lists} el eh holds = record {
  each = λ k. rw (el, eh k) (holds.each k);
  apart = holds.apart;
}
