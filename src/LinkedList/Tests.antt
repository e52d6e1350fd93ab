-- ===== src/LinkedList/Tests.antt =====
-- Runs of linked_list.c, and its theorems on lists of two and three items.
use disastr_os_semaphores.Base.{
  Disjoint, has, if◌then◌else◌, ℕ, ◌≡◌, ◌≢◌, refl, Bool, true, false, List, [], ◌∷◌, arith, ok,
  ◌==◌,
}
use disastr_os_semaphores.Base.Int.{pos}
use disastr_os_semaphores.LinkedList.{
  Links, ListHead, null, link, init, insert, insert_links, insert_head, detach, detach_links,
  detach_head, find,
}
use disastr_os_semaphores.LinkedList.Chain.{IsList, SameOutside}
use disastr_os_semaphores.LinkedList.Insert.{insert-append}
use disastr_os_semaphores.LinkedList.Detach.{detach-remove}
use disastr_os_semaphores.LinkedList.Find.{find-has}
use disastr_os_semaphores.LinkedList.Family.{
  IsFamily, IsLoose, update, update-IsUpdate, insert-IsFamily, detach-IsFamily, inserted_links,
  inserted_head, detached_links, detached_head,
}

-- The list of the items at 10 and 20; the item at 30 is in no list.
abbrev two_links : Links
two_links = λ a. if a == 10 then link null 20 else if a == 20 then link 10 null else link null null

abbrev two_head : ListHead
two_head = record { first = 10; last = 20; size = pos 2 }

two-IsList : IsList two_links two_head (10 ∷ 20 ∷ [])
two-IsList = record {
  first = refl;
  last = refl;
  size = refl;
  chain = ((λ e. absurd (omega arith)), refl, ((λ e. absurd (omega arith)), refl, tt));
  distinct = (refl, (refl, tt));
}

insert-append_example :
    (insert two_links two_head 10 30
      ≡ ok (30, insert_head two_head 10 20 30, insert_links two_links 10 20 30))
    × IsList (insert_links two_links 10 20 30) (insert_head two_head 10 20 30) (10 ∷ 30 ∷ 20 ∷ [])
    × SameOutside (30 ∷ 10 ∷ 20 ∷ []) two_links (insert_links two_links 10 20 30)
insert-append_example =
    insert-append two_links two_head (10 ∷ []) (20 ∷ []) 30 two-IsList (λ e. absurd (omega arith))
      refl refl

detach-remove_example :
    (detach two_links two_head 10
      ≡ ok (10, detach_head two_head 0 20 10, detach_links two_links 0 20 10))
    × IsList (detach_links two_links 0 20 10) (detach_head two_head 0 20 10) (20 ∷ [])
    × (detach_links two_links 0 20 10 10 ≡ link null null)
    × SameOutside (10 ∷ 20 ∷ []) two_links (detach_links two_links 0 20 10)
detach-remove_example = detach-remove two_links two_head [] (20 ∷ []) 10 two-IsList

find-has_example : find 3 two_links two_head 20 ≡ ok 20
find-has_example = find-has two_links two_head (10 ∷ 20 ∷ []) 20 3 two-IsList (omega arith)

-- That list and an empty one.
abbrev heads : Bool → ListHead
heads true = two_head
heads false = init

abbrev lists : Bool → List ℕ
lists true = 10 ∷ 20 ∷ []
lists false = []

Bool-discrete : Discrete Bool
Bool-discrete = hlevel

two-IsFamily : IsFamily two_links heads lists
two-IsFamily = record { each = each; apart = apart }
  where
    each : (k : Bool) → IsList two_links (heads k) (lists k)
    each true = two-IsList
    each false = record { first = refl; last = refl; size = refl; chain = tt; distinct = tt }

    apart : (j k : Bool) → j ≢ k → Disjoint (lists j) (lists k)
    apart true true ne = absurd (ne refl)
    apart true false ne = (refl, (refl, tt))
    apart false k ne = tt

loose : IsLoose two_links lists 30
loose = record { some_item = (λ e. absurd (omega arith)); outside = outside; unlinked = refl }
  where
    outside : (k : Bool) → has 30 (lists k) ≡ false
    outside true = refl
    outside false = refl

insert-IsFamily_example :
    (insert two_links init null 30
      ≡ ok (30, inserted_head init [] [] 30, inserted_links two_links [] [] 30))
    × IsFamily
        (inserted_links two_links [] [] 30)
        (update Bool-discrete heads false (inserted_head init [] [] 30))
        (update Bool-discrete lists false (30 ∷ []))
insert-IsFamily_example =
    insert-IsFamily Bool-discrete two-IsFamily false [] [] 30 refl loose
      (update-IsUpdate Bool-discrete heads _ _) (update-IsUpdate Bool-discrete lists _ _)

detach-IsFamily_example :
    (detach two_links two_head 20
      ≡ ok (20, detached_head two_head (10 ∷ []) [] 20, detached_links two_links (10 ∷ []) [] 20))
    × IsFamily
        (detached_links two_links (10 ∷ []) [] 20)
        (update Bool-discrete heads true (detached_head two_head (10 ∷ []) [] 20))
        (update Bool-discrete lists true (10 ∷ []))
    × IsLoose
        (detached_links two_links (10 ∷ []) [] 20)
        (update Bool-discrete lists true (10 ∷ []))
        20
detach-IsFamily_example =
    detach-IsFamily Bool-discrete two-IsFamily true (10 ∷ []) [] 20 refl
      (update-IsUpdate Bool-discrete heads _ _) (update-IsUpdate Bool-discrete lists _ _)
