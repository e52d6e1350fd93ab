-- ===== src/LinkedList/Find.antt =====
-- The scans of a linked list, `List_find` of linked_list.c among them, end and find the first item.
use disastr_os_semaphores.Base.{
  ℕ, zero, suc, ◌<◌, ◌≡◌, ◌≢◌, refl, ap, ◌++◌, Bool, List, [], ◌∷◌, arith, ◌==◌, if◌then◌else◌,
  ==_ne, Bool-cases, inl, inr, length, has, head_or, ok,
}
use disastr_os_semaphores.LinkedList.{Links, ListHead, null, scan, find}
use disastr_os_semaphores.LinkedList.Chain.{Chain, IsList}

-- The first address that passes the test, or NULL.
abbrev pub first_of : (ℕ → Bool) → List ℕ → ℕ
first_of test [] = null
first_of test (x ∷ xs) = if test x then x else first_of test xs

pub scan_lem :
    (test : ℕ → Bool) (l : Links) (p : ℕ) (xs : List ℕ) (fuel : ℕ)
    → Chain l p xs null
    → length xs < fuel
    → scan test l fuel (head_or xs null) ≡ ok (first_of test xs)
unfolding scan
scan_lem test l p xs zero c f = absurd (omega arith)
scan_lem test l p [] (suc fuel) c f = refl
scan_lem test l p (x ∷ xs) (suc fuel) c f = elim (Bool-cases (test x)) [
  | inl e ↦ rw (==_ne x null c.0, e)
  | inr e ↦ rw (==_ne x null c.0, e, c.1) (scan_lem test l x xs fuel c.2 (omega arith))
]

-- The address that is found stands in the list.
pub split_of_first_of :
    (test : ℕ → Bool) (xs : List ℕ)
    → first_of test xs ≢ null
    → (ys zs : List ℕ) × (xs ≡ ys ++ first_of test xs ∷ zs)
split_of_first_of test [] some = absurd (some refl)
split_of_first_of test (x ∷ xs) some = elim (Bool-cases (test x)) [
  | inl e ↦ ([], xs, rw e refl)
  | inr e ↦
      let (ys, zs, q) = split_of_first_of test xs (rw e at some) in
      (x ∷ ys, zs, rw e (ap (λ l. x ∷ l) q))
]

-- On a list, with more fuel than it has items, the scan ends.
pub scan-IsList :
    (test : ℕ → Bool) (l : Links) (h : ListHead) (xs : List ℕ) (fuel : ℕ)
    → IsList l h xs
    → length xs < fuel
    → scan test l fuel h.first ≡ ok (first_of test xs)
scan-IsList test l h xs fuel is f = rw is.first (scan_lem test l null xs fuel is.chain f)

first_of_self :
    (item : ℕ) (xs : List ℕ) → first_of (λ a. a == item) xs ≡ (if has item xs then item else null)
first_of_self item [] = refl
first_of_self item (x ∷ xs) = ground (arith, first_of_self item xs)

-- On a well-formed list, with more rounds than it has items, `List_find` ends, and returns the item
-- if it is there and NULL if not.
pub find-has :
    (l : Links) (h : ListHead) (xs : List ℕ) (item fuel : ℕ)
    → IsList l h xs
    → length xs < fuel
    → find fuel l h item ≡ ok (if has item xs then item else null)
unfolding find
find-has l h xs item fuel is f = rw (scan-IsList _ l h xs fuel is f, first_of_self item xs)
