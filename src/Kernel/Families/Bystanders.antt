-- ===== src/Kernel/Families/Bystanders.antt =====
-- An item that is in none of the lists of a table stays so while another item is moved.
use mathlib.Core.Path.{subst}
use disastr_os_semaphores.Base.{
  ℕ, ◌≡◌, ◌≢◌, sym, ap, ◌∙◌, false, List, ◌∷◌, ◌++◌, arith, ◌==◌, ==_ne, has, has-append,
}
use disastr_os_semaphores.LinkedList.{null, link}
use disastr_os_semaphores.LinkedList.Chain.{IsList, IsList-frame}
use disastr_os_semaphores.LinkedList.Insert.{insert-append}
use disastr_os_semaphores.LinkedList.Detach.{detach-remove}
use disastr_os_semaphores.LinkedList.Family.{IsUpdate}
use disastr_os_semaphores.Kernel.{System}
use disastr_os_semaphores.Kernel.Families.{ListTable, Holds, Loose, inserted, detached}

module _ {K : Type 0} (t : ListTable K) (s : System) {lists lists' : K → List ℕ} (k : K)
    (ys zs : List ℕ) (item other : ℕ) (holds : Holds t lists s)
    (loose' : Loose t lists other s) where
  not_there :
      (xs : List ℕ)
      → IsUpdate lists lists' k xs
      → has other xs ≡ false
      → (j : K) → has other (lists' j) ≡ false
  not_there xs ul out j = elim (t.dec j k) [
    | yes e ↦ subst (λ j. has other (lists' j) ≡ false) (sym e) (rw ul.here out)
    | no nj ↦ rw (ul.there j nj) (loose'.outside j)
  ]

  pub insert-Loose :
      lists k ≡ ys ++ zs
      → Loose t lists item s
      → other ≢ item
      → IsUpdate lists lists' k (ys ++ item ∷ zs)
      → Loose t lists' other (inserted (t.ref k) ys zs item s)
  insert-Loose e loose ne ul =
      let l = (t.ref k).links s in
      let shared : l ≡ t.links s = t.shared k s in
      let is : IsList l ((t.ref k).head s) (ys ++ zs) = rw (sym e, shared) (holds.each k) in
      let out : has item (ys ++ zs) ≡ false = rw (sym e) (loose.outside k) in
      let out' : has other (ys ++ zs) ≡ false = rw (sym e) (loose'.outside k) in
      let unlinked : l item ≡ link null null = rw shared loose.unlinked in
      let main = insert-append l ((t.ref k).head s) ys zs item is loose.some_item out unlinked in
      let far : has other (item ∷ ys ++ zs) ≡ false = rw (==_ne other item ne) out' in
      record {
        some_item = loose'.some_item;
        outside = not_there (ys ++ item ∷ zs) ul (
            let e1 = has-append other ys zs in
            let e2 = has-append other ys (item ∷ zs) in
            let e3 = ==_ne other item ne in ground arith);
        unlinked = rw t.stored (main.2 other loose'.some_item far ∙ rw shared loose'.unlinked);
      }

  pub detach-Loose :
      lists k ≡ ys ++ item ∷ zs
      → IsUpdate lists lists' k (ys ++ zs)
      → Loose t lists' other (detached (t.ref k) ys zs item s)
  detach-Loose e ul =
      let l = (t.ref k).links s in
      let shared : l ≡ t.links s = t.shared k s in
      let is : IsList l ((t.ref k).head s) (ys ++ item ∷ zs) = rw (sym e, shared) (holds.each k) in
      let far : has other (ys ++ item ∷ zs) ≡ false = rw (sym e) (loose'.outside k) in
      let main = detach-remove l ((t.ref k).head s) ys zs item is in
      record {
        some_item = loose'.some_item;
        outside = not_there (ys ++ zs) ul (
            let e1 = has-append other ys zs in
            let e2 = has-append other ys (item ∷ zs) in ground arith);
        unlinked = rw t.stored (main.3 other loose'.some_item far ∙ rw shared loose'.unlinked);
      }

-- A change of the links of an item that is in none of the lists.
pub Holds-unlinked :
    {K : Type 0} (t : ListTable K) (s s' : System) {lists : K → List ℕ} (x : ℕ)
    → ((a : ℕ) → (a == x) ≡ false → t.links s' a ≡ t.links s a)
    → ((k : K) → (t.ref k).head s' ≡ (t.ref k).head s)
    → ((k : K) → has x (lists k) ≡ false)
    → Holds t lists s
    → Holds t lists s'
Holds-unlinked t s s' {lists} x same heads out holds = record {
  each = λ k. rw (heads k) (
      IsList-frame (t.links s) (t.links s') (holds.each k)
        λ a m. same a (==_ne a x (λ e. cc (sym m ∙ ap (λ b. has b (lists k)) e ∙ out k))));
  apart = holds.apart;
}
