-- ===== src/LinkedList/Family.antt =====
-- Several lists over one store of links, as the kernel keeps them: an insertion or a removal changes
-- one list of the family and leaves the others as they are.
use mathlib.Core.Path.{subst, refl}
use mathlib.Core.Logic.{ite, if_pos, if_neg}
use disastr_os_semaphores.Base.{
  ℕ, ◌≡◌, ◌≢◌, sym, ◌∙◌, false, List, [], ◌∷◌, ◌++◌, arith, has, has-append, Disjoint,
  Disjoint-cons, IsDistinct, IsDistinct-parts, Disjoint-tail, not-has_of_Disjoint-cons, head_or,
  last_or, ok,
}
use disastr_os_semaphores.LinkedList.{
  Links, ListHead, null, link, insert, insert_links, insert_head, detach, detach_links, detach_head,
}
use disastr_os_semaphores.LinkedList.Chain.{IsList, IsList-apart, SameOutside}
use disastr_os_semaphores.LinkedList.Insert.{insert-append}
use disastr_os_semaphores.LinkedList.Detach.{detach-remove, some_item}

-- Each list is well formed, and no item is in two of them.
pub record IsFamily {K : Type 0} (l : Links) (heads : K → ListHead) (lists : K → List ℕ)
    : Type 0 where
  pub each : (k : K) → IsList l (heads k) (lists k)
  pub apart : (j k : K) → j ≢ k → Disjoint (lists j) (lists k)

-- An item that is in no list of the family, with cleared links.
pub record IsLoose {K : Type 0} (l : Links) (lists : K → List ℕ) (item : ℕ) : Type 0 where
  pub some_item : item ≢ null
  pub outside : (k : K) → has item (lists k) ≡ false
  pub unlinked : l item ≡ link null null

-- `f'` is `f` with the value `v` at `k`.
pub record IsUpdate {K V : Type 0} (f f' : K → V) (k : K) (v : V) : Type 0 where
  pub here : f' k ≡ v
  pub there : (j : K) → j ≢ k → f' j ≡ f j

Disjoint-append : (xs ys zs : List ℕ) → Disjoint xs ys → Disjoint xs zs → Disjoint xs (ys ++ zs)
Disjoint-append [] ys zs d e = tt
Disjoint-append (x ∷ xs) ys zs d e =
    (ground (arith, has-append x ys zs), Disjoint-append xs ys zs d.1 e.1)

pub Disjoint-parts : (xs ys zs : List ℕ) → Disjoint xs (ys ++ zs) → Disjoint xs ys × Disjoint xs zs
Disjoint-parts [] ys zs d = (tt, tt)
Disjoint-parts (x ∷ xs) ys zs d =
    let rest = Disjoint-parts xs ys zs d.1 in
    let e = has-append x ys zs in ((ground arith, rest.0), (ground arith, rest.1))

pub Disjoint-sym : (xs ys : List ℕ) → Disjoint xs ys → Disjoint ys xs
Disjoint-sym xs [] d = tt
Disjoint-sym xs (y ∷ ys) d =
    (not-has_of_Disjoint-cons y xs ys d, Disjoint-sym xs ys (Disjoint-tail y xs ys d))

Disjoint-insert :
    (xs ys zs : List ℕ) (item : ℕ)
    → Disjoint xs (ys ++ zs)
    → has item xs ≡ false
    → Disjoint xs (ys ++ item ∷ zs)
Disjoint-insert xs ys zs item d out =
    let parts = Disjoint-parts xs ys zs d in
    Disjoint-append xs ys (item ∷ zs) parts.0 (Disjoint-cons item xs zs parts.1 out)

Disjoint-remove :
    (xs ys zs : List ℕ) (item : ℕ) → Disjoint xs (ys ++ item ∷ zs) → Disjoint xs (ys ++ zs)
Disjoint-remove xs ys zs item d =
    let parts = Disjoint-parts xs ys (item ∷ zs) d in
    Disjoint-append xs ys zs parts.0 (Disjoint-tail item xs zs parts.1)

not-has_of_IsDistinct :
    (ys zs : List ℕ) (item : ℕ) → IsDistinct (ys ++ item ∷ zs) → has item (ys ++ zs) ≡ false
not-has_of_IsDistinct ys zs item d =
    let parts = IsDistinct-parts ys (item ∷ zs) d in
    let e = not-has_of_Disjoint-cons item ys zs parts.2 in ground (arith, has-append item ys zs)

-- One list is changed to `xs`, at addresses outside all the others: a family again.
IsFamily-update :
    {K : Type 0} (dec : Discrete K) (l l' : Links) (touched : List ℕ) {heads heads' : K → ListHead}
    {lists lists' : K → List ℕ} (k : K) (h : ListHead) (xs : List ℕ)
    → IsFamily l heads lists
    → IsUpdate heads heads' k h
    → IsUpdate lists lists' k xs
    → IsList l' h xs
    → SameOutside touched l l'
    → ((j : K) → j ≢ k → Disjoint (lists j) touched)
    → ((j : K) → j ≢ k → Disjoint (lists j) xs)
    → IsFamily l' heads' lists'
IsFamily-update dec l l' touched {heads'} {lists'} k h xs f uh ul is same free apart = record {
  each = λ j. elim (dec j k) [
    | yes e ↦ subst (λ i. IsList l' (heads' i) (lists' i)) (sym e) (rw (uh.here, ul.here) is)
    | no ne ↦
        rw (uh.there j ne, ul.there j ne) (IsList-apart l l' touched (f.each j) same (free j ne))
  ];
  apart = λ i j ne. elim (dec i k) [
    | yes e ↦
        let nj : j ≢ k = λ e'. ne (e ∙ sym e') in
        subst (λ i. Disjoint (lists' i) (lists' j)) (sym e)
          (rw (ul.here, ul.there j nj) (Disjoint-sym _ _ (apart j nj)))
    | no ni ↦ elim (dec j k) [
      | yes e ↦
          subst (λ j. Disjoint (lists' i) (lists' j)) (sym e)
            (rw (ul.here, ul.there i ni) (apart i ni))
      | no nj ↦ rw (ul.there i ni, ul.there j nj) (f.apart i j ne)
    ]
  ];
}

-- The links and the head after an insertion between `ys` and `zs`, and after a removal there.
abbrev pub inserted_links : Links → (ys zs : List ℕ) → ℕ → Links
inserted_links l ys zs item = insert_links l (last_or null ys) (head_or zs null) item

abbrev pub inserted_head : ListHead → (ys zs : List ℕ) → ℕ → ListHead
inserted_head h ys zs item = insert_head h (last_or null ys) (head_or zs null) item

abbrev pub detached_links : Links → (ys zs : List ℕ) → ℕ → Links
detached_links l ys zs item = detach_links l (last_or null ys) (head_or zs null) item

abbrev pub detached_head : ListHead → (ys zs : List ℕ) → ℕ → ListHead
detached_head h ys zs item = detach_head h (last_or null ys) (head_or zs null) item

module _ {K : Type 0} (dec : Discrete K) {l : Links} {heads heads' : K → ListHead}
    {lists lists' : K → List ℕ} (f : IsFamily l heads lists) (k : K) (ys zs : List ℕ)
    (item : ℕ) where
  -- Let several lists share a store, each well formed, with no item in two of them. `List_insert`
  -- of an item that is in none of them, is not NULL and has cleared links, into one of them behind
  -- any prefix, makes lists of the same kind, in which that list has the item behind the prefix and
  -- the others are as they were.
  pub insert-IsFamily :
      lists k ≡ ys ++ zs
      → IsLoose l lists item
      → IsUpdate heads heads' k (inserted_head (heads k) ys zs item)
      → IsUpdate lists lists' k (ys ++ item ∷ zs)
      → (insert l (heads k) (last_or null ys) item
          ≡ ok (item, inserted_head (heads k) ys zs item, inserted_links l ys zs item))
        × IsFamily (inserted_links l ys zs item) heads' lists'
  insert-IsFamily e loose uh ul =
      let main =
        insert-append l (heads k) ys zs item (rw e at (f.each k)) loose.some_item
          (rw e at (loose.outside k)) loose.unlinked in
      let free : (j : K) → j ≢ k → Disjoint (lists j) (ys ++ zs) =
        λ j ne. rw e at (f.apart j k ne) in
      (
        main.0,
        IsFamily-update dec l _ (item ∷ ys ++ zs) k _ _ f uh ul main.1 main.2
            (λ j ne. Disjoint-cons item (lists j) (ys ++ zs) (free j ne) (loose.outside j))
            (λ j ne. Disjoint-insert (lists j) ys zs item (free j ne) (loose.outside j)),
      )

  -- Let several lists share a store, each well formed, with no item in two of them. `List_detach`
  -- of an item of one of them makes lists of the same kind, in which that list is without the item
  -- and the others are as they were; the item is in no list then, with cleared links.
  pub detach-IsFamily :
      lists k ≡ ys ++ item ∷ zs
      → IsUpdate heads heads' k (detached_head (heads k) ys zs item)
      → IsUpdate lists lists' k (ys ++ zs)
      → (detach l (heads k) item
          ≡ ok (item, detached_head (heads k) ys zs item, detached_links l ys zs item))
        × IsFamily (detached_links l ys zs item) heads' lists'
        × IsLoose (detached_links l ys zs item) lists' item
  detach-IsFamily e uh ul =
      let is : IsList l (heads k) (ys ++ item ∷ zs) = rw e at (f.each k) in
      let main = detach-remove l (heads k) ys zs item is in
      let free : (j : K) → j ≢ k → Disjoint (lists j) (ys ++ item ∷ zs) =
        λ j ne. rw e at (f.apart j k ne) in
      (
        main.0,
        IsFamily-update dec l _ (ys ++ item ∷ zs) k _ _ f uh ul main.1 main.3 free
            (λ j ne. Disjoint-remove (lists j) ys zs item (free j ne)),
        record {
          some_item = some_item l (heads k) ys zs item is;
          outside = λ j. elim (dec j k) [
            | yes e' ↦
                subst (λ j. has item (lists' j) ≡ false) (sym e')
                  (rw ul.here (not-has_of_IsDistinct ys zs item is.distinct))
            | no ne ↦ rw (ul.there j ne) (
                not-has_of_Disjoint-cons item (lists j) zs
                  (Disjoint-parts (lists j) ys (item ∷ zs) (free j ne)).1)
          ];
          unlinked = main.2;
        },
      )

-- The family of lists with one list changed.
abbrev pub update : {K V : Type 0} → Discrete K → (K → V) → K → V → K → V
update dec f k v j = ite (dec j k) v (f j)

pub update-IsUpdate :
    {K V : Type 0} (dec : Discrete K) (f : K → V) (k : K) (v : V)
    → IsUpdate f (update dec f k v) k v
update-IsUpdate dec f k v = record {
  here = elim (dec k k) [ yes e ↦ if_pos (dec k k) e _ _ | no ne ↦ absurd (ne refl) ];
  there = λ j ne. if_neg (dec j k) ne _ _;
}
