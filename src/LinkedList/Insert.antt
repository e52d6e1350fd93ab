-- ===== src/LinkedList/Insert.antt =====
-- `List_insert` of linked_list.c puts an unlinked item behind any prefix of the list.
use disastr_os_semaphores.Base.{
  ℕ, ◌≡◌, refl, ◌≢◌, ◌⊎◌, false, List, [], ◌∷◌, ◌++◌, arith, ◌==◌, if◌then◌else◌, length,
  length-append, has, has-append, IsDistinct, IsDistinct-parts, IsDistinct-append, Disjoint-cons,
  ==_self, ==_ne, ◌∙◌, sym, Disjoint, head_or, last_or, last_or-append, ok,
}
use disastr_os_semaphores.Base.Int.{pos, ◌+ℤ◌}
use disastr_os_semaphores.LinkedList.{
  Links, ListHead, link, null, insert, insert_links, insert_head,
}
use disastr_os_semaphores.LinkedList.Relink.{last-apart, Relinked, Relinked-front, Relinked-back}
use disastr_os_semaphores.LinkedList.Chain.{
  Chain, IsList, Chain-parts, Chain-append, next-last_or, ne-last_of_not-has, ne-head_of_not-has,
  SameOutside, last-ne-null,
}

-- The item that `List_insert` takes for the next one.
insert-next :
    (l : Links) (h : ListHead) (ys zs : List ℕ)
    → IsList l h (ys ++ zs)
    → (if last_or null ys == null then h.first else (l (last_or null ys)).next) ≡ head_or zs null
insert-next l h [] zs is = is.first
insert-next l h (y ∷ ys) zs is =
    let parts = Chain-parts l null (y ∷ ys) zs null is.chain in
    rw (last-ne-null l null y ys _ parts.0) (next-last_or l null y ys _ parts.0)

-- The links after the insertion, at each address.
insert_links-at :
    (l : Links) (p n item a : ℕ)
    → a ≢ null
    → item ≢ p
    → item ≢ n
    → (p ≡ null) ⊎ (p ≢ n)
    → l item ≡ link null null
    → insert_links l p n item a ≡ (
        if a == item
        then link p n
        else if a == p
        then link (l a).prev item
        else if a == n
        then link item (l a).next
        else l a)
unfolding insert_links
insert_links-at l p n item a h hp hn hpn e = ground arith

insert-first :
    (l : Links) (h : ListHead) (ys zs : List ℕ) (item : ℕ)
    → IsList l h (ys ++ zs)
    → (insert_head h (last_or null ys) (head_or zs null) item).first
      ≡ head_or (ys ++ item ∷ zs) null
unfolding insert_head
insert-first l h [] zs item is = refl
insert-first l h (y ∷ ys) zs item is =
    let parts = Chain-parts l null (y ∷ ys) zs null is.chain in
    rw (last-ne-null l null y ys _ parts.0) is.first

insert-last :
    (l : Links) (h : ListHead) (ys zs : List ℕ) (item : ℕ)
    → IsList l h (ys ++ zs)
    → (insert_head h (last_or null ys) (head_or zs null) item).last ≡ last_or null (ys ++ item ∷ zs)
unfolding insert_head
insert-last l h ys [] item is = sym (last_or-append null ys (item ∷ []))
insert-last l h ys (z ∷ zs) item is =
    let parts = Chain-parts l null ys (z ∷ zs) null is.chain in
    let e : (z == null) ≡ false = ==_ne z null parts.1.0 in
    rw (e, last_or-append null ys (item ∷ z ∷ zs)) (is.last ∙ last_or-append null ys (z ∷ zs))

insert-size :
    (l : Links) (h : ListHead) (ys zs : List ℕ) (p n item : ℕ)
    → IsList l h (ys ++ zs)
    → (insert_head h p n item).size ≡ pos (length (ys ++ item ∷ zs))
unfolding insert_head ◌+ℤ◌
insert-size l h ys zs p n item is =
    rw is.size (ground (arith, length-append ys zs, length-append ys (item ∷ zs)))

module _ (l : Links) (h : ListHead) (ys zs : List ℕ) (item : ℕ) (is : IsList l h (ys ++ zs))
    (some_item : item ≢ null) (out : has item (ys ++ zs) ≡ false)
    (unlinked : l item ≡ link null null) where
  abbrev p : ℕ
  p = last_or null ys

  abbrev n : ℕ
  n = head_or zs null

  parts : IsDistinct ys × IsDistinct zs × Disjoint ys zs
  parts = IsDistinct-parts ys zs is.distinct

  chains : Chain l null ys n × Chain l p zs null
  chains = Chain-parts l null ys zs null is.chain

  outside : (has item ys ≡ false) × (has item zs ≡ false)
  outside = ground (arith, has-append item ys zs)

  ne_last : item ≢ p
  ne_last e = let e' = ne-last_of_not-has item ys some_item outside.0 in ground arith

  ne_head : item ≢ n
  ne_head e = let e' = ne-head_of_not-has item zs some_item outside.1 in ground arith

  insert-Relinked : Relinked l (insert_links l p n item) ys zs item (link p n) item item
  insert-Relinked a h =
      insert_links-at l p n item a h ne_last ne_head (last-apart ys zs parts.2) unlinked

  insert-Chain : Chain (insert_links l p n item) null (ys ++ item ∷ zs) null
  insert-Chain =
      let l' = insert_links l p n item in
      Chain-append l' null ys (item ∷ zs) null
        (Relinked-front l l' ys zs item _ item item parts.2 insert-Relinked n chains.0 parts.0
          outside.0)
        (
          some_item,
          rw (insert-Relinked item some_item, ==_self),
          Relinked-back l l' ys zs item _ item item parts.2 insert-Relinked p chains.1 parts.1
              outside.1,
        )

  insert-IsDistinct : IsDistinct (ys ++ item ∷ zs)
  insert-IsDistinct =
      IsDistinct-append ys (item ∷ zs) parts.0 (outside.1, parts.1)
        (Disjoint-cons item ys zs parts.2 outside.0)

  insert-IsList : IsList (insert_links l p n item) (insert_head h p n item) (ys ++ item ∷ zs)
  insert-IsList = record {
    first = insert-first l h ys zs item is;
    last = insert-last l h ys zs item is;
    size = insert-size l h ys zs p n item is;
    chain = insert-Chain;
    distinct = insert-IsDistinct;
  }

  insert-SameOutside : SameOutside (item ∷ ys ++ zs) l (insert_links l p n item)
  insert-SameOutside a h m =
      let e = has-append a ys zs in
      let ep : (a == p) ≡ false = ne-last_of_not-has a ys h (ground arith) in
      let en : (a == n) ≡ false = ne-head_of_not-has a zs h (ground arith) in
      rw (insert-Relinked a h) (ground arith)

  -- `List_insert` of an item that is not NULL, is not in the list and has cleared links, behind any
  -- prefix of a well-formed list, puts the item there, returns it, and writes to no address but
  -- those of the list and of the item.
  pub insert-append :
      (insert l h p item ≡ ok (item, insert_head h p n item, insert_links l p n item))
      × IsList (insert_links l p n item) (insert_head h p n item) (ys ++ item ∷ zs)
      × SameOutside (item ∷ ys ++ zs) l (insert_links l p n item)
  unfolding insert
  insert-append = (
    rw (insert-next l h ys zs is, unlinked, ==_ne item null some_item),
    insert-IsList,
    insert-SameOutside,
  )
