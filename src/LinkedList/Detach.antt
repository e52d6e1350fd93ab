-- ===== src/LinkedList/Detach.antt =====
-- `List_detach` of linked_list.c takes an item out of the list and clears its links.
use disastr_os_semaphores.Base.{
  ℕ, ◌≡◌, ◌≢◌, ◌⊎◌, false, List, [], ◌∷◌, ◌++◌, arith, ◌==◌, if◌then◌else◌, ==_self, ==_ne, length,
  length-append, has, has-append, IsDistinct, IsDistinct-parts, IsDistinct-append, Disjoint,
  Disjoint-tail, head_or, last_or, last_or-append, ok, not-has_of_Disjoint-cons, append-nil,
}
use disastr_os_semaphores.Base.Int.{pos, ◌-ℤ◌}
use disastr_os_semaphores.LinkedList.{
  Links, ListHead, link, null, detach, detach_links, detach_head,
}
use disastr_os_semaphores.LinkedList.Relink.{last-apart, Relinked, Relinked-front, Relinked-back}
use disastr_os_semaphores.LinkedList.Chain.{
  Chain, IsList, SameOutside, Chain-parts, Chain-append, ne-last_of_not-has, ne-head_of_not-has,
  has-last_or, ne_of_has,
}

-- The links after the removal, at each address.
detach_links-at :
    (l : Links) (p n item a : ℕ)
    → a ≢ null
    → item ≢ p
    → item ≢ n
    → (p ≡ null) ⊎ (p ≢ n)
    → detach_links l p n item a ≡ (
        if a == item
        then link null null
        else if a == p
        then link (l a).prev n
        else if a == n
        then link p (l a).next
        else l a)
unfolding detach_links
detach_links-at l p n item a h hp hn hpn = ground arith

detach-first :
    (l : Links) (h : ListHead) (ys zs : List ℕ) (item : ℕ)
    → IsList l h (ys ++ item ∷ zs)
    → has item ys ≡ false
    → (detach_head h (last_or null ys) (head_or zs null) item).first ≡ head_or (ys ++ zs) null
unfolding detach_head
detach-first l h [] zs item is out = rw (is.first, ==_self)
detach-first l h (y ∷ ys) zs item is out =
    let e : (item == y) ≡ false = ground arith in rw (is.first, e)

detach-last :
    (l : Links) (h : ListHead) (ys zs : List ℕ) (item : ℕ)
    → IsList l h (ys ++ item ∷ zs)
    → has item zs ≡ false
    → (detach_head h (last_or null ys) (head_or zs null) item).last ≡ last_or null (ys ++ zs)
unfolding detach_head
detach-last l h ys [] item is out =
    rw (is.last, last_or-append null ys (item ∷ []), ==_self, append-nil)
detach-last l h ys (z ∷ zs) item is out = rw (
  is.last,
  last_or-append null ys (item ∷ z ∷ zs),
  ne_of_has item _ (z ∷ zs) out (has-last_or z zs),
  last_or-append null ys (z ∷ zs),
)

detach-size :
    (l : Links) (h : ListHead) (ys zs : List ℕ) (p n item : ℕ)
    → IsList l h (ys ++ item ∷ zs)
    → (detach_head h p n item).size ≡ pos (length (ys ++ zs))
unfolding detach_head ◌-ℤ◌
detach-size l h ys zs p n item is =
    rw is.size (ground (arith, length-append ys zs, length-append ys (item ∷ zs)))

-- An item that is nowhere else in the list, at its place.
module _ (l : Links) (h : ListHead) (ys zs : List ℕ) (item : ℕ)
    (is : IsList l h (ys ++ item ∷ zs)) where
  abbrev p : ℕ
  p = last_or null ys

  abbrev n : ℕ
  n = head_or zs null

  parts : IsDistinct ys × IsDistinct (item ∷ zs) × Disjoint ys (item ∷ zs)
  parts = IsDistinct-parts ys (item ∷ zs) is.distinct

  chains : Chain l null ys item × Chain l p (item ∷ zs) null
  chains = Chain-parts l null ys (item ∷ zs) null is.chain

  pub some_item : item ≢ null
  some_item = chains.1.0

  neighbours : l item ≡ link p n
  neighbours = chains.1.1

  apart : Disjoint ys zs
  apart = Disjoint-tail item ys zs parts.2

  outside : (has item ys ≡ false) × (has item zs ≡ false)
  outside = (not-has_of_Disjoint-cons item ys zs parts.2, parts.1.0)

  ne_last : item ≢ p
  ne_last e = let e' = ne-last_of_not-has item ys some_item outside.0 in ground arith

  ne_head : item ≢ n
  ne_head e = let e' = ne-head_of_not-has item zs some_item outside.1 in ground arith

  detach-Relinked : Relinked l (detach_links l p n item) ys zs item (link null null) n p
  detach-Relinked a h = detach_links-at l p n item a h ne_last ne_head (last-apart ys zs apart)

  detach-Chain : Chain (detach_links l p n item) null (ys ++ zs) null
  detach-Chain =
      let l' = detach_links l p n item in
      Chain-append l' null ys zs null
        (Relinked-front l l' ys zs item _ n p apart detach-Relinked item chains.0 parts.0 outside.0)
        (Relinked-back l l' ys zs item _ n p apart detach-Relinked item chains.1.2 parts.1.1
          outside.1)

  detach-IsList : IsList (detach_links l p n item) (detach_head h p n item) (ys ++ zs)
  detach-IsList = record {
    first = detach-first l h ys zs item is outside.0;
    last = detach-last l h ys zs item is outside.1;
    size = detach-size l h ys zs p n item is;
    chain = detach-Chain;
    distinct = IsDistinct-append ys zs parts.0 parts.1.1 apart;
  }

  detach-SameOutside : SameOutside (ys ++ item ∷ zs) l (detach_links l p n item)
  detach-SameOutside a h m =
      let e = has-append a ys (item ∷ zs) in
      let ep = ne-last_of_not-has a ys h (ground arith) in
      let en = ne-head_of_not-has a zs h (ground arith) in rw (detach-Relinked a h) (ground arith)

  -- `List_detach` of an item of a well-formed list takes it out, returns it, leaves its links
  -- cleared, and writes to no address but those of the list.
  pub detach-remove :
      (detach l h item ≡ ok (item, detach_head h p n item, detach_links l p n item))
      × IsList (detach_links l p n item) (detach_head h p n item) (ys ++ zs)
      × (detach_links l p n item item ≡ link null null)
      × SameOutside (ys ++ item ∷ zs) l (detach_links l p n item)
  unfolding detach
  detach-remove = (
    rw (neighbours, ==_ne item null some_item),
    detach-IsList,
    rw (detach-Relinked item some_item, ==_self),
    detach-SameOutside,
  )
