-- ===== src/LinkedList.antt =====
-- sorgente/linked_list.h and sorgente/linked_list.c: the intrusive doubly linked list.
--
-- A list threads through the `ListItem` that is the first field of a structure. `Links` is the
-- store of those fields for one type of structure, by address; 0 is NULL. The lists of one type
-- share their store. The code under `_LIST_DEBUG_` is left out, as the build does not define it.
pub mod Chain
pub mod Relink
pub mod Insert
pub mod Detach
pub mod Family
pub mod Find
pub mod Tests
use disastr_os_semaphores.Base.{
  ℕ, zero, suc, Bool, not, ◌||◌, ◌==◌, if◌then◌else◌, Outcome, ok, fault, out_of_fuel,
}
use disastr_os_semaphores.Base.Int.{ℤ, pos, ◌+ℤ◌, ◌-ℤ◌}

abbrev pub null : ℕ
null = 0

pub record ListItem : Type 0 where
  pub prev : ℕ
  pub next : ℕ

pub record ListHead : Type 0 where
  pub first : ℕ
  pub last : ℕ
  pub size : ℤ

abbrev pub Links : Type 0
Links = ℕ → ListItem

abbrev pub link : ℕ → ℕ → ListItem
link p n = record { prev = p; next = n }

-- `List_init`
abbrev pub init : ListHead
init = record { first = null; last = null; size = pos 0 }

-- One write to a `ListItem`, or to one of its fields.
abbrev pub write : Links → ℕ → ListItem → Links
write l a v b = if b == a then v else l b

abbrev pub set_prev : Links → ℕ → ℕ → Links
set_prev l a p = write l a (link p (l a).next)

abbrev pub set_next : Links → ℕ → ℕ → Links
set_next l a n = write l a (link (l a).prev n)

-- The scan of a list for the first item that passes a test, shared by `List_find` and the
-- `byPID`, `byFd` and `byId` functions: NULL if there is none.
unfoldable pub scan : (ℕ → Bool) → Links → ℕ → ℕ → Outcome ℕ
scan test l zero aux = out_of_fuel
scan test l (suc fuel) aux =
    let rest = scan test l fuel (l aux).next in
    if aux == null then ok null else if test aux then ok aux else rest

-- `List_find`
unfoldable pub find : ℕ → Links → ListHead → ℕ → Outcome ℕ
unfolding scan
find fuel l h item = scan (λ aux. aux == item) l fuel h.first

-- `List_insert`, from `item->prev=prev` on: the writes to the links, and those to the head.
unfoldable pub insert_links : Links → (prev next item : ℕ) → Links
insert_links l prev next item =
    let l1 = if prev == null then l else set_next (set_prev l item prev) prev item in
    if next == null then l1 else set_prev (set_next l1 item next) next item

unfoldable pub insert_head : ListHead → (prev next item : ℕ) → ListHead
insert_head h prev next item = record {
  first = if prev == null then item else h.first;
  last = if next == null then item else h.last;
  size = h.size +ℤ pos 1;
}

-- `List_insert`: the pointer that it returns, the head and the links.
unfoldable pub insert : Links → ListHead → (prev item : ℕ) → Outcome (ℕ × ListHead × Links)
insert l h prev item =
    let next = if prev == null then h.first else (l prev).next in
    if item == null
    then fault
    else if not ((l item).next == null) || not ((l item).prev == null)
    then ok (null, h, l)
    else ok (item, insert_head h prev next item, insert_links l prev next item)

-- `List_detach`, from `if (prev)` on: the writes to the links, and those to the head.
unfoldable pub detach_links : Links → (prev next item : ℕ) → Links
detach_links l prev next item =
    let l1 = if prev == null then l else set_next l prev next in
    let l2 = if next == null then l1 else set_prev l1 next prev in write l2 item (link null null)

unfoldable pub detach_head : ListHead → (prev next item : ℕ) → ListHead
detach_head h prev next item = record {
  first = if item == h.first then next else h.first;
  last = if item == h.last then prev else h.last;
  size = h.size -ℤ pos 1;
}

-- `List_detach`: the pointer that it returns, the head and the links.
unfoldable pub detach : Links → ListHead → ℕ → Outcome (ℕ × ListHead × Links)
detach l h item =
    let prev = (l item).prev in
    let next = (l item).next in
    if item == null
    then fault
    else ok (item, detach_head h prev next item, detach_links l prev next item)
