-- ===== src/Kernel/Cmd.antt =====
-- Kernel code as commands on the state, and the accesses that it makes: to structures through
-- pointers, to the lists of linked_list.c through `ListHead *`, to the pools of pool_allocator.c.
use disastr_os_semaphores.Base.{ℕ, suc, Bool, ◌==◌, if◌then◌else◌, Outcome, ok, fault, and_then}
use disastr_os_semaphores.Base.Int.{ℤ, pos_part}
use disastr_os_semaphores.LinkedList
use disastr_os_semaphores.LinkedList.{Links, ListHead, null, link, scan}
use disastr_os_semaphores.PoolAllocator.{PoolAllocatorResult, init, get_block, release_block}
use disastr_os_semaphores.Kernel.{
  System, Store, Pcb, PcbPtr, TimerItem, Resource, Descriptor, DescriptorPtr, Semaphore,
  SemDescriptor, SemDescriptorPtr,
}

abbrev pub Cmd : Type 0 → Type 0
Cmd A = System → Outcome (A × System)

abbrev pub pure : {A : Type 0} → A → Cmd A
pure a s = ok (a, s)

abbrev pub done : Cmd (Unit {0})
done s = ok (tt, s)

infixl 5 ◌>>=◌ ◌>>◌
abbrev pub ◌>>=◌ : {A B : Type 0} → Cmd A → (A → Cmd B) → Cmd B
◌>>=◌ m k s = and_then (m s) (λ r. k r.0 r.1)

abbrev pub ◌>>◌ : {A B : Type 0} → Cmd A → Cmd B → Cmd B
◌>>◌ m k s = and_then (m s) (λ r. k r.1)

-- The state as it is, and a change of it.
abbrev pub get : Cmd System
get s = ok (s, s)

abbrev pub put : (System → System) → Cmd (Unit {0})
put f s = ok (tt, f s)

-- `assert`
abbrev pub assert : Bool → Cmd (Unit {0})
assert b s = if b then ok (tt, s) else fault

-- The store of one type of structure.
pub record Table (T : Type 0) : Type 0 where
  pub store : System → Store T
  pub with_store : Store T → System → System

abbrev pub write_at : {T : Type 0} → (ℕ → T) → ℕ → T → ℕ → T
write_at f a v b = if b == a then v else f b

-- `*p`, and `*p = v`: a fault at NULL.
unfoldable pub load : {T : Type 0} → Table T → ℕ → Cmd T
load t p s = if p == null then fault else ok ((t.store s).at p, s)

-- The state after a write to a structure.
abbrev pub modified : {T : Type 0} → Table T → ℕ → (T → T) → System → System
modified t p f s =
    t.with_store (record (t.store s) { at = write_at (t.store s).at p (f ((t.store s).at p)) }) s

unfoldable pub modify : {T : Type 0} → Table T → ℕ → (T → T) → Cmd (Unit {0})
modify t p f s = if p == null then fault else ok (tt, modified t p f s)

-- `p->list.prev=0; p->list.next=0;`
unfoldable pub unlink : {T : Type 0} → Table T → ℕ → Cmd (Unit {0})
unlink t p s =
    let st = t.store s in
    if p == null
    then fault
    else ok
        (tt, t.with_store (record st { links = LinkedList.write st.links p (link null null) }) s)

-- `PoolAllocator_getBlock`, `PoolAllocator_init` and `PoolAllocator_releaseBlock` on the pool of the type.
unfoldable pub alloc_block : {T : Type 0} → Table T → Cmd ℕ
alloc_block t s =
    let st = t.store s in
    and_then (get_block st.pool) (λ r. ok (r.0, t.with_store (record st { pool = r.1 }) s))

unfoldable pub pool_init :
    {T : Type 0} → Table T → (item_size num_items buffer : ℕ) → ℤ → Cmd PoolAllocatorResult
pool_init t item_size num_items buffer memory_size s =
    let st = t.store s in
    and_then (init item_size num_items buffer memory_size st.pool)
      (λ r. ok (r.0, t.with_store (record st { pool = r.1 }) s))

unfoldable pub free_block : {T : Type 0} → Table T → ℕ → Cmd PoolAllocatorResult
free_block t p s =
    let st = t.store s in
    and_then (release_block st.pool p) (λ r. ok (r.0, t.with_store (record st { pool = r.1 }) s))

abbrev pub pcbs : Table Pcb
pcbs = record { store = λ s. s.pcbs; with_store = λ st s. record s { pcbs = st } }

abbrev pub pcb_ptrs : Table PcbPtr
pcb_ptrs = record { store = λ s. s.pcb_ptrs; with_store = λ st s. record s { pcb_ptrs = st } }

abbrev pub timer_items : Table TimerItem
timer_items = record {
  store = λ s. s.timer_items;
  with_store = λ st s. record s { timer_items = st };
}

abbrev pub resources : Table Resource
resources = record { store = λ s. s.resources; with_store = λ st s. record s { resources = st } }

abbrev pub descriptors : Table Descriptor
descriptors = record {
  store = λ s. s.descriptors;
  with_store = λ st s. record s { descriptors = st };
}

abbrev pub descriptor_ptrs : Table DescriptorPtr
descriptor_ptrs = record {
  store = λ s. s.descriptor_ptrs;
  with_store = λ st s. record s { descriptor_ptrs = st };
}

abbrev pub semaphores : Table Semaphore
semaphores = record { store = λ s. s.semaphores; with_store = λ st s. record s { semaphores = st } }

abbrev pub sem_descriptors : Table SemDescriptor
sem_descriptors = record {
  store = λ s. s.sem_descriptors;
  with_store = λ st s. record s { sem_descriptors = st };
}

abbrev pub sem_descriptor_ptrs : Table SemDescriptorPtr
sem_descriptor_ptrs = record {
  store = λ s. s.sem_descriptor_ptrs;
  with_store = λ st s. record s { sem_descriptor_ptrs = st };
}

-- What a `ListHead *` stands for: a head in the structure `owner` (a number but NULL for the global
-- lists), and the links of its items. An access through NULL is a fault.
pub record ListRef : Type 0 where
  pub owner : ℕ
  pub links : System → Links
  pub head : System → ListHead
  pub with_list : Links → ListHead → System → System

-- `List_init`
abbrev pub list_init : ListRef → Cmd (Unit {0})
list_init l s =
    if l.owner == null then fault else ok (tt, l.with_list (l.links s) LinkedList.init s)

-- `l->first`, `l->last` and `l->size`
abbrev pub first : ListRef → Cmd ℕ
first l s = if l.owner == null then fault else ok ((l.head s).first, s)

abbrev pub last : ListRef → Cmd ℕ
last l s = if l.owner == null then fault else ok ((l.head s).last, s)

abbrev pub size : ListRef → Cmd ℤ
size l s = if l.owner == null then fault else ok ((l.head s).size, s)

unfoldable pub list_insert : ListRef → (prev item : ℕ) → Cmd ℕ
list_insert l prev item s =
    if l.owner == null
    then fault
    else and_then (LinkedList.insert (l.links s) (l.head s) prev item)
        (λ r. ok (r.0, l.with_list r.2 r.1 s))

unfoldable pub list_detach : ListRef → ℕ → Cmd ℕ
list_detach l item s =
    if l.owner == null
    then fault
    else and_then (LinkedList.detach (l.links s) (l.head s) item)
        (λ r. ok (r.0, l.with_list r.2 r.1 s))

-- `((ListItem *) p)->next`
abbrev pub next : {T : Type 0} → Table T → ℕ → Cmd ℕ
next t p s = if p == null then fault else ok (((t.store s).links p).next, s)

-- Fuel for a walk through the list: one round for each item, and one to see the end.
abbrev pub rounds : ListHead → ℕ
rounds h = suc (pos_part h.size)

-- The walk from the first item to one that passes the test: NULL if none does.
unfoldable pub find_by : ListRef → (System → ℕ → Bool) → Cmd ℕ
find_by l test s =
    if l.owner == null
    then fault
    else and_then (scan (test s) (l.links s) (rounds (l.head s)) (l.head s).first) (λ r. ok (r, s))
