-- ===== src/LinkedList/Chain.antt =====
-- What a linked list stands for: the addresses of its items, in order.
use disastr_os_semaphores.Base.{
  ℕ, ◌≡◌, refl, ap, ◌⊎◌, ◌≢◌, true, false, List, [], ◌∷◌, ◌++◌, arith, ◌==◌, if◌then◌else◌, length,
  has, Disjoint, not-has_of_Disjoint, Bool-cases, inl, inr, ==_iff, ==_ne, IsDistinct, head_or,
  last_or,
}
use disastr_os_semaphores.Base.Int.{pos}
use disastr_os_semaphores.LinkedList.{Links, ListItem, ListHead, link, null}

-- From the item behind `p` the links lead forward through `xs` to `s`, and back again to `p`.
abbrev pub Chain : Links → ℕ → List ℕ → ℕ → Type 0
Chain l p [] s = Unit
Chain l p (x ∷ xs) s = (x ≢ null) × (l x ≡ link p (head_or xs s)) × Chain l x xs s

pub record IsList (l : Links) (h : ListHead) (xs : List ℕ) : Type 0 where
  pub first : h.first ≡ head_or xs null
  pub last : h.last ≡ last_or null xs
  pub size : h.size ≡ pos (length xs)
  pub chain : Chain l null xs null
  pub distinct : IsDistinct xs

-- The two stores agree on the items of `xs`.
abbrev pub SameOn : List ℕ → Links → Links → Type 0
SameOn xs l l' = (a : ℕ) → has a xs ≡ true → l' a ≡ l a

-- The two stores agree at each address but NULL that is not in `xs`.
abbrev pub SameOutside : List ℕ → Links → Links → Type 0
SameOutside xs l l' = (a : ℕ) → a ≢ null → has a xs ≡ false → l' a ≡ l a

pub Chain-frame :
    (l l' : Links) (p : ℕ) (xs : List ℕ) (s : ℕ) → Chain l p xs s → SameOn xs l l' → Chain l' p xs s
Chain-frame l l' p [] s c same = tt
Chain-frame l l' p (x ∷ xs) s c same =
    (c.0, ground (arith, same x), Chain-frame l l' x xs s c.2 λ a m. same a (ground arith))

-- A list survives each change of the store that spares its items.
pub IsList-frame :
    (l l' : Links) {h : ListHead} {xs : List ℕ} → IsList l h xs → SameOn xs l l' → IsList l' h xs
IsList-frame l l' {h} {xs} is same = record {
  first = is.first;
  last = is.last;
  size = is.size;
  chain = Chain-frame l l' null xs null is.chain same;
  distinct = is.distinct;
}

pub Chain-parts :
    (l : Links) (p : ℕ) (xs ys : List ℕ) (s : ℕ)
    → Chain l p (xs ++ ys) s
    → Chain l p xs (head_or ys s) × Chain l (last_or p xs) ys s
Chain-parts l p [] ys s c = (tt, c)
Chain-parts l p (x ∷ []) ys s c = ((c.0, c.1, tt), c.2)
Chain-parts l p (x ∷ y ∷ xs) ys s c =
    let rest = Chain-parts l x (y ∷ xs) ys s c.2 in ((c.0, c.1, rest.0), rest.1)

pub Chain-append :
    (l : Links) (p : ℕ) (xs ys : List ℕ) (s : ℕ)
    → Chain l p xs (head_or ys s)
    → Chain l (last_or p xs) ys s
    → Chain l p (xs ++ ys) s
Chain-append l p [] ys s c d = d
Chain-append l p (x ∷ []) ys s c d = (c.0, c.1, d)
Chain-append l p (x ∷ y ∷ xs) ys s c d = (c.0, c.1, Chain-append l x (y ∷ xs) ys s c.2 d)

pub has-last_or : (x : ℕ) (xs : List ℕ) → has (last_or x xs) (x ∷ xs) ≡ true
has-last_or x [] = ground arith
has-last_or x (y ∷ xs) = ground (arith, has-last_or y xs)

pub ne_of_has : (x a : ℕ) (xs : List ℕ) → has x xs ≡ false → has a xs ≡ true → (x == a) ≡ false
ne_of_has x a xs out m = elim (Bool-cases (x == a)) [
  | inl e ↦ let e' : x ≡ a = (==_iff x a).0 e in cc (rw e' at out)
  | inr n ↦ n
]

pub not-null_of_has :
    (l : Links) (p a : ℕ) (xs : List ℕ) (s : ℕ) → Chain l p xs s → has a xs ≡ true → a ≢ null
not-null_of_has l p a [] s c m = absurd (cc)
not-null_of_has l p a (x ∷ xs) s c m = ground (arith, not-null_of_has l x a xs s c.2)

-- The last item is given a new successor.
pub Chain-relink_last :
    (l l' : Links) (p : ℕ) (xs : List ℕ) (s s' : ℕ)
    → Chain l p xs s
    → IsDistinct xs
    → ((a : ℕ) → has a xs ≡ true → l' a ≡ (if a == last_or p xs then link (l a).prev s' else l a))
    → Chain l' p xs s'
Chain-relink_last l l' p [] s s' c d same = tt
Chain-relink_last l l' p (x ∷ []) s s' c d same = (c.0, ground (arith, same x), tt)
Chain-relink_last l l' p (x ∷ y ∷ xs) s s' c d same = (
  c.0,
  rw (same x (ground arith), ne_of_has x _ (y ∷ xs) d.0 (has-last_or y xs)) c.1,
  Chain-relink_last l l' x (y ∷ xs) s s' c.2 d.1 λ a m. same a (ground arith),
)

-- The first item is given a new predecessor.
pub Chain-relink_head :
    (l l' : Links) (p p' : ℕ) (xs : List ℕ) (s : ℕ)
    → Chain l p xs s
    → IsDistinct xs
    → ((a : ℕ)
        → has a xs ≡ true
        → l' a ≡ (if a == head_or xs null then link p' (l a).next else l a))
    → Chain l' p' xs s
Chain-relink_head l l' p p' [] s c d same = tt
Chain-relink_head l l' p p' (x ∷ xs) s c d same =
    (c.0, ground (arith, same x), Chain-frame l l' x xs s c.2 λ a m. ground (arith, same a))

-- The successor of the last item.
pub next-last_or :
    (l : Links) (p x : ℕ) (xs : List ℕ) (s : ℕ) → Chain l p (x ∷ xs) s → (l (last_or x xs)).next ≡ s
next-last_or l p x [] s c = ap (λ (i : ListItem). i.next) c.1
next-last_or l p x (y ∷ xs) s c = next-last_or l x y xs s c.2

-- Either the list is empty, or its last item is one of its items.
pub last_or-cases :
    (xs : List ℕ) → ((xs ≡ []) × (last_or null xs ≡ null)) ⊎ (has (last_or null xs) xs ≡ true)
last_or-cases [] = inl (refl, refl)
last_or-cases (x ∷ xs) = inr (has-last_or x xs)

pub head_or-cases :
    (xs : List ℕ) → ((xs ≡ []) × (head_or xs null ≡ null)) ⊎ (has (head_or xs null) xs ≡ true)
head_or-cases [] = inl (refl, refl)
head_or-cases (x ∷ xs) = inr (ground arith)

pub last-ne-null :
    (l : Links) (p x : ℕ) (xs : List ℕ) (s : ℕ)
    → Chain l p (x ∷ xs) s
    → (last_or x xs == null) ≡ false
last-ne-null l p x xs s c = ==_ne _ _ (not-null_of_has l p _ (x ∷ xs) s c (has-last_or x xs))

-- What is outside a list is not its last or its first item.
pub ne-last_of_not-has :
    (a : ℕ) (xs : List ℕ) → a ≢ null → has a xs ≡ false → (a == last_or null xs) ≡ false
ne-last_of_not-has a xs h out = elim (last_or-cases xs) [
  | inl (_, e) ↦ ground arith
  | inr m ↦ ne_of_has a _ xs out m
]

pub ne-head_of_not-has :
    (a : ℕ) (xs : List ℕ) → a ≢ null → has a xs ≡ false → (a == head_or xs null) ≡ false
ne-head_of_not-has a xs h out = elim (head_or-cases xs) [
  | inl (_, e) ↦ ground arith
  | inr m ↦ ne_of_has a _ xs out m
]

-- A list survives a change of the store that touches only addresses outside it.
pub IsList-apart :
    (l l' : Links) (ys : List ℕ) {h : ListHead} {xs : List ℕ}
    → IsList l h xs
    → SameOutside ys l l'
    → Disjoint xs ys
    → IsList l' h xs
IsList-apart l l' ys {xs} is same apart = IsList-frame l l' is λ a m.
    same a (not-null_of_has l null a xs null is.chain m) (not-has_of_Disjoint a xs ys apart m)
