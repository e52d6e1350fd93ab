-- ===== src/LinkedList/Relink.antt =====
-- What `List_insert` and `List_detach` have in common: between a prefix and the rest of a list, the
-- last item of the one and the first item of the other are given new neighbours.
use disastr_os_semaphores.Base.{
  ℕ, ◌≡◌, ◌≢◌, ◌⊎◌, inl, inr, Bool-cases, ==_iff, true, false, List, arith, ◌==◌, if◌then◌else◌,
  has, IsDistinct, Disjoint, not-has_of_Disjoint, head_or, last_or,
}
use disastr_os_semaphores.LinkedList.{Links, ListItem, link, null}
use disastr_os_semaphores.LinkedList.Chain.{
  Chain, Chain-relink_last, Chain-relink_head, last_or-cases, head_or-cases, ne_of_has,
  not-null_of_has,
}

pub ne-head :
    (a : ℕ) (ys zs : List ℕ)
    → Disjoint ys zs
    → a ≢ null
    → has a ys ≡ true
    → (a == head_or zs null) ≡ false
ne-head a ys zs d h m = elim (head_or-cases zs) [
  | inl (_, e) ↦ ground arith
  | inr m' ↦ ne_of_has a _ zs (not-has_of_Disjoint a ys zs d m) m'
]

pub ne-last :
    (a : ℕ) (ys zs : List ℕ)
    → Disjoint ys zs
    → a ≢ null
    → has a zs ≡ true
    → (a == last_or null ys) ≡ false
ne-last a ys zs d h m = elim (last_or-cases ys) [
  | inl (_, e) ↦ ground arith
  | inr m' ↦
      let e = ne_of_has (last_or null ys) a zs (not-has_of_Disjoint _ ys zs d m') m in ground arith
]

pub last-apart :
    (ys zs : List ℕ)
    → Disjoint ys zs
    → (last_or null ys ≡ null) ⊎ (last_or null ys ≢ head_or zs null)
last-apart ys zs d = elim (last_or-cases ys) [
  | inl (_, e) ↦ inl e
  | inr m ↦ elim (Bool-cases (last_or null ys == null)) [
    | inl e ↦ inl ((==_iff _ null).0 e)
    | inr e ↦ inr λ e'. let r = ne-head _ ys zs d (ground arith) m in ground arith
  ]
]

-- At each address but NULL: `item` holds `v`, the last item of `ys` is followed by `s`, the first
-- of `zs` by `p` before it, and nothing else is changed.
abbrev pub Relinked : Links → Links → List ℕ → List ℕ → ℕ → ListItem → ℕ → ℕ → Type 0
Relinked l l' ys zs item v s p =
    (a : ℕ)
    → a ≢ null
    → l' a ≡ (
        if a == item
        then v
        else if a == last_or null ys
        then link (l a).prev s
        else if a == head_or zs null
        then link p (l a).next
        else l a)

module _ (l l' : Links) (ys zs : List ℕ) (item : ℕ) (v : ListItem) (s p : ℕ)
    (apart : Disjoint ys zs) (at : Relinked l l' ys zs item v s p) where
  pub Relinked-front :
      (s0 : ℕ) → Chain l null ys s0 → IsDistinct ys → has item ys ≡ false → Chain l' null ys s
  Relinked-front s0 c d out = Chain-relink_last l l' null ys s0 s c d λ a m.
      let h = not-null_of_has l null a ys s0 c m in
      let e = ne_of_has item a ys out m in
      let e' : (a == item) ≡ false = ground arith in rw (at a h, e', ne-head a ys zs apart h m)

  pub Relinked-back :
      (p0 : ℕ) → Chain l p0 zs null → IsDistinct zs → has item zs ≡ false → Chain l' p zs null
  Relinked-back p0 c d out = Chain-relink_head l l' p0 p zs null c d λ a m.
      let h = not-null_of_has l p0 a zs null c m in
      let e = ne_of_has item a zs out m in
      let e' : (a == item) ≡ false = ground arith in rw (at a h, e', ne-last a ys zs apart h m)
