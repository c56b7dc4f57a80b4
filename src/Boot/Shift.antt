-- ===== src/Boot/Shift.antt =====
-- The page database's lists as the kernel sees them: `shift` of lib/ebl/linked_list.h, as
-- loader/x86-64-multiboot2/main.cc uses it.
use cxkernel.Base.{
  ℕ, zero, suc, ◌+◌, ◌-◌, ◌*◌, ◌^◌, ◌<◌, ◌≡◌, ◌≢◌, arith, refl, ap, ◌∙◌, false, List, [], ◌∷◌, map,
  All, NotIn, Distinct, ◌==◌, if◌then◌else◌,
}
use cxkernel.Bits.{u64}
use cxkernel.LinkedList.{Ptr, null, Links}
use cxkernel.LinkedList.Chain.{Chain}
use cxkernel.LinkedList.Ring.{IsRing}

-- `if(virt0_ != 0) virt0_ += offset`
unfoldable pub shift : ℕ → Ptr → Ptr
shift offset p = if p == 0 then 0 else u64 (p + offset)

-- `shift` of a node: its next and its prev
unfoldable pub shift_node : ℕ → Ptr → Links → Links
shift_node offset node s = record {
  next = λ q. if q == node then shift offset (s.next node) else s.next q;
  prev = λ q. if q == node then shift offset (s.prev node) else s.prev q;
}

-- The loop over the nodes of an array, from the address of the first on.
unfoldable pub shift_array : ℕ → ℕ → Ptr → ℕ → Links → Links
shift_array offset sizeof_page page zero s = s
shift_array offset sizeof_page page (suc n) s =
    shift_array offset sizeof_page (page + sizeof_page) n (shift_node offset page s)

-- The store through addresses that are higher by the offset.
abbrev pub seen : ℕ → Links → Links
seen offset s = record { next = λ v. s.next (v - offset); prev = λ v. s.prev (v - offset) }

-- The node's links have been shifted, and the shift of its address does not wrap.
abbrev pub IsShifted : ℕ → Links → Links → Ptr → Type 0
IsShifted offset s t p =
    (t.next p ≡ shift offset (s.next p))
    × (t.prev p ≡ shift offset (s.prev p))
    × (p ≢ 0)
    × (p + offset < 2 ^ 64)

shift_array-before :
    (offset size : ℕ) (page : Ptr) (n : ℕ) (s : Links) (p : Ptr)
    → p < page
    → ((shift_array offset size page n s).next p ≡ s.next p)
      × ((shift_array offset size page n s).prev p ≡ s.prev p)
unfolding shift_array shift_node
shift_array-before offset size page zero s p lt = (refl, refl)
shift_array-before offset size page (suc n) s p lt =
    let ih =
      shift_array-before offset size (page + size) n (shift_node offset page s) p
        (omega (arith, lt)) in
    (ih.0 ∙ ground (arith, lt), ih.1 ∙ ground (arith, lt))

shift_array-at :
    (offset size : ℕ) (page : Ptr) (n i : ℕ) (s : Links) (p : Ptr)
    → size ≢ 0
    → i < n
    → p ≡ page + i * size
    → ((shift_array offset size page n s).next p ≡ shift offset (s.next p))
      × ((shift_array offset size page n s).prev p ≡ shift offset (s.prev p))
unfolding shift_array shift_node
shift_array-at offset size page zero i s p some_size lt e = absurd (omega (arith, lt))
shift_array-at offset size page (suc n) zero s p some_size lt e =
    let here : p ≡ page = omega (arith, e) in
    let kept =
      shift_array-before offset size (page + size) n (shift_node offset page s) p
        (omega (arith, here, some_size)) in
    let next = ap (λ x. shift offset (s.next x)) here in
    let prev = ap (λ x. shift offset (s.prev x)) here in
    (kept.0 ∙ ground (arith, here, next), kept.1 ∙ ground (arith, here, prev))
shift_array-at offset size page (suc n) (suc i) s p some_size lt e =
    let times : suc i * size ≡ size + i * size = omega arith in
    let ih =
      shift_array-at offset size (page + size) n i (shift_node offset page s) p some_size
        (omega (arith, lt)) (omega (arith, e, times)) in
    let past : (p == page) ≡ false = ground (arith, e, times, some_size) in
    (
      ih.0 ∙ ap (λ c. shift offset (if c then shift offset (s.next page) else s.next p)) past,
      ih.1 ∙ ap (λ c. shift offset (if c then shift offset (s.prev page) else s.prev p)) past,
    )

shift-some : (offset : ℕ) (p : Ptr) → p ≢ 0 → p + offset < 2 ^ 64 → shift offset p ≡ p + offset
unfolding shift
shift-some offset p ne lt = ground (arith, ne, lt)

module _ (offset : ℕ) (s t : Links) where
  abbrev moved : Ptr → Ptr
  moved p = p + offset

  back : (p : Ptr) → moved p - offset ≡ p
  back p = omega arith

  seen-next :
      (a x : Ptr)
      → IsShifted offset s t a
      → IsShifted offset s t x
      → s.next a ≡ x
      → t.next (moved a - offset) ≡ moved x
  seen-next a x ha hx e =
      ap (λ v. t.next v) (back a) ∙ ha.0 ∙ ap (shift offset) e ∙ shift-some offset x hx.2 hx.3

  seen-prev :
      (a x : Ptr)
      → IsShifted offset s t a
      → IsShifted offset s t x
      → s.prev a ≡ x
      → t.prev (moved a - offset) ≡ moved x
  seen-prev a x ha hx e =
      ap (λ v. t.prev v) (back a) ∙ ha.1 ∙ ap (shift offset) e ∙ shift-some offset x hx.2 hx.3

  seen-Chain :
      (a : Ptr) (xs : List Ptr) (b : Ptr)
      → IsShifted offset s t a
      → All (IsShifted offset s t) xs
      → IsShifted offset s t b
      → Chain s a xs b
      → Chain (seen offset t) (moved a) (map moved xs) (moved b)
  seen-Chain a [] b ha hs hb c = (seen-next a b ha hb c.0, seen-prev b a hb ha c.1)
  seen-Chain a (x ∷ xs) b ha hs hb c =
      (seen-next a x ha hs.0 c.0, seen-prev x a hs.0 ha c.1, seen-Chain x xs b hs.0 hs.1 hb c.2)

  moved-NotIn : (p : Ptr) (xs : List Ptr) → NotIn p xs → NotIn (moved p) (map moved xs)
  moved-NotIn p [] h = tt
  moved-NotIn p (x ∷ xs) h = ((λ e. h.0 (omega (arith, e))), moved-NotIn p xs h.1)

  moved-null : (xs : List Ptr) → All (IsShifted offset s t) xs → NotIn null (map moved xs)
  moved-null [] h = tt
  moved-null (x ∷ xs) h = ((λ e. h.0.2 (omega (arith, e))), moved-null xs h.1)

  moved-Distinct : (xs : List Ptr) → Distinct xs → Distinct (map moved xs)
  moved-Distinct [] h = tt
  moved-Distinct (x ∷ xs) h = (moved-NotIn x xs h.0, moved-Distinct xs h.1)

  seen-IsRing :
      (root : Ptr) (xs : List Ptr)
      → All (IsShifted offset s t) xs
      → IsRing s root xs
      → IsRing (seen offset t) (shift offset root) (map moved xs)
  unfolding shift
  seen-IsRing root [] hs h = ground (arith, h)
  seen-IsRing root (x ∷ xs) hs h =
      let first : shift offset root ≡ moved x =
        ap (shift offset) h.0 ∙ shift-some offset x hs.0.2 hs.0.3 in
      (
        first,
        moved-null (x ∷ xs) hs,
        moved-Distinct (x ∷ xs) h.2,
        seen-Chain x xs x hs.0 hs.1 hs.0 h.3,
      )

-- the node is one of the array
abbrev pub IsPage : ℕ → Ptr → ℕ → ℕ → Ptr → Type 0
IsPage size page n offset p =
    (i : ℕ) × (i < n) × (p ≡ page + i * size) × (p ≢ 0) × (p + offset < 2 ^ 64)

pages-IsShifted :
    (offset size : ℕ) (page : Ptr) (n : ℕ) (s : Links) (xs : List Ptr)
    → size ≢ 0
    → All (IsPage size page n offset) xs
    → All (IsShifted offset s (shift_array offset size page n s)) xs
pages-IsShifted offset size page n s [] some_size h = tt
pages-IsShifted offset size page n s (x ∷ xs) some_size (h, hs) =
    let at = shift_array-at offset size page n h.0 s x some_size h.1 h.2 in
    ((at.0, at.1, h.3, h.4), pages-IsShifted offset size page n s xs some_size hs)

-- A list whose nodes are pages of the database is, once the loader has shifted the pages' links and
-- the list, the list of the same pages at their addresses in the kernel's mapping, in the same order,
-- when no such address wraps.
pub shift-IsRing :
    (offset size : ℕ) (page : Ptr) (n : ℕ) (s : Links) (root : Ptr) (xs : List Ptr)
    → size ≢ 0
    → All (IsPage size page n offset) xs
    → IsRing s root xs
    → IsRing
        (seen offset (shift_array offset size page n s))
        (shift offset root)
        (map (λ p. p + offset) xs)
shift-IsRing offset size page n s root xs some_size pages h =
    seen-IsRing offset s (shift_array offset size page n s) root xs
      (pages-IsShifted offset size page n s xs some_size pages) h
