-- ===== src/LinkedList/Chain.antt =====
-- The shape of a list in the store: chains of nodes linked both ways, and what the writes of
-- `insert_before_unsafe` and `remove_unsafe` of lib/ebl/linked_list.h do to them.
use cxkernel.Base.{
  ◌≡◌, ◌≢◌, List, [], ◌∷◌, ◌++◌, arith, NotIn, Distinct, All, All-left, All-right, ◌∙◌, sym,
}
use mathlib.Core.Path.{subst}
use cxkernel.LinkedList.{Ptr, null, Links, update}

-- From `a` the links lead through `xs` to `b`, and back.
abbrev pub Chain : Links → Ptr → List Ptr → Ptr → Type 0
Chain s a [] b = (s.next a ≡ b) × (s.prev b ≡ a)
Chain s a (x ∷ xs) b = (s.next a ≡ x) × (s.prev x ≡ a) × Chain s x xs b

abbrev pub last_of : Ptr → List Ptr → Ptr
last_of a [] = a
last_of a (x ∷ xs) = last_of x xs

abbrev pub first_of_chain : List Ptr → Ptr → Ptr
first_of_chain [] b = b
first_of_chain (x ∷ xs) b = x

module _ (s : Links) (a b : Ptr) where
  pub next-first : (xs : List Ptr) → Chain s a xs b → s.next a ≡ first_of_chain xs b
  next-first [] c = c.0
  next-first (x ∷ xs) c = c.0

pub prev-last : (s : Links) (a b : Ptr) (xs : List Ptr) → Chain s a xs b → s.prev b ≡ last_of a xs
prev-last s a b [] c = c.1
prev-last s a b (x ∷ xs) c = prev-last s x b xs c.2

pub Chain-append :
    (s : Links) (a y b : Ptr) (xs ys : List Ptr)
    → Chain s a xs y
    → Chain s y ys b
    → Chain s a (xs ++ y ∷ ys) b
Chain-append s a y b [] ys c d = (c.0, c.1, d)
Chain-append s a y b (x ∷ xs) ys c d = (c.0, c.1, Chain-append s x y b xs ys c.2 d)

pub Chain-left :
    (s : Links) (a y b : Ptr) (xs ys : List Ptr) → Chain s a (xs ++ y ∷ ys) b → Chain s a xs y
Chain-left s a y b [] ys c = (c.0, c.1)
Chain-left s a y b (x ∷ xs) ys c = (c.0, c.1, Chain-left s x y b xs ys c.2)

pub Chain-right :
    (s : Links) (a y b : Ptr) (xs ys : List Ptr) → Chain s a (xs ++ y ∷ ys) b → Chain s y ys b
Chain-right s a y b [] ys c = c.2
Chain-right s a y b (x ∷ xs) ys c = Chain-right s x y b xs ys c.2

pub last_of-ne : (y a : Ptr) (xs : List Ptr) → y ≢ a → NotIn y xs → y ≢ last_of a xs
last_of-ne y a [] h out = h
last_of-ne y a (x ∷ xs) h out = last_of-ne y x xs out.0 out.1

pub first-ne : (x b : Ptr) (ys : List Ptr) → x ≢ b → NotIn x ys → x ≢ first_of_chain ys b
first-ne x b [] h out = h
first-ne x b (y ∷ ys) h out = out.0

-- The links of the nodes are the same in both stores.
abbrev pub Same : Links → Links → List Ptr → Type 0
Same s t xs = All (λ x. (t.next x ≡ s.next x) × (t.prev x ≡ s.prev x)) xs

-- A chain survives any change that spares the links it is made of.
pub Chain-frame :
    (s t : Links) (a b : Ptr) (xs : List Ptr)
    → Chain s a xs b
    → t.next a ≡ s.next a
    → Same s t xs
    → t.prev b ≡ s.prev b
    → Chain t a xs b
Chain-frame s t a b [] c na same pb = (na ∙ c.0, pb ∙ c.1)
Chain-frame s t a b (x ∷ xs) c na same pb =
    (na ∙ c.0, same.0.1 ∙ c.1, Chain-frame s t x b xs c.2 same.0.0 same.1 pb)

-- the store after the writes of `insert_before_unsafe`
abbrev pub inserted : Links → Ptr → Ptr → Links
inserted s node new_node = record {
  next = update (update s.next (s.prev node) new_node) new_node node;
  prev = update (update s.prev new_node (s.prev node)) node new_node;
}

-- the store after the writes of `unlink`
abbrev pub removed : Links → Ptr → Links
removed s node = record {
  next = update (update s.next (s.prev node) (s.next node)) node null;
  prev = update (update s.prev (s.next node) (s.prev node)) node null;
}

module _ (s : Links) (b n : Ptr) (ne : n ≢ b) where
  -- The links of nodes other than the new one and the two ends of the insertion stay.
  pub inserted-Same :
      (xs : List Ptr) → NotIn n xs → NotIn b xs → NotIn (s.prev b) xs → Same s (inserted s b n) xs
  inserted-Same [] p q r = tt
  inserted-Same (x ∷ xs) p q r = ((ground arith, ground arith), inserted-Same xs p.1 q.1 r.1)

  -- The new node goes between the chain and its end.
  pub Chain-inserted :
      (a : Ptr) (xs : List Ptr)
      → n ≢ a
      → NotIn n xs
      → NotIn a xs
      → NotIn b xs
      → Distinct xs
      → Chain s a xs b
      → Chain (inserted s b n) a (xs ++ n ∷ []) b
  Chain-inserted a [] na nx ax bx dx c = ground arith
  Chain-inserted a (x ∷ xs) na nx ax bx dx c =
      let far : a ≢ s.prev b = λ e. last_of-ne a x xs ax.0 ax.1 (e ∙ prev-last s x b xs c.2) in
      (ground arith, ground arith, Chain-inserted x xs nx.0 nx.1 dx.0 bx.1 dx.1 c.2)

module _ (s : Links) (y : Ptr) where
  -- The links of nodes other than the removed one and its neighbours stay.
  pub removed-Same :
      (xs : List Ptr)
      → NotIn y xs
      → NotIn (s.next y) xs
      → NotIn (s.prev y) xs
      → Same s (removed s y) xs
  removed-Same [] p q r = tt
  removed-Same (x ∷ xs) p q r = ((ground arith, ground arith), removed-Same xs p.1 q.1 r.1)

  -- behind the removed node
  Chain-removed_after :
      (a b : Ptr) (ys : List Ptr)
      → s.prev y ≡ a
      → y ≢ a
      → y ≢ b
      → NotIn y ys
      → NotIn a ys
      → NotIn b ys
      → Distinct ys
      → Chain s y ys b
      → Chain (removed s y) a ys b
  Chain-removed_after a b [] e ya yb yi ai bi dy c = ground arith
  Chain-removed_after a b (z ∷ ys) e ya yb yi ai bi dy c =
      let out : NotIn (s.next y) ys = let e' = sym c.0 in subst (λ v. NotIn v ys) e' dy.0 in
      let out' : NotIn (s.prev y) ys = subst (λ v. NotIn v ys) (sym e) ai.1 in
      (
        ground arith,
        ground arith,
        Chain-frame s (removed s y) z b ys c.2 (ground arith) (removed-Same ys yi.1 out out')
            (ground arith),
      )

  -- The removed node leaves the two chains that met in it joined.
  pub Chain-removed :
      (a b : Ptr) (xs ys : List Ptr)
      → y ≢ a
      → y ≢ b
      → Distinct (xs ++ y ∷ ys)
      → NotIn a (xs ++ y ∷ ys)
      → NotIn b (xs ++ y ∷ ys)
      → Chain s a xs y
      → Chain s y ys b
      → Chain (removed s y) a (xs ++ ys) b
  Chain-removed a b [] ys ya yb d ai bi c c' =
      Chain-removed_after a b ys c.1 ya yb d.0 ai.1 bi.1 d.1 c'
  Chain-removed a b (x ∷ xs) ys ya yb d ai bi c c' =
      let front : NotIn a xs = All-left (λ v. a ≢ v) xs (y ∷ ys) ai.1 in
      let back : NotIn x (y ∷ ys) = All-right (λ v. x ≢ v) xs (y ∷ ys) d.0 in
      let far : a ≢ s.prev y = λ e. last_of-ne a x xs ai.0 front (e ∙ prev-last s x y xs c.2) in
      let far' : x ≢ s.next y =
        λ e. first-ne x b ys (λ e'. bi.0 (sym e')) back.1 (e ∙ next-first s y b ys c') in
      (
        ground arith,
        ground arith,
        Chain-removed x b xs ys (λ e. back.0 (sym e)) yb d.1 d.0 bi.1 c.2 c',
      )
