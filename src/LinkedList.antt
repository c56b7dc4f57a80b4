-- ===== src/LinkedList.antt =====
-- lib/ebl/linked_list.h: the intrusive circular doubly linked list. The links of all nodes (one
-- list index `i`) are a store; a list object is its `root` pointer, which an operation that
-- changes it returns. A read or write through the null pointer is a fault.
pub mod Chain
pub mod Ring
pub mod Push
pub mod Pop
pub mod Visit
pub mod Two
pub mod Samples
mod Tests
use cxkernel.Base.{
  ℕ, zero, suc, ◌+◌, ◌≡◌, Bool, true, false, not, ◌||◌, ◌&&◌, Option, none, some, List, [], ◌∷◌,
  ◌==◌, if◌then◌else◌,
}

abbrev pub Ptr : Type 0
Ptr = ℕ

abbrev pub null : Ptr
null = 0

-- `next[i]` and `prev[i]` of `IntrusiveListNode`, at every node
pub record Links : Type 0 where
  pub next : Ptr → Ptr
  pub prev : Ptr → Ptr

abbrev pub update : (Ptr → Ptr) → Ptr → Ptr → Ptr → Ptr
update f p v q = if q == p then v else f q

-- `none` is a null pointer dereference.
abbrev pub Cmd : Type 0 → Type 0
Cmd A = Links → Option (A × Links)

abbrev pub pure : {A : Type 0} → A → Cmd A
pure a s = some (a, s)

abbrev pub and_then : {A B : Type 0} → Option (A × Links) → (A → Cmd B) → Option (B × Links)
and_then none k = none
and_then (some (a, s)) k = k a s

infixl 5 ◌>>=◌ ◌>>◌
abbrev pub ◌>>=◌ : {A B : Type 0} → Cmd A → (A → Cmd B) → Cmd B
m >>= k = λ s. and_then (m s) k

abbrev pub ◌>>◌ : {A B : Type 0} → Cmd A → Cmd B → Cmd B
m >> k = m >>= λ _. k

abbrev pub get_next : Ptr → Cmd Ptr
get_next p s = if p == null then none else some (s.next p, s)

abbrev pub get_prev : Ptr → Cmd Ptr
get_prev p s = if p == null then none else some (s.prev p, s)

abbrev pub set_next : Ptr → Ptr → Cmd (Unit {0})
set_next p q s = if p == null then none else some (tt, record s { next = update s.next p q })

abbrev pub set_prev : Ptr → Ptr → Cmd (Unit {0})
set_prev p q s = if p == null then none else some (tt, record s { prev = update s.prev p q })

unfoldable pub empty : Ptr → Bool
empty root = root == null

unfoldable pub last_unsafe : Ptr → Cmd Ptr
last_unsafe root = if root == null then pure null else get_prev root

unfoldable pub insert_before_unsafe : Ptr → Ptr → Cmd (Unit {0})
insert_before_unsafe node new_node =
    if (node == null || new_node == null) || node == new_node then pure tt else do
      before ← get_prev node
      set_next before new_node
      before' ← get_prev node
      set_prev new_node before'
      set_next new_node node
      set_prev node new_node

-- the pointer writes of `remove_unsafe`, once `root` has been moved on
unfoldable pub unlink : Ptr → Cmd (Unit {0})
unlink node = do
  before ← get_prev node
  after ← get_next node
  set_next before after
  after' ← get_next node
  before' ← get_prev node
  set_prev after' before'
  set_prev node null
  set_next node null

unfoldable pub remove_unsafe : Ptr → Ptr → Cmd Ptr
remove_unsafe root node =
    if node == null
    then pure root
    else if node == root
    then (do after ← get_next root; unlink node; pure after)
    else (do unlink node; pure root)

-- the list becomes `node` alone
unfoldable pub singleton : Ptr → Cmd Ptr
singleton node = do set_prev node node; set_next node node; pure node

unfoldable pub push_front : Ptr → Ptr → Cmd Ptr
push_front root node =
    if root == null then singleton node else (do insert_before_unsafe root node; pure node)

unfoldable pub push_back : Ptr → Ptr → Cmd Ptr
push_back root node =
    if root == null then singleton node else (do insert_before_unsafe root node; pure root)

-- The result is the node and the new root.
unfoldable pub pop_front : Ptr → Cmd (Ptr × Ptr)
pop_front root = if root == null then pure (null, root) else do
  after ← get_next root
  if after == root
      then pure (root, null)
      else do root' ← remove_unsafe after root; pure (root, root')

-- `root->prev` is read before `root` is compared with null.
unfoldable pub pop_back : Ptr → Cmd (Ptr × Ptr)
pop_back root = do
  node ← get_prev root
  if root == null
      then pure (null, root)
      else if root == node
      then pure (node, null)
      else do root' ← remove_unsafe root node; pure (node, if node == root' then null else root')

unfoldable pub insert_before : Ptr → Ptr → Ptr → Cmd Ptr
insert_before root inspt node = do
  insert_before_unsafe inspt node
  pure (if inspt == root then node else root)

-- An iterator: the node, and whether the iteration has begun.
pub record Iterator : Type 0 where
  pub node : Ptr
  pub flag : Bool

abbrev pub begin : Ptr → Iterator
begin root = record { node = root; flag = false }

abbrev pub end : Ptr → Iterator
end root = record { node = root; flag = not (root == null) }

abbrev pub flag_eq : Bool → Bool → Bool
flag_eq true b = b
flag_eq false b = not b

abbrev pub iter_eq : Iterator → Iterator → Bool
iter_eq a b = (a.node == b.node) && flag_eq a.flag b.flag

abbrev pub advance : Iterator → Cmd Iterator
advance it = do n ← get_next it.node; pure (record { node = n; flag = true })

-- `for(auto v : list)`: the nodes visited, in order; `none` also if the fuel runs out.
unfoldable pub visit : ℕ → Ptr → Iterator → Cmd (List Ptr)
visit zero root it = λ _. none
visit (suc fuel) root it =
    if iter_eq it (end root)
    then pure []
    else do it' ← advance it; rest ← visit fuel root it'; pure (it.node ∷ rest)

unfoldable pub size_loop : ℕ → Ptr → Iterator → ℕ → Cmd ℕ
size_loop zero root it count = λ _. none
size_loop (suc fuel) root it count =
    if iter_eq it (end root)
    then pure count
    else do it' ← advance it; size_loop fuel root it' (count + 1)

unfoldable pub size : ℕ → Ptr → Cmd ℕ
unfolding size_loop
size fuel root = size_loop fuel root (begin root) 0
