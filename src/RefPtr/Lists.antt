-- ===== src/RefPtr/Lists.antt =====
-- `IntrusiveList<RefPtr<T>>` of lib/ebl/linked_list.h: each node of the list counts as a reference. A
-- RefPtr that is returned goes to a variable, by its position.
use cxkernel.Base.{ℕ, zero, suc, ◌==◌, if◌then◌else◌, none}
use cxkernel.LinkedList.{
  Ptr, null, Cmd, pure, ◌>>=◌, push_front, push_back, pop_front, pop_back, remove_unsafe,
  insert_before, last_unsafe,
}
use cxkernel.RefPtr.{Refs, get, add_ref, release, destroy, from_raw}

unfoldable pub first_ref : Ptr → ℕ → Refs → Refs
first_ref root i refs = from_raw i root refs

unfoldable pub last_ref : Ptr → ℕ → Refs → Cmd Refs
last_ref root i refs = do node ← last_unsafe root; pure (from_raw i node refs)

unfoldable pub push_front_ref : Ptr → Ptr → Refs → Cmd (Ptr × Refs)
push_front_ref root node refs =
    if node == null
    then (λ _. none)
    else do root' ← push_front root node; pure (root', add_ref node refs)

unfoldable pub push_back_ref : Ptr → Ptr → Refs → Cmd (Ptr × Refs)
push_back_ref root node refs =
    if node == null
    then (λ _. none)
    else do root' ← push_back root node; pure (root', add_ref node refs)

unfoldable pub pop_front_ref : Ptr → ℕ → Refs → Cmd (Ptr × Refs)
pop_front_ref root i refs = do
  (node, root') ← pop_front root
  if node == null then (λ _. none) else pure (root', from_raw i node (release node refs).1)

unfoldable pub pop_back_ref : Ptr → ℕ → Refs → Cmd (Ptr × Refs)
pop_back_ref root i refs = do
  (node, root') ← pop_back root
  if node == null then (λ _. none) else pure (root', from_raw i node (release node refs).1)

-- The node's pointer stays in the variable.
unfoldable pub remove_ref : Ptr → ℕ → Refs → Cmd (Ptr × Refs)
remove_ref root i refs =
    let node = get refs.slots i in
    if node == null
    then (λ _. none)
    else do root' ← remove_unsafe root node; pure (root', (release node refs).1)

unfoldable pub insert_before_ref : Ptr → Ptr → Ptr → Refs → Cmd (Ptr × Refs)
insert_before_ref root inspt node refs =
    if node == null
    then (λ _. none)
    else do root' ← insert_before root inspt node; pure (root', add_ref node refs)

-- The list's destructor: each node is popped into a temporary, which is destroyed.
unfoldable pub clear_refs : ℕ → Ptr → Refs → Cmd Refs
clear_refs zero root refs = λ _. none
clear_refs (suc fuel) root refs = if root == null then pure refs else do
  (node, root') ← pop_front root
  if node == null
      then (λ _. none)
      else clear_refs fuel root' (destroy node (add_ref node (release node refs).1))
