-- ===== src/VmRegion/Destroy.antt =====
-- `VmRegion::destroy` of core/vmregion.cc, with the lists of children as the links of their nodes and
-- the reference counts that lists and pointers hold.
pub mod Forest
pub mod Round
pub mod Loop
pub mod Detach
pub mod Parent
mod Tests
use cxkernel.Base.{ℕ, zero, suc, ◌==◌, if◌then◌else◌, Option, none, some, true, false}
use cxkernel.Status.{E, ok, is_ok}
use cxkernel.LinkedList.{Ptr, null, Links, pop_front, remove_unsafe}
use cxkernel.RefPtr.{Refs, add_ref, release, destroy as drop_last, at}

-- the links of all regions in lists of children; `children_`, by its root, and `parent_` of each
-- region, 0 for null; and the counts
pub record Regions : Type 0 where
  pub links : Links
  pub root : Ptr → Ptr
  pub parent : Ptr → Ptr
  pub refs : Refs

-- `auto child = children_.pop_front(); child->parent_ = nullptr`; `none` dereferences null.
unfoldable pub pop_child : Ptr → Regions → Option (Ptr × Regions)
pop_child this s = elim (pop_front (s.root this) s.links) [
  | none ↦ none
  | some ((child, root), links) ↦
      if child == null
      then none
      else some (
        child,
        record {
          links = links;
          root = at s.root this root;
          parent = at s.parent child null;
          refs = add_ref child (release child s.refs).1;
        },
      )
]

-- `parent_->children_.remove(this)`, where there is a parent; the pointer that it returns is destroyed.
unfoldable pub detach : Ptr → Regions → Option Regions
detach this s =
    let up = s.parent this in
    if up == null then some s else elim (remove_unsafe (s.root up) this s.links) [
      | none ↦ none
      | some (root, links) ↦ some (record s {
        links = links;
        root = at s.root up root;
        refs = drop_last this (release this (add_ref this s.refs)).1;
      })
    ]

-- the status, by the result of a child's `destroy`
abbrev pub join : E → E → E
join status res = if is_ok res then res else status

-- How `destroy` goes: it returns a status, dereferences null, or the fuel is not enough.
pub data Destroying : Type 0 where
  done : E → Regions → Destroying
  null_read out_of_fuel : Destroying

-- The loop over the children, and `destroy`.
unfoldable mutual
  unfolding pop_child detach

  pub destroy_loop : ℕ → Ptr → E → Regions → Destroying
  destroy_loop zero this status s = out_of_fuel
  destroy_loop (suc fuel) this status s = elim (s.root this == null) [
    | true ↦ done status s
    | false ↦ elim (pop_child this s) [
      | none ↦ null_read
      | some (child, s1) ↦ elim (destroy fuel child s1) [
        | out_of_fuel ↦ out_of_fuel
        | null_read ↦ null_read
        | done res s2 ↦
            destroy_loop fuel this (join status res) (record s2 { refs = drop_last child s2.refs })
      ]
    ]
  ]

  pub destroy : ℕ → Ptr → Regions → Destroying
  destroy zero this s = out_of_fuel
  destroy (suc fuel) this s = elim (destroy_loop fuel this ok s) [
    | out_of_fuel ↦ out_of_fuel
    | null_read ↦ null_read
    | done status s1 ↦ elim (detach this s1) [ none ↦ null_read | some s2 ↦ done status s2 ]
  ]
