-- ===== src/Mutex/Safety.antt =====
-- What holds in every reachable state of the mutex of core/mutex.cc.
use cxkernel.Base.{
  ◌≡◌, ◌≢◌, true, false, none, some, List, [], ◌∷◌, ◌++◌, arith, All, NotIn, Distinct,
  Distinct-snoc, All-append, ap, subst,
}
use cxkernel.Mutex.{Tid, free, locked, Mutex, Pc, outside, asleep, woken, inside, update, holding}

pub record Inv (m : Mutex) (pc : Tid → Pc) : Type 0 where
  pub owned : (t : Tid) → pc t ≡ inside → m.owner ≡ some t
  pub fresh : (t : Tid) → pc t ≡ woken → m.owner ≢ some t
  pub unique : (t u : Tid) → holding (pc t) ≡ true → holding (pc u) ≡ true → t ≡ u
  pub idle : (t : Tid) → m.state ≡ free → holding (pc t) ≡ false
  pub empty : m.state ≡ free → m.wait_queue ≡ []
  pub waiting : All (λ t. pc t ≡ asleep) m.wait_queue
  pub distinct : Distinct m.wait_queue

-- A thread that is not asleep is in no queue of sleepers.
awake-NotIn :
    (pc : Tid → Pc) (t : Tid) (q : List Tid)
    → pc t ≢ asleep
    → All (λ u. pc u ≡ asleep) q
    → NotIn t q
awake-NotIn pc t [] h a = tt
awake-NotIn pc t (u ∷ q) h a = ((λ e. h (ground arith)), awake-NotIn pc t q h a.1)

All-update :
    (pc : Tid → Pc) (t : Tid) (p : Pc) (q : List Tid)
    → NotIn t q
    → All (λ u. pc u ≡ asleep) q
    → All (λ u. update pc t p u ≡ asleep) q
All-update pc t p [] out a = tt
All-update pc t p (u ∷ q) out a = (ground arith, All-update pc t p q out.1 a.1)

pub lock_free-Inv :
    (m : Mutex) (pc : Tid → Pc) (t : Tid)
    → Inv m pc
    → pc t ≡ outside
    → m.state ≡ free
    → Inv (record m { state = locked; owner = some t }) (update pc t inside)
lock_free-Inv m pc t i o f = record {
  owned = λ u h. let idle = i.idle u f in ground arith;
  fresh = λ u h. let idle = i.idle u f in ground arith;
  unique = λ u v h k. let idle = i.idle u f in let idle2 = i.idle v f in ground arith;
  idle = λ u h. ground arith;
  empty = λ h. ground arith;
  waiting = let e = i.empty f in ground arith;
  distinct = let e = i.empty f in ground arith;
}

pub lock_wait-Inv :
    (m : Mutex) (pc : Tid → Pc) (t : Tid)
    → Inv m pc
    → pc t ≡ outside
    → m.state ≡ locked
    → Inv (record m { wait_queue = m.wait_queue ++ t ∷ [] }) (update pc t asleep)
lock_wait-Inv m pc t i o f =
    let out = awake-NotIn pc t m.wait_queue (λ e. ground arith) i.waiting in
    record {
      owned = λ u h. let old = i.owned u in ground (arith, old);
      fresh = λ u h. let old = i.fresh u in ground (arith, old);
      unique = λ u v h k. let old = i.unique u v in ground (arith, old);
      idle = λ u h. ground arith;
      empty = λ h. ground arith;
      waiting =
          All-append (λ u. update pc t asleep u ≡ asleep) m.wait_queue (t ∷ [])
            (All-update pc t asleep m.wait_queue out i.waiting) (ground arith, tt);
      distinct = Distinct-snoc t m.wait_queue out i.distinct;
    }

pub resume-Inv :
    (m : Mutex) (pc : Tid → Pc) (t : Tid)
    → Inv m pc
    → pc t ≡ woken
    → Inv (record m { owner = some t }) (update pc t inside)
resume-Inv m pc t i o =
    let held = ap holding o in
    let out = awake-NotIn pc t m.wait_queue (λ e. ground arith) i.waiting in
    record {
      owned = λ u h.
          let old = λ (e : pc u ≡ inside). i.unique u t (ap holding e) held in ground (arith, old);
      fresh = λ u h.
          let old = λ (e : pc u ≡ woken). i.unique u t (ap holding e) held in ground (arith, old);
      unique = λ u v h k.
          let x = λ (e : holding (pc u) ≡ true). i.unique u t e held in
          let y = λ (e : holding (pc v) ≡ true). i.unique v t e held in ground (arith, x, y);
      idle = λ u h. let no = i.idle t h in ground arith;
      empty = i.empty;
      waiting = All-update pc t inside m.wait_queue out i.waiting;
      distinct = i.distinct;
    }

pub unlock_none-Inv :
    (m : Mutex) (pc : Tid → Pc) (t : Tid)
    → Inv m pc
    → pc t ≡ inside
    → m.wait_queue ≡ []
    → Inv (record m { state = free; owner = none }) (update pc t outside)
unlock_none-Inv m pc t i o e =
    let held = ap holding o in
    let alone = λ (u : Tid) (h : holding (pc u) ≡ true). i.unique u t h held in
    record {
      owned = λ u h.
          let x = alone u in let z = λ (e : pc u ≡ inside). x (ap holding e) in ground (arith, z);
      fresh = λ u h.
          let x = alone u in let z = λ (e : pc u ≡ woken). x (ap holding e) in ground (arith, z);
      unique = λ u v h k. let x = alone u in ground (arith, x);
      idle = λ u h. let x = alone u in ground (arith, x);
      empty = λ h. e;
      waiting = ground (arith, e);
      distinct = ground (arith, e);
    }

pub unlock_some-Inv :
    (m : Mutex) (pc : Tid → Pc) (t v : Tid) (q : List Tid)
    → Inv m pc
    → pc t ≡ inside
    → m.wait_queue ≡ v ∷ q
    → Inv (record m { wait_queue = q }) (update (update pc t outside) v woken)
unlock_some-Inv m pc t v q i o e =
    let held = ap holding o in
    let alone = λ (u : Tid) (h : holding (pc u) ≡ true). i.unique u t h held in
    let wait : All (λ u. pc u ≡ asleep) (v ∷ q) = subst (All (λ u. pc u ≡ asleep)) e i.waiting in
    let dis : Distinct (v ∷ q) = subst Distinct e i.distinct in
    let out = awake-NotIn pc t (v ∷ q) (λ e. ground arith) wait in
    record {
      owned = λ u h.
          let x = alone u in let z = λ (e : pc u ≡ inside). x (ap holding e) in ground (arith, z);
      fresh = λ u h.
          let x = alone u in
          let z = λ (e : pc u ≡ woken). x (ap holding e) in
          let own = i.owned t o in ground (arith, z, own);
      unique = λ u w h k. let x = alone u in let y = alone w in ground (arith, x, y);
      idle = λ u h. let no = i.idle t h in ground arith;
      empty = λ h. let no = i.idle t h in ground arith;
      waiting =
          All-update (update pc t outside) v woken q dis.0 (All-update pc t outside q out.1 wait.1);
      distinct = dis.1;
    }
