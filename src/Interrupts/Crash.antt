-- ===== src/Interrupts/Crash.antt =====
-- How `exception_handler` of arch/x86-64/interrupts.cc ends.
use cxkernel.Base.{
  ℕ, zero, suc, ◌^◌, ◌≤◌, ◌<◌, ◌≡◌, true, ◌&&◌, ◌==◌, leb, if◌then◌else◌, none, some, List, [], ◌∷◌,
  All, arith, get_elem?, refl, Bool-cases, inl, inr, length, leb→le, ◌∙◌, ◌≢◌, ==→ne, ==→eq,
}
use cxkernel.Stdio.{Out}
use cxkernel.Stdio.Print.{ssprintf, returned}
use cxkernel.Stdio.Format.{
  Arg, word, text, parse_spec, parse_width, parse_flags, parse_percision, parse_num, parse_length,
  skip_l,
}
use cxkernel.Stdio.Print.Taken.{IsWord}
use cxkernel.Stdio.Print.Typed.{fits, ssprintf_typed}
use cxkernel.Stdio.Streams.{Streams, kerr, each, stream_err, nothing_written}
use cxkernel.Interrupts.Exception.{
  IntFrame, End, halted, past_table, exception_handler, exception_messages, page_fault_messages,
  registers_format, page_fault_format, blank_format, halted_format, registers, then_print,
  print_page_fault,
}

get_elem?-some :
    (xs : List (List ℕ)) (i : ℕ) → i < length xs → (x : List ℕ) × (get_elem? xs i ≡ some x)
get_elem?-some [] i h = elim h [ ]
get_elem?-some (x ∷ xs) zero h = (x, refl)
get_elem?-some (x ∷ xs) (suc i) h = get_elem?-some xs i (omega arith)

get_elem?-none : (xs : List (List ℕ)) (i : ℕ) → length xs ≤ i → get_elem? xs i ≡ none
get_elem?-none [] i h = refl
get_elem?-none (x ∷ xs) zero h = absurd (omega arith)
get_elem?-none (x ∷ xs) (suc i) h = get_elem?-none xs i (omega arith)

-- `ssprintf` returns for the format and its arguments, and has written the text.
abbrev pub Prints : ℕ → List ℕ → List Arg → List ℕ → Type 0
Prints fuel format args t =
    (o : Out) × (ssprintf fuel format args nothing_written ≡ returned o) × (t ≡ o.text)

-- the streams after the characters of a text have been given to the one for errors
abbrev pub after : List ℕ → Streams → Streams
after t s = each stream_err t s

-- A format that fits its arguments is printed, and the handler goes on.
then_print-some :
    (g fuel : ℕ) (format : List ℕ) (args : List Arg) (s : Streams)
    → fits g format args ≡ true
    → g ≤ fuel
    → All IsWord args
    → (t : List ℕ) × Prints fuel format args t
      × ((next : Streams → End) → then_print fuel format args s next ≡ next (after t s))
unfolding kerr
then_print-some g fuel format args s ok le words =
    let (o, e) = ssprintf_typed g fuel format args nothing_written ok le words in
    (o.text, (o, e, refl), λ next. rw (then_print, kerr, e))

registers-fit :
    (r : IntFrame) (m : List ℕ) (rsp : ℕ) → fits 400 registers_format (registers r m rsp) ≡ true
unfolding fits registers_format registers parse_spec parse_width parse_flags parse_percision
    parse_num parse_length skip_l
registers-fit r m rsp = refl

page_fault-fit : (m : List ℕ) (cr2 : ℕ) → fits 400 page_fault_format (text m ∷ word cr2 ∷ []) ≡ true
unfolding fits page_fault_format parse_spec parse_width parse_flags parse_percision parse_num
    parse_length skip_l
page_fault-fit m cr2 = refl

blank-fit : fits 400 blank_format [] ≡ true
unfolding fits blank_format
blank-fit = refl

halted-fit : fits 700 halted_format [] ≡ true
unfolding fits halted_format
halted-fit = refl

-- The text that is printed for a page fault only, and none where the table of its messages ends.
pub data FaultText (fuel : ℕ) (r : IntFrame) (cr2 : ℕ) : List ℕ → Type 0 where
  no_fault : r.vector ≢ 14 → FaultText fuel r cr2 []
  past_end : r.vector ≡ 14 → 8 ≤ r.err_code → FaultText fuel r cr2 []
  of_fault :
      {m t : List ℕ}
      → r.vector ≡ 14
      → get_elem? page_fault_messages r.err_code ≡ some m
      → Prints fuel page_fault_format (text m ∷ word cr2 ∷ []) t
      → FaultText fuel r cr2 t

-- the lines for a page fault: past the table for an error code of 8 or more
page_fault_end :
    (fuel : ℕ) (r : IntFrame) (cr2 : ℕ) (s : Streams)
    → 700 ≤ fuel
    → cr2 < 2 ^ 64
    → (t : List ℕ) × FaultText fuel r cr2 t
      × ((next : Streams → End)
          → print_page_fault fuel r cr2 s next
            ≡ (if (r.vector == 14) && leb 8 r.err_code then past_table else next (after t s)))
unfolding print_page_fault each
page_fault_end fuel r cr2 s enough small = elim (Bool-cases (r.vector == 14)) [
  | inr v ↦ ([], no_fault (==→ne r.vector 14 v), λ next. rw (print_page_fault, v))
  | inl v ↦ elim (Bool-cases (leb 8 r.err_code)) [
    | inl over ↦
        let e =
          get_elem?-none page_fault_messages r.err_code
            (unfold page_fault_messages in leb→le 8 _ over) in
        (
          [],
          past_end (==→eq r.vector 14 v) (leb→le 8 _ over),
          λ next. rw (print_page_fault, v, over, e),
        )
    | inr under ↦
        let (m, e) =
          get_elem?-some page_fault_messages r.err_code
            (unfold page_fault_messages in ground arith) in
        let (t, printed, run) =
          then_print-some 400 fuel page_fault_format (text m ∷ word cr2 ∷ []) s
            (page_fault-fit m cr2) (omega arith) (tt, (small, tt)) in
        (
          t,
          of_fault (==→eq r.vector 14 v) e printed,
          λ next. rw (print_page_fault, v, under, e) (run next),
        )
  ]
]

-- For an exception's vector, registers and addresses of 64 bits, and fuel of 700 or more: the handler
-- prints the registers with the vector's message, then for a page fault its message and address,
-- then an empty line and the notice of the halt, each text whole and on the stream for errors, and
-- halts. Only for a page fault with an error code of 8 or more it reads behind the table of the page
-- fault's messages.
pub exception_handler-ends :
    (fuel : ℕ) (r : IntFrame) (rsp cr2 : ℕ) (s : Streams)
    → 700 ≤ fuel
    → All IsWord (registers r [] rsp)
    → cr2 < 2 ^ 64
    → r.vector < 32
    → (m : List ℕ) × (t1 : List ℕ) × (t2 : List ℕ) × (t3 : List ℕ) × (t4 : List ℕ) × (get_elem?
          exception_messages r.vector
        ≡ some m)
      × Prints fuel registers_format (registers r m rsp) t1
      × FaultText fuel r cr2 t2
      × Prints fuel blank_format [] t3
      × Prints fuel halted_format [] t4
      × (exception_handler fuel r rsp cr2 s ≡ (
          if (r.vector == 14) && leb 8 r.err_code
          then past_table
          else halted (after t4 (after t3 (after t2 (after t1 s))))))
unfolding exception_handler
exception_handler-ends fuel r rsp cr2 s enough words small exception =
    let (m, e) =
      get_elem?-some exception_messages r.vector (unfold exception_messages in exception) in
    let words' : All IsWord (registers r m rsp) = unfold registers in words in
    let (t1, p1, run1) =
      then_print-some 400 fuel registers_format (registers r m rsp) s (registers-fit r m rsp)
        (omega arith) words' in
    let (t2, p2, run2) = page_fault_end fuel r cr2 (after t1 s) enough small in
    let (t3, p3, run3) =
      then_print-some 400 fuel blank_format [] (after t2 (after t1 s)) blank-fit (omega arith) tt in
    let (t4, p4, run4) =
      then_print-some 700 fuel halted_format [] (after t3 (after t2 (after t1 s))) halted-fit enough
        tt in
    (
      m,
      t1,
      t2,
      t3,
      t4,
      e,
      p1,
      p2,
      p3,
      p4,
      rw (exception_handler, e) (run1 _ ∙ run2 _ ∙ rw (run3, run4)),
    )
