-- ===== src/Stdio/Streams/Lines.antt =====
-- What the buffered output of lib/ebl/stdio.cc gives the console, line by line.
use cxkernel.Base.{
  ℕ, zero, suc, ◌+◌, ◌≤◌, ◌<◌, ◌≡◌, ◌≢◌, ◌⊎◌, inl, inr, arith, refl, sym, ap, ◌∙◌, subst, true,
  false, List, [], ◌∷◌, ◌++◌, ◌==◌, ltb, if◌then◌else◌, Bool-cases,
}
use cxkernel.Text.{Memory, poke}
use cxkernel.Stdio.Streams.{Streams, console_emit, emit_while, fflush_out, stream_out, each, row}

-- the characters from an address on
abbrev pub chars : ℕ → Memory → ℕ → List ℕ
chars zero m a = []
chars (suc n) m a = m a ∷ chars n m (a + 1)

++-assoc : (xs ys zs : List ℕ) → (xs ++ ys) ++ zs ≡ xs ++ (ys ++ zs)
++-assoc [] ys zs = refl
++-assoc (x ∷ xs) ys zs = ap (λ l. x ∷ l) (++-assoc xs ys zs)

++-nil : (xs : List ℕ) → xs ++ [] ≡ xs
++-nil [] = refl
++-nil (x ∷ xs) = ap (λ l. x ∷ l) (++-nil xs)

chars-agree :
    (n : ℕ) (m m' : Memory) (a : ℕ)
    → ((k : ℕ) → k < n → m' (a + k) ≡ m (a + k))
    → chars n m' a ≡ chars n m a
chars-agree zero m m' a h = refl
chars-agree (suc n) m m' a h =
    let here : m' a ≡ m a = subst (λ x. m' x ≡ m x) (omega arith) (h 0 (omega arith)) in
    let ih =
      chars-agree n m m' (a + 1)
        (λ k lt. subst (λ x. m' x ≡ m x) (omega arith) (h (suc k) (omega (arith, lt)))) in
    ap (λ x. x ∷ chars n m' (a + 1)) here ∙ ap (λ l. m a ∷ l) ih

chars-snoc : (n : ℕ) (m : Memory) (a : ℕ) → chars (suc n) m a ≡ chars n m a ++ m (a + n) ∷ []
chars-snoc zero m a = ap (λ x. m x ∷ []) (omega arith)
chars-snoc (suc n) m a =
    ap (λ l. m a ∷ l)
      (chars-snoc n m (a + 1) ∙ ap (λ x. chars n m (a + 1) ++ m x ∷ []) (omega arith))

abbrev with_console : Streams → List ℕ → Streams
with_console s cs = record s { console = cs }

-- What is emitted is the string up to its null terminator.
emit_while-chars :
    (n len a : ℕ) (s : Streams)
    → len ≤ n
    → ((k : ℕ) → k < len → s.org (a + k) ≢ 0)
    → (s.org (a + len) ≡ 0) ⊎ (len ≡ n)
    → emit_while n a s ≡ with_console s (s.console ++ chars len s.org a)
unfolding emit_while
emit_while-chars zero zero a s le full end = ap (with_console s) (sym (++-nil s.console))
emit_while-chars (suc n) zero a s le full (inr e) = absurd (omega (arith, e))
emit_while-chars (suc n) zero a s le full (inl e) =
    let e' : s.org a ≡ 0 = subst (λ x. s.org x ≡ 0) (omega arith) e in
    let test : (s.org a == 0) ≡ true = ground (arith, e') in
    ap (λ b. if b then s else emit_while n (a + 1) (console_emit (s.org a) s)) test
    ∙ ap (with_console s) (sym (++-nil s.console))
emit_while-chars zero (suc len) a s le full end = absurd (omega (arith, le))
emit_while-chars (suc n) (suc len) a s le full end =
    let full0 : s.org a ≢ 0 = subst (λ x. s.org x ≢ 0) (omega arith) (full 0 (omega arith)) in
    let test : (s.org a == 0) ≡ false = ground (arith, full0) in
    let ih =
      emit_while-chars n len (a + 1) (console_emit (s.org a) s) (omega (arith, le))
        (λ k lt. subst (λ x. s.org x ≢ 0) (omega arith) (full (suc k) (omega (arith, lt))))
        (elim end [
          | inl e ↦ inl (subst (λ x. s.org x ≡ 0) (omega arith) e)
          | inr e ↦ inr (omega (arith, e))
        ]) in
    ap (λ b. if b then s else emit_while n (a + 1) (console_emit (s.org a) s)) test
    ∙ ih
    ∙ ap (with_console s) (++-assoc s.console (s.org a ∷ []) (chars len s.org (a + 1)))

-- the characters that wait for the end of their line, none of them the null character
abbrev pub pending : Streams → List ℕ
pending s = chars s.out s.org 0

abbrev pub IsLine : Streams → Type 0
IsLine s = (k : ℕ) → k < s.out → s.org k ≢ 0

-- every line, with the `n` characters that are pending, has at most 511 characters
abbrev pub Fits : ℕ → List ℕ → Type 0
Fits n [] = Unit
Fits n (c ∷ cs) = (n < 511) × (c ≢ 0) × Fits (if c == 10 then 0 else n + 1) cs

-- what has been printed, and that the log's row is as it was
pub record Passed (s s' : Streams) (cs : List ℕ) : Type 0 where
  pub line : IsLine s'
  pub printed : s'.console ++ pending s' ≡ (s.console ++ pending s) ++ cs
  pub kept : (a : ℕ) → row ≤ a → s'.org a ≡ s.org a
  pub log : s'.log ≡ s.log

-- the buffer with one character more
abbrev more : ℕ → Streams → Streams
more c s = record s { org = poke s.org s.out c; out = s.out + 1 }

more-chars : (c : ℕ) (s : Streams) → chars (s.out + 1) (poke s.org s.out c) 0 ≡ pending s ++ c ∷ []
more-chars c s =
    let one : s.out + 1 ≡ suc s.out = omega arith in
    let last : poke s.org s.out c (0 + s.out) ≡ c = ground arith in
    ap (λ n. chars n (poke s.org s.out c) 0) one
    ∙ chars-snoc s.out (poke s.org s.out c) 0
    ∙ ap (λ x. chars s.out (poke s.org s.out c) 0 ++ x ∷ []) last
    ∙ ap (λ l. l ++ c ∷ [])
        (chars-agree s.out s.org (poke s.org s.out c) 0 (λ k lt. ground (arith, lt)))

more-Passed : (c : ℕ) (s : Streams) → IsLine s → s.out < 511 → c ≢ 0 → Passed s (more c s) (c ∷ [])
more-Passed c s h lt ne = record {
  line = λ k small. elim (Bool-cases (k == s.out)) [
    | inl e ↦ ground (arith, e, ne)
    | inr e ↦ let old = h k (ground (arith, e, small)) in ground (arith, e, old)
  ];
  printed =
      ap (λ l. s.console ++ l) (more-chars c s) ∙ sym (++-assoc s.console (pending s) (c ∷ []));
  kept = λ a le. ground (arith, le, lt);
  log = refl;
}

abbrev flushed : Streams → Streams
flushed s = record s { org = poke s.org s.out 0; out = 0; console = s.console ++ pending s }

abbrev ended : Streams → Streams
ended s = record s { org = poke s.org s.out 0; out = 0 }

fflush_out-flushed : (s : Streams) → IsLine s → s.out ≤ 512 → fflush_out s ≡ flushed s
unfolding fflush_out
fflush_out-flushed s h le =
    let run =
      emit_while-chars 512 s.out 0 (ended s) le
        (λ k lt. let old = h k lt in ground (arith, lt, old)) (inl (ground arith)) in
    let same = chars-agree s.out s.org (poke s.org s.out 0) 0 (λ k lt. ground (arith, lt)) in
    let reset : Streams → Streams = λ t. record t { out = 0 } in
    ap reset run ∙ ap (λ l. with_console (ended s) (s.console ++ l)) same

flushed-Passed :
    (s t : Streams) (cs : List ℕ) → t.out ≤ 511 → Passed s t cs → Passed s (flushed t) cs
flushed-Passed s t cs le p = record {
  line = λ k lt. absurd (omega (arith, lt));
  printed = ++-nil (t.console ++ pending t) ∙ p.printed;
  kept = λ a far. let old = p.kept a far in ground (arith, old, far, le);
  log = p.log;
}

stream_out-next :
    (c : ℕ) (s : Streams)
    → IsLine s
    → s.out < 511
    → c ≢ 0
    → stream_out c s ≡ (if c == 10 then flushed (more c s) else more c s)
unfolding stream_out
stream_out-next c s h lt ne =
    let short : ltb 512 (s.out + 1) ≡ false = ground (arith, lt) in
    let flush =
      fflush_out-flushed (more c s) ((more-Passed c s h lt ne).line) (omega (arith, lt)) in
    ground (arith, short, flush)

next-Passed :
    (c : ℕ) (s : Streams)
    → IsLine s
    → s.out < 511
    → c ≢ 0
    → Passed s (stream_out c s) (c ∷ [])
      × ((stream_out c s).out ≡ (if c == 10 then 0 else s.out + 1))
next-Passed c s h lt ne =
    let e = stream_out-next c s h lt ne in
    let p = more-Passed c s h lt ne in
    elim (Bool-cases (c == 10)) [
      | inl nl ↦
          let e' : stream_out c s ≡ flushed (more c s) =
            e ∙ ap (λ b. if b then flushed (more c s) else more c s) nl in
          (
            subst (λ t. Passed s t (c ∷ [])) (sym e')
                (flushed-Passed s (more c s) (c ∷ []) (omega (arith, lt)) p),
            ap (λ t. t.out) e' ∙ sym (ap (λ b. if b then 0 else s.out + 1) nl),
          )
      | inr other ↦
          let e' : stream_out c s ≡ more c s =
            e ∙ ap (λ b. if b then flushed (more c s) else more c s) other in
          (
            subst (λ t. Passed s t (c ∷ [])) (sym e') p,
            ap (λ t. t.out) e' ∙ sym (ap (λ b. if b then 0 else s.out + 1) other),
          )
    ]

-- From a state in which the pending characters have no null character, any text of lines of at most
-- 511 characters reaches the console whole and in order: what has been emitted and what is still
-- pending are together what they were with the text after it, and the log's buffer is untouched.
pub stream_out-Passed :
    (cs : List ℕ) (s : Streams) → IsLine s → Fits s.out cs → Passed s (each stream_out cs s) cs
unfolding each
stream_out-Passed [] s h fits = record {
  line = h;
  printed = sym (++-nil (s.console ++ pending s));
  kept = λ a le. refl;
  log = refl;
}
stream_out-Passed (c ∷ cs) s h fits =
    let one = next-Passed c s h fits.0 fits.1 in
    let rest =
      stream_out-Passed cs (stream_out c s) one.0.line
        (subst (λ n. Fits n cs) (sym one.1) fits.2) in
    record {
      line = rest.line;
      printed =
          rest.printed
          ∙ ap (λ l. l ++ cs) one.0.printed
          ∙ ++-assoc (s.console ++ pending s) (c ∷ []) cs;
      kept = λ a le. rest.kept a le ∙ one.0.kept a le;
      log = rest.log ∙ one.0.log;
    }
