-- ===== src/Text/Search.antt =====
-- `strchr`, `strncmp` and `strstr` of lib/ebl/string.cc on strings.
use cxkernel.Base.{
  ℕ, zero, suc, ◌+◌, ◌≤◌, ◌<◌, ◌≡◌, ◌≢◌, refl, ◌⊎◌, inl, inr, some, ℤ, pos, negsuc, sub_ℕ,
  sub_ℕ-zero, arith, true, ap, sym, ◌∙◌,
}
use cxkernel.Base.{Bool-cases, subst}
use native.Mathlib.Decide.{dec_lt, ℕ_discrete}
use cxkernel.Text.{Memory, strchr, strncmp, strstr_loop, strstr, is_zero}
use cxkernel.Text.Length.{IsString, strlen_lem}

-- The `k` characters at `b` stand at `q`.
abbrev pub Occurs : Memory → ℕ → ℕ → ℕ → Type 0
Occurs m b k q = (i : ℕ) → i < k → m (q + i) ≡ m (b + i)

is_zero-pos : (z : ℤ) → is_zero z ≡ true → z ≡ pos 0
is_zero-pos (pos zero) h = refl
is_zero-pos (pos (suc n)) h = cc
is_zero-pos (negsuc n) h = cc

is_zero-sub_ℕ : (x y : ℕ) → is_zero (sub_ℕ x y) ≡ true → x ≡ y
is_zero-sub_ℕ x y h = sub_ℕ-zero x y (is_zero-pos (sub_ℕ x y) h)

strncmp-zero :
    (m : Memory) (q b k : ℕ)
    → ((i : ℕ) → i < k → m (b + i) ≢ 0)
    → is_zero (strncmp m q b k) ≡ true
    → Occurs m b k q
unfolding strncmp
strncmp-zero m q b zero chars h i lt = absurd (omega arith)
strncmp-zero m q b (suc k) chars h zero lt = ground (arith, is_zero-sub_ℕ (m q) (m b))
strncmp-zero m q b (suc k) chars h (suc i) lt =
    let chars' : (j : ℕ) → j < k → m (b + 1 + j) ≢ 0 =
      λ j l. let c = chars (j + 1) (omega arith) in λ z. c (ground (arith, z)) in
    let rest : is_zero (strncmp m (q + 1) (b + 1) k) ≡ true =
      ground (arith, is_zero-sub_ℕ (m q) (m b), chars 0 (omega arith)) in
    let ih = strncmp-zero m (q + 1) (b + 1) k chars' rest i (omega arith) in ground (arith, ih)

strncmp-same : (m : Memory) (q b k : ℕ) → Occurs m b k q → is_zero (strncmp m q b k) ≡ true
unfolding strncmp
strncmp-same m q b zero h = refl
strncmp-same m q b (suc k) h =
    let ih =
      strncmp-same m (q + 1) (b + 1) k (λ i lt. let e = h (i + 1) (omega arith) in ground arith) in
    ground (arith, h 0, ih)

-- What `strchr` finds in the rest of a string: the first place of the character, or null.
strchr_rest :
    (m : Memory) (a n c : ℕ) (s : IsString m a n) (fuel i : ℕ)
    → c ≢ 0
    → c < 256
    → i ≤ n
    → n < i + fuel
    → ((j : ℕ) × (strchr fuel m (a + i) c ≡ some (a + j))
        × (i ≤ j)
        × (j < n)
        × (m (a + j) ≡ c)
        × ((l : ℕ) → i ≤ l → l < j → m (a + l) ≢ c))
      ⊎ ((strchr fuel m (a + i) c ≡ some 0) × ((l : ℕ) → i ≤ l → l ≤ n → m (a + l) ≢ c))
unfolding strchr
strchr_rest m a n c s zero i ne small le h = absurd (omega arith)
strchr_rest m a n c s (suc fuel) i ne small le h = elim (ℕ_discrete (m (a + i)) c) [
  | yes e ↦ inl (
    i,
    ground (arith, e),
    omega arith,
    elim (ℕ_discrete i n) [
      | yes e' ↦ absurd (ne (sym e ∙ ap (λ v. m (a + v)) e' ∙ s.ends))
      | no q ↦ omega arith
    ],
    e,
    λ l p q. absurd (omega arith),
  )
  | no p ↦ elim (ℕ_discrete i n) [
    | yes e ↦ inr (
      let z : m (a + i) ≡ 0 = ap (λ v. m (a + v)) e ∙ s.ends in ground (arith, z, p),
      λ l lo hi. let e' : l ≡ i = omega arith in rw e' p,
    )
    | no q ↦
        let nz = s.chars i (omega arith) in
        let after : strchr (suc fuel) m (a + i) c ≡ strchr fuel m (a + (i + 1)) c =
          ground (arith, nz, p) in
        elim (strchr_rest m a n c s fuel (i + 1) ne small (omega arith) (omega arith)) [
          | inl (j, run, lo, hi, at, before) ↦ inl (
            j,
            after ∙ run,
            omega arith,
            hi,
            at,
            λ l l1 l2. elim (ℕ_discrete l i) [ yes e ↦ rw e p | no d ↦ before l (omega arith) l2 ],
          )
          | inr (run, all) ↦ inr (
            after ∙ run,
            λ l l1 l2. elim (ℕ_discrete l i) [ yes e ↦ rw e p | no d ↦ all l (omega arith) l2 ],
          )
        ]
  ]
]

-- What `strstr` returns for the `n` characters at `a` and the `k` at `b`: the first place where these
-- stand, null when there is none, and for `k` 0 the terminator.
pub data IsAnswer (m : Memory) (a n b k : ℕ) : ℕ → Type 0 where
  found :
      (i : ℕ)
      → 0 < k
      → i < n
      → Occurs m b k (a + i)
      → ((j : ℕ) → j < i → ¬ Occurs m b k (a + j))
      → IsAnswer m a n b k (a + i)
  missing : 0 < k → ((j : ℕ) → j ≤ n → ¬ Occurs m b k (a + j)) → IsAnswer m a n b k 0
  empty : k ≡ 0 → IsAnswer m a n b k (a + n)

module _ (m : Memory) (a b n k : ℕ) (s : IsString m a n) (t : IsString m b k) (some_char : 0 < k)
    (address : 0 < a) where
  starts : (q : ℕ) → m q ≢ m b → ¬ Occurs m b k q
  starts q ne occ = let e = occ 0 some_char in ne (ground (arith, e))

  -- no place before `j`, when there is none before `i` and the first character is not met from there
  none_before :
      (i j : ℕ)
      → ((l : ℕ) → l < i → ¬ Occurs m b k (a + l))
      → ((l : ℕ) → i ≤ l → l < j → m (a + l) ≢ m b)
      → (l : ℕ) → l < j
      → ¬ Occurs m b k (a + l)
  none_before i j before between l lt = elim (dec_lt l i) [
    | yes p ↦ before l p
    | no p ↦ starts (a + l) (between l (omega arith) lt)
  ]

  strstr_loop-IsAnswer :
      (fuel inner i : ℕ)
      → i ≤ n
      → n < i + fuel
      → n < inner
      → ((j : ℕ) → j < i → ¬ Occurs m b k (a + j))
      → (r : ℕ) × (strstr_loop fuel inner m (a + i) b k ≡ some r) × IsAnswer m a n b k r
  unfolding strstr_loop
  strstr_loop-IsAnswer zero inner i le h h' before = absurd (omega arith)
  strstr_loop-IsAnswer (suc fuel) inner i le h h' before =
      let nz : m b ≢ 0 = let c = t.chars 0 some_char in λ z. c (ground (arith, z)) in
      elim (strchr_rest m a n (m b) s inner i nz (t.bytes b) le (omega arith)) [
        | inr (run, all) ↦ (
          0,
          rw (strstr_loop, run) refl,
          missing some_char (λ j l.
              none_before i (n + 1) before (λ l' lo hi. all l' lo (omega arith)) j (omega arith)),
        )
        | inl (j, run, lo, hi, at, between) ↦
            let first = none_before i j before between in
            elim (Bool-cases (is_zero (strncmp m (a + j) b k))) [
              | inl e ↦ (
                a + j,
                rw (strstr_loop, run) (ground (arith, e)),
                found j some_char hi (strncmp-zero m (a + j) b k t.chars e) first,
              )
              | inr e ↦
                  let past : ¬ Occurs m b k (a + j) =
                    λ occ. let same = strncmp-same m (a + j) b k occ in ground (arith, same, e) in
                  let (r, run', place) =
                    strstr_loop-IsAnswer fuel inner (j + 1) (omega arith) (omega arith) h' (λ l lt.
                      elim (ℕ_discrete l j) [ yes d ↦ rw d past | no d ↦ first l (omega arith) ]) in
                  let next : strstr_loop fuel inner m (a + j + 1) b k ≡ some r =
                    subst (λ p. strstr_loop fuel inner m p b k ≡ some r) (omega arith) run' in
                  (r, rw (strstr_loop, run, next) (ground (arith, e)), place)
            ]
      ]

strchr_end :
    (m : Memory) (a n : ℕ) (s : IsString m a n) (fuel i : ℕ)
    → i ≤ n
    → n < i + fuel
    → strchr fuel m (a + i) 0 ≡ some (a + n)
unfolding strchr
strchr_end m a n s zero i le h = absurd (omega arith)
strchr_end m a n s (suc fuel) i le h = elim (ℕ_discrete i n) [
  | yes e ↦ let z : m (a + i) ≡ 0 = ap (λ v. m (a + v)) e ∙ s.ends in ground (arith, z, e)
  | no q ↦
      let nz = s.chars i (omega arith) in
      let after : strchr (suc fuel) m (a + i) 0 ≡ strchr fuel m (a + (i + 1)) 0 =
        ground (arith, nz) in
      after ∙ strchr_end m a n s fuel (i + 1) (omega arith) (omega arith)
]

-- For two strings in a memory of bytes, the first not at the null address, `strstr` ends, with fuel
-- above the length of the first and above that of the second by one. A second string that is not
-- empty is found at the first place where all its characters stand, and null is returned when there is
-- none. For an empty one the terminator of the first string is returned, not its beginning.
pub strstr-IsAnswer :
    (m : Memory) (a b n k fuel : ℕ)
    → IsString m a n
    → IsString m b k
    → 0 < a
    → n < fuel
    → k + 1 < fuel
    → (r : ℕ) × (strstr fuel m a b ≡ some r) × IsAnswer m a n b k r
unfolding strstr
strstr-IsAnswer m a b n k zero s t pos_a h h' = absurd (omega arith)
strstr-IsAnswer m a b n k (suc fuel) s t pos_a h h' =
    let len = strlen_lem m b k t (suc fuel) h' in
    elim (ℕ_discrete k 0) [
      | yes e ↦
          let z : m b ≡ 0 = let c = t.ends in ground (arith, e, c) in
          let run : strchr (suc fuel) m a (m b) ≡ some (a + n) =
            subst (λ c. strchr (suc fuel) m a c ≡ some (a + n)) (sym z)
              (subst (λ p. strchr (suc fuel) m p 0 ≡ some (a + n)) (omega arith)
                (strchr_end m a n s (suc fuel) 0 (omega arith) (omega arith))) in
          (a + n, rw (strstr, len, strstr_loop, run, e, strncmp) (ground arith), empty e)
      | no ne ↦
          let (r, run, answer) =
            strstr_loop-IsAnswer m a b n k s t (omega arith) pos_a (suc fuel) (suc fuel) 0
              (omega arith) (omega arith) h (λ j lt. elim lt [ ]) in
          (
            r,
            rw (strstr, len)
                (subst (λ p. strstr_loop (suc fuel) (suc fuel) m p b k ≡ some r) (omega arith) run),
            answer,
          )
    ]
