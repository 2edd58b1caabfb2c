-- ===== src/Prompt/Words.antt =====
-- The word at the cursor that a completion looks for (src/prompt.c).
use tash.Base.{
  ℕ, zero, suc, ◌+◌, ◌-◌, ◌≤◌, ◌<◌, ◌≡◌, refl, sym, ◌∙◌, true, false, ◌⊎◌, inl, inr, ◌==◌, ltb,
  Bool-cases, arith,
}
use tash.Prompt.Editor.{Editor}
use tash.Prompt.Completion.{is_blank, back_to_blank, word_start, to_blank, word_end}

-- The places from `start` to `stop`: no blanks, as far as they reach around the cursor.
pub record Word (e : Editor) (start stop : ℕ) : Type 0 where
  pub start_le : start ≤ e.cursor
  pub stop_ge : e.cursor ≤ stop
  pub stop_le : stop ≤ e.len
  pub letters : (k : ℕ) → start ≤ k → k < stop → is_blank (e.cells k) ≡ false
  pub before : (start ≡ 0) ⊎ (is_blank (e.cells (start - 1)) ≡ true)
  pub behind : (stop ≡ e.len) ⊎ (is_blank (e.cells stop) ≡ true)

at_blank : (cells : ℕ → ℕ) (k : ℕ) → is_blank (cells k) ≡ true → back_to_blank cells k ≡ k
unfolding back_to_blank
at_blank cells zero h = refl
at_blank cells (suc k) h = rw h refl

back_to_blank_lem :
    (cells : ℕ → ℕ) (start k : ℕ)
    → start ≤ k
    → ((j : ℕ) → start ≤ j → j ≤ k → is_blank (cells j) ≡ false)
    → (start ≡ 0) ⊎ (is_blank (cells (start - 1)) ≡ true)
    → back_to_blank cells k ≡ start - 1
unfolding back_to_blank
back_to_blank_lem cells start zero h letters before = omega arith
back_to_blank_lem cells start (suc k) h letters before =
    let here = letters (suc k) h (omega arith) in
    elim (Bool-cases (ltb k start)) [
      | inr inside ↦ rw here (
          back_to_blank_lem cells start k (ground arith) (λ j l m. letters j l (omega (arith, m)))
            before)
      | inl first ↦
          let e : start ≡ suc k = ground arith in
          rw here (elim before [
            | inl none ↦ absurd (omega (arith, none))
            | inr blank ↦
                let same : start - 1 ≡ k = omega arith in
                let blank' : is_blank (cells k) ≡ true = rw same at blank in
                rw same (at_blank cells k blank')
          ])
    ]

at_start : (cells : ℕ → ℕ) → back_to_blank cells 0 ≡ 0
unfolding back_to_blank
at_start cells = refl

back_to_blank-Word :
    (e : Editor) (start stop : ℕ)
    → Word e start stop
    → back_to_blank e.cells (e.cursor - 1) ≡ start - 1
back_to_blank-Word e start stop w = elim (Bool-cases (ltb start e.cursor)) [
  | inl inside ↦
      back_to_blank_lem e.cells start (e.cursor - 1) (ground arith)
        (λ k l r. w.letters k l (ground (arith, inside, r, w.stop_ge))) w.before
  | inr here ↦
      let same : e.cursor ≡ start = ground (arith, w.start_le) in
      elim w.before [
        | inl none ↦
            let first : e.cursor - 1 ≡ 0 = omega (arith, same, none) in
            let first' : start - 1 ≡ 0 = omega (arith, none) in
            rw (first, first') (at_start e.cells)
        | inr blank ↦ rw same (at_blank e.cells (start - 1) blank)
      ]
]

pub word_start-Word : (e : Editor) (start stop : ℕ) → Word e start stop → word_start e ≡ start
unfolding word_start
word_start-Word e start stop w =
    rw (back_to_blank-Word e start stop w) (elim (Bool-cases (start == 0)) [
      | inl none ↦
          let zero_start : start ≡ 0 = ground arith in
          elim (Bool-cases (ltb 0 e.cursor)) [
            | inl some ↦
                let here = w.letters 0 (omega arith) (ground (arith, some, w.stop_ge)) in
                let same : start - 1 ≡ 0 = omega arith in rw (same, here) (sym zero_start)
            | inr empty ↦ ground (arith, empty)
          ]
      | inr some ↦ elim w.before [
        | inl none ↦ absurd (ground (arith, some, none))
        | inr blank ↦ rw blank (ground (arith, w.start_le, some))
      ]
    ])

to_blank_lem :
    (cells : ℕ → ℕ) (i m n : ℕ)
    → m ≤ n
    → ((k : ℕ) → i ≤ k → k < i + m → is_blank (cells k) ≡ false)
    → (m ≡ n) ⊎ (is_blank (cells (i + m)) ≡ true)
    → to_blank cells i n ≡ i + m
unfolding to_blank
to_blank_lem cells i m zero h letters behind = omega arith
to_blank_lem cells i zero (suc n) h letters behind = elim behind [
  | inl none ↦ absurd (omega (arith, none))
  | inr blank ↦
      let same : i + 0 ≡ i = omega arith in
      let blank' : is_blank (cells i) ≡ true = rw same at blank in rw blank' (omega arith)
]
to_blank_lem cells i (suc m) (suc n) h letters behind =
    let here = letters i (omega arith) (omega arith) in
    let next : suc i + m ≡ i + suc m = omega arith in
    let rest =
      to_blank_lem cells (suc i) m n (omega arith)
        (λ k l r. letters k (omega (arith, l)) (omega (arith, r)))
        (elim behind [ inl same ↦ inl (omega (arith, same)) | inr blank ↦ inr (rw next blank) ]) in
    rw here (omega (arith, rest))

pub word_end-Word : (e : Editor) (start stop : ℕ) → Word e start stop → word_end e ≡ stop
unfolding word_end
word_end-Word e start stop w =
    let there : e.cursor + (stop - e.cursor) ≡ stop = omega (arith, w.stop_ge) in
    to_blank_lem e.cells e.cursor (stop - e.cursor) (e.len - e.cursor) (omega (arith, w.stop_le))
      (λ k l r. w.letters k (omega (arith, l, w.start_le)) (omega (arith, r, w.stop_ge)))
      (elim w.behind [ inl all ↦ inl (omega (arith, all)) | inr blank ↦ inr (rw there blank) ])
    ∙ there
