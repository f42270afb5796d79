-- ===== src/TokenStore/Labels/Laws.antt =====
-- The label generator of plugin/lib/token-store.ts: decimal suffixes, and its two loops.
use bb_shared.Base.{
  ℕ, zero, suc, ◌+◌, ◌-◌, ◌*◌, ◌/◌, ◌%◌, ◌≤◌, ◌<◌, ◌≡◌, ◌≢◌, refl, sym, ap, ◌∙◌, inl, inr, true,
  false, not, List, [], ◌∷◌, ◌++◌, none, some, Text, codes, length, filter, is_one_of, same,
  same_iff, ltb, arith, Bool-cases, Option-cases, length-filter-le,
}
use bb_shared.TokenStore.Labels.{
  digits, decimal, candidate, suffix_loop, attempt_loop, pick_unique_label, random_label,
}

value_from : ℕ → Text → ℕ
value_from acc [] = acc
value_from acc (c ∷ s) = value_from (acc * 10 + (c - 48)) s

value_from-snoc :
    (acc : ℕ) (s : Text) (c : ℕ) → value_from acc (s ++ c ∷ []) ≡ value_from acc s * 10 + (c - 48)
unfolding value_from
value_from-snoc acc [] c = refl
value_from-snoc acc (d ∷ s) c = value_from-snoc (acc * 10 + (d - 48)) s c

value_from-digits : (f n : ℕ) → n < f → value_from 0 (digits f n) ≡ n
unfolding digits value_from
value_from-digits zero n h = elim h [ ]
value_from-digits (suc f) n h = elim (Bool-cases (ltb n 10)) [
  | inl small ↦ rw small (omega arith)
  | inr big ↦ rw big (
      rw (value_from-snoc 0 (digits f (n / 10)) (48 + n % 10))
        (ground (arith, value_from-digits f (n / 10))))
]

pub decimal_injective : (m n : ℕ) → decimal m ≡ decimal n → m ≡ n
unfolding decimal
decimal_injective m n e =
    sym (value_from-digits (suc m) m (omega arith))
    ∙ (ap (value_from 0) e ∙ value_from-digits (suc n) n (omega arith))

append_cancel : (s t u : Text) → s ++ t ≡ s ++ u → t ≡ u
append_cancel [] t u e = e
append_cancel (c ∷ s) t u e = append_cancel s t u (ground arith)

pub candidate_injective : (base : Text) (i j : ℕ) → candidate base i ≡ candidate base j → i ≡ j
candidate_injective base i j e = decimal_injective i j (
    append_cancel (codes "-") (decimal i) (decimal j)
      (append_cancel base (codes "-" ++ decimal i) (codes "-" ++ decimal j) e))

-- The labels other than `c`.
abbrev without : Text → List Text → List Text
without c = filter (λ t. not (same c t))

is_one_of-without :
    (c x : Text) (ts : List Text) → x ≢ c → is_one_of x (without c ts) ≡ is_one_of x ts
is_one_of-without c x [] h = refl
is_one_of-without c x (t ∷ ts) h = elim (Bool-cases (same c t)) [
  | inl hit ↦ ground (arith, is_one_of-without c x ts h, same_iff c t, same_iff x t)
  | inr miss ↦ ground (arith, is_one_of-without c x ts h)
]

length-without :
    (c : Text) (ts : List Text) → is_one_of c ts ≡ true → suc (length (without c ts)) ≤ length ts
length-without c [] h = cc
length-without c (t ∷ ts) h = elim (Bool-cases (same c t)) [
  | inl hit ↦ ground (arith, length-filter-le (λ (u : Text). not (same c u)) ts)
  | inr miss ↦ ground (arith, length-without c ts)
]

-- A label that an earlier round tried is not asked for again.
suffix_loop-without :
    (f : ℕ) (taken : List Text) (base : Text) (i j : ℕ)
    → i < j
    → suffix_loop f (without (candidate base i) taken) base j ≡ suffix_loop f taken base j
unfolding suffix_loop
suffix_loop-without zero taken base i j h = refl
suffix_loop-without (suc f) taken base i j h =
    let other : candidate base j ≢ candidate base i =
      λ e. absurd (omega (arith, candidate_injective base j i e)) in
    rw (is_one_of-without (candidate base i) (candidate base j) taken other)
      (rw (suffix_loop-without f taken base i (j + 1) (omega arith)))

-- More rounds than taken labels: one of the candidates is free.
pub suffix_loop-ne-none :
    (f : ℕ) (taken : List Text) (base : Text) (i : ℕ)
    → length taken < f
    → suffix_loop f taken base i ≢ none
unfolding suffix_loop
suffix_loop-ne-none zero taken base i h e = elim h [ ]
suffix_loop-ne-none (suc f) taken base i h e =
    elim (Bool-cases (is_one_of (candidate base i) taken)) [
      | inl hit ↦
          suffix_loop-ne-none f (without (candidate base i) taken) base (i + 1)
            (omega (arith, length-without (candidate base i) taken hit))
            (suffix_loop-without f taken base i (i + 1) (omega arith) ∙ ground arith)
      | inr miss ↦ ground arith
    ]

suffix_loop-free :
    (f : ℕ) (taken : List Text) (base : Text) (i : ℕ) {label : Text}
    → suffix_loop f taken base i ≡ some label
    → is_one_of label taken ≡ false
unfolding suffix_loop
suffix_loop-free zero taken base i e = cc
suffix_loop-free (suc f) taken base i {label} e =
    elim (Bool-cases (is_one_of (candidate base i) taken)) [
      | inl hit ↦ suffix_loop-free f taken base (i + 1) {label = label} (ground arith)
      | inr miss ↦ let this : candidate base i ≡ label = ground arith in rw this at miss
    ]

attempt_loop_total :
    (left : ℕ) (taken : List Text) (rng : ℕ → ℕ) (k : ℕ)
    → (label : Text) × (attempt_loop left taken rng k ≡ some label)
      × (is_one_of label taken ≡ false)
unfolding attempt_loop
attempt_loop_total zero taken rng k =
    let base = random_label (rng k) (rng (k + 1)) in
    elim (Option-cases (suffix_loop (suc (length taken)) taken base 2)) [
      | inl e ↦ absurd (suffix_loop-ne-none (suc (length taken)) taken base 2 (omega arith) e)
      | inr (label, e) ↦
          (label, e, suffix_loop-free (suc (length taken)) taken base 2 {label = label} e)
    ]
attempt_loop_total (suc left) taken rng k =
    let label = random_label (rng k) (rng (k + 1)) in
    elim (Bool-cases (is_one_of label taken)) [
      | inl hit ↦ rw hit (attempt_loop_total left taken rng (k + 2))
      | inr miss ↦ rw miss (label, refl, miss)
    ]

-- Whatever the random draws, `pickUniqueLabel` ends and its label is none of the taken ones.
pub pick_unique_label_total :
    (taken : List Text) (rng : ℕ → ℕ)
    → (label : Text) × (pick_unique_label taken rng ≡ some label) × (is_one_of label taken ≡ false)
unfolding pick_unique_label
pick_unique_label_total taken rng = attempt_loop_total 32 taken rng 0
