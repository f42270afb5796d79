-- ===== src/Relay/Credential.antt =====
-- `timingSafeEqual` of worker/src/tunnel/tunnel-do.ts.
use Prim.Native.Nat.{digits, differ, max, bit_or, bit_xor, bit_or-bitwise, bit_xor-bitwise}
use bb_shared.Base.{
  ℕ, zero, suc, ◌/◌, ◌%◌, ◌≤◌, ◌≡◌, ◌≢◌, ◌↔◌, refl, [], ◌∷◌, true, Text, length, arith,
}
use bb_shared.Relay.{diff_loop, timing_safe_equal}

max-zero : (x y : ℕ) → max x y ≡ 0 → (x ≡ 0) × (y ≡ 0)
max-zero x y h = (omega arith, omega arith)

differ-zero : (x y : ℕ) → differ x y ≡ 0 → x ≡ y
differ-zero zero y h = omega arith
differ-zero (suc x) zero h = absurd (omega arith)
differ-zero (suc x) (suc y) h = omega (arith, differ-zero x y h)

differ_self : (x : ℕ) → differ x x ≡ 0
differ_self zero = refl
differ_self (suc x) = differ_self x

or_digits-zero : (n a b : ℕ) → a ≤ n → digits (λ c. c) max n a b ≡ 0 → (a ≡ 0) × (b ≡ 0)
or_digits-zero zero zero b p h = (refl, h)
or_digits-zero zero (suc a) b p h = absurd (omega arith)
or_digits-zero (suc n) zero b p h = (refl, h)
or_digits-zero (suc n) (suc a) b p h =
    let (x, y) = max-zero (suc a % 2) (b % 2) (omega (arith, h)) in
    let (u, v) = or_digits-zero n (suc a / 2) (b / 2) (omega arith) (omega (arith, h)) in
    absurd (omega (arith, x, y, u, v))

xor_digits-zero : (n a b : ℕ) → a ≤ n → digits (λ c. c) differ n a b ≡ 0 → a ≡ b
xor_digits-zero zero zero b p h = omega arith
xor_digits-zero zero (suc a) b p h = absurd (omega arith)
xor_digits-zero (suc n) zero b p h = omega arith
xor_digits-zero (suc n) (suc a) b p h =
    let x = differ-zero (suc a % 2) (b % 2) (omega (arith, h)) in
    let u = xor_digits-zero n (suc a / 2) (b / 2) (omega arith) (omega (arith, h)) in
    omega (arith, x, u)

xor_digits_self : (n a : ℕ) → a ≤ n → digits (λ c. c) differ n a a ≡ 0
xor_digits_self zero zero p = refl
xor_digits_self zero (suc a) p = absurd (omega arith)
xor_digits_self (suc n) zero p = refl
xor_digits_self (suc n) (suc a) p =
    omega (arith, differ_self (suc a % 2), xor_digits_self n (suc a / 2) (omega arith))

bit_or-zero : (a b : ℕ) → bit_or a b ≡ 0 → (a ≡ 0) × (b ≡ 0)
bit_or-zero a b h = or_digits-zero a a b (omega arith) (omega (arith, bit_or-bitwise a b, h))

bit_xor-zero_iff : (a b : ℕ) → (bit_xor a b ≡ 0) ↔ (a ≡ b)
bit_xor-zero_iff a b = (
  λ h. xor_digits-zero a a b (omega arith) (omega (arith, bit_xor-bitwise a b, h)),
  λ e. rw e (omega (arith, bit_xor-bitwise b b, xor_digits_self b b (omega arith))),
)

diff_loop_sound :
    (d : ℕ) (s t : Text) → length s ≡ length t → diff_loop d s t ≡ 0 → (d ≡ 0) × (s ≡ t)
unfolding diff_loop
diff_loop_sound d [] [] e h = (h, refl)
diff_loop_sound d [] (b ∷ t) e h = absurd (omega arith)
diff_loop_sound d (a ∷ s) [] e h = absurd (omega arith)
diff_loop_sound d (a ∷ s) (b ∷ t) e h =
    let (u, v) = diff_loop_sound (bit_or d (bit_xor a b)) s t (omega arith) h in
    let (x, y) = bit_or-zero d (bit_xor a b) u in (x, rw ((bit_xor-zero_iff a b).0 y, v) refl)

diff_loop_self : (s : Text) → diff_loop 0 s s ≡ 0
unfolding diff_loop
diff_loop_self [] = refl
diff_loop_self (a ∷ s) = rw ((bit_xor-zero_iff a a).1 refl) (diff_loop_self s)

-- The comparison without an early return holds exactly of equal texts that are not empty.
pub timing_safe_equal_iff : (a b : Text) → (timing_safe_equal a b ≡ true) ↔ ((a ≢ []) × (a ≡ b))
unfolding timing_safe_equal
timing_safe_equal_iff a b = (
  λ h.
      let (zero_diff, same_text) = diff_loop_sound 0 a b (ground arith) (ground arith) in
      (ground arith, same_text),
  λ (filled, e). ground (arith, diff_loop_self a, filled, e),
)
