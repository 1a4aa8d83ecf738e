-- ===== src/Prelude/Xor.antt =====
-- The exclusive or of numbers: its digits, its bounds, and that it can be cancelled.
use Prim.Native.Nat.{
  ℕ, zero, suc, ◌+◌, ◌-◌, ◌*◌, ◌/◌, ◌%◌, ◌≤◌, ◌<◌, bit_xor, digits, differ, bit_xor-bitwise,
}
use mathlib.Core.Path.{◌≡◌, refl, sym, ap, ◌∙◌}
use native.Mathlib.Omega.{arith}

-- The exclusive or over at most `n` digits of `a`
abbrev xor : ℕ → ℕ → ℕ → ℕ
xor n a b = digits (λ b. b) differ n a b

differ_digit : (x y : ℕ) → x < 2 → y < 2 → differ x y < 2
differ_digit zero y h k = k
differ_digit (suc zero) zero h k = omega arith
differ_digit (suc zero) (suc y) h k = omega arith
differ_digit (suc (suc x)) y h k = absurd (omega arith)

bit_xor-xor : (a b : ℕ) → bit_xor a b ≡ xor a a b
bit_xor-xor a b = λ i. bit_xor-bitwise a b i

xor-zero : (n b : ℕ) → xor n 0 b ≡ b
xor-zero zero b = refl
xor-zero (suc n) b = refl

half_of : (q f : ℕ) → f < 2 → ((q * 2 + f) / 2 ≡ q) × ((q * 2 + f) % 2 ≡ f)
half_of q f h = (omega arith, omega arith)

xor-half : (n a b : ℕ) → a ≤ n → xor n a b / 2 ≡ xor (n - 1) (a / 2) (b / 2)
xor-half zero zero b h = refl
xor-half zero (suc a) b h = absurd (omega arith)
xor-half (suc n) zero b h = sym (xor-zero (suc n - 1) (b / 2))
xor-half (suc n) (suc a) b h =
    let e : suc n - 1 ≡ n = omega arith in
    let digit = differ_digit (suc a % 2) (b % 2) (omega arith) (omega arith) in
    rw e (half_of (xor n (suc a / 2) (b / 2)) (differ (suc a % 2) (b % 2)) digit).0

xor-digit : (n a b : ℕ) → a ≤ n → xor n a b % 2 ≡ differ (a % 2) (b % 2)
xor-digit zero zero b h = refl
xor-digit zero (suc a) b h = absurd (omega arith)
xor-digit (suc n) zero b h = refl
xor-digit (suc n) (suc a) b h =
    let digit = differ_digit (suc a % 2) (b % 2) (omega arith) (omega arith) in
    (half_of (xor n (suc a / 2) (b / 2)) (differ (suc a % 2) (b % 2)) digit).1

differ_cancel_left : (x y z : ℕ) → x < 2 → y < 2 → z < 2 → differ x y ≡ differ x z → y ≡ z
differ_cancel_left zero y z h k l e = e
differ_cancel_left (suc zero) zero zero h k l e = refl
differ_cancel_left (suc zero) (suc zero) (suc zero) h k l e = refl
differ_cancel_left (suc zero) zero (suc zero) h k l e = absurd (omega (arith, e))
differ_cancel_left (suc zero) (suc zero) zero h k l e = absurd (omega (arith, e))
differ_cancel_left (suc zero) (suc (suc y)) z h k l e = absurd (omega arith)
differ_cancel_left (suc zero) y (suc (suc z)) h k l e = absurd (omega arith)
differ_cancel_left (suc (suc x)) y z h k l e = absurd (omega arith)

differ_cancel_right : (x y z : ℕ) → x < 2 → y < 2 → z < 2 → differ x z ≡ differ y z → x ≡ y
differ_cancel_right zero zero z h k l e = refl
differ_cancel_right (suc zero) (suc zero) z h k l e = refl
differ_cancel_right zero (suc zero) zero h k l e = absurd (omega (arith, e))
differ_cancel_right zero (suc zero) (suc zero) h k l e = absurd (omega (arith, e))
differ_cancel_right (suc zero) zero zero h k l e = absurd (omega (arith, e))
differ_cancel_right (suc zero) zero (suc zero) h k l e = absurd (omega (arith, e))
differ_cancel_right (suc (suc x)) y z h k l e = absurd (omega arith)
differ_cancel_right x (suc (suc y)) z h k l e = absurd (omega arith)
differ_cancel_right x y (suc (suc z)) h k l e = absurd (omega arith)

xor_cancel_left : (k n a b c : ℕ) → a ≤ k → a ≤ n → xor n a b ≡ xor n a c → b ≡ c
xor_cancel_left zero n zero b c h f e = sym (xor-zero n b) ∙ e ∙ xor-zero n c
xor_cancel_left zero n (suc a) b c h f e = absurd (omega arith)
xor_cancel_left (suc k) n a b c h f e =
    let halves : b / 2 ≡ c / 2 =
      xor_cancel_left k (n - 1) (a / 2) (b / 2) (c / 2) (omega arith) (omega arith)
        (sym (xor-half n a b f) ∙ ap (λ x. x / 2) e ∙ xor-half n a c f) in
    let digits : b % 2 ≡ c % 2 =
      differ_cancel_left (a % 2) (b % 2) (c % 2) (omega arith) (omega arith) (omega arith)
        (sym (xor-digit n a b f) ∙ ap (λ x. x % 2) e ∙ xor-digit n a c f) in
    omega arith

xor_cancel_right : (k n m a b c : ℕ) → a ≤ k → b ≤ k → a ≤ n → b ≤ m → xor n a c ≡ xor m b c → a ≡ b
xor_cancel_right zero n m a b c h l f g e = omega arith
xor_cancel_right (suc k) n m a b c h l f g e =
    let halves : a / 2 ≡ b / 2 =
      xor_cancel_right k (n - 1) (m - 1) (a / 2) (b / 2) (c / 2) (omega arith) (omega arith)
        (omega arith) (omega arith)
        (sym (xor-half n a c f) ∙ ap (λ x. x / 2) e ∙ xor-half m b c g) in
    let digits : a % 2 ≡ b % 2 =
      differ_cancel_right (a % 2) (b % 2) (c % 2) (omega arith) (omega arith) (omega arith)
        (sym (xor-digit n a c f) ∙ ap (λ x. x % 2) e ∙ xor-digit m b c g) in
    omega arith

abbrev pub pow2 : ℕ → ℕ
pow2 zero = 1
pow2 (suc k) = 2 * pow2 k

-- Two numbers of `k` digits have an exclusive or of `k` digits.
xor-lt : (k n a b : ℕ) → a ≤ n → a < pow2 k → b < pow2 k → xor n a b < pow2 k
xor-lt zero n zero b h f g = rw (xor-zero n b) g
xor-lt zero n (suc a) b h f g = absurd (omega arith)
xor-lt (suc k) n a b h f g =
    let half = xor-lt k (n - 1) (a / 2) (b / 2) (omega arith) (omega arith) (omega arith) in
    omega (arith, half, xor-half n a b h)

-- Where only the second has more than `k` digits, so has the exclusive or.
xor-ge : (k n a b : ℕ) → a ≤ n → a < pow2 k → pow2 k ≤ b → pow2 k ≤ xor n a b
xor-ge zero n zero b h f g = rw (xor-zero n b) g
xor-ge zero n (suc a) b h f g = absurd (omega arith)
xor-ge (suc k) n a b h f g =
    let half = xor-ge k (n - 1) (a / 2) (b / 2) (omega arith) (omega arith) (omega arith) in
    omega (arith, half, xor-half n a b h)

pub bit_xor_cancel_left : (a b c : ℕ) → bit_xor a b ≡ bit_xor a c → b ≡ c
bit_xor_cancel_left a b c e =
    xor_cancel_left a a a b c (omega arith) (omega arith)
      (sym (bit_xor-xor a b) ∙ e ∙ bit_xor-xor a c)

pub bit_xor_cancel_right : (a b c : ℕ) → bit_xor a c ≡ bit_xor b c → a ≡ b
bit_xor_cancel_right a b c e =
    xor_cancel_right (a + b) a b a b c (omega arith) (omega arith) (omega arith) (omega arith)
      (sym (bit_xor-xor a c) ∙ e ∙ bit_xor-xor b c)

pub bit_xor-lt : (k a b : ℕ) → a < pow2 k → b < pow2 k → bit_xor a b < pow2 k
bit_xor-lt k a b f g = omega (arith, bit_xor-xor a b, xor-lt k a a b (omega arith) f g)

pub bit_xor-ge : (k a b : ℕ) → a < pow2 k → pow2 k ≤ b → pow2 k ≤ bit_xor a b
bit_xor-ge k a b f g = omega (arith, bit_xor-xor a b, xor-ge k a a b (omega arith) f g)
