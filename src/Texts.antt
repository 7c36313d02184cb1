-- ===== src/Texts.antt =====
-- The order of texts is total.
use Prim.Native.Nat.compare as compare_ℕ
use Prim.Native.Nat.{Ordering, compare as compare_ℕ}
use Prim.Native.Char.{code}
use Prim.Native.String.compare
use Prim.Native.String.{compare, then}
use text.Mathlib.Text.{is_le}
use sms_gateway_v.Base.{ℕ, zero, suc, String, ◌≡◌, refl, sym, ◌∙◌, ap, true, false, arith}

flip : Ordering → Ordering
flip Ordering.lt = Ordering.gt
flip Ordering.eq = Ordering.eq
flip Ordering.gt = Ordering.lt

flip-compare_ℕ : (m n : ℕ) → compare_ℕ n m ≡ flip (compare_ℕ m n)
unfolding flip
flip-compare_ℕ zero zero = compare_ℕ.zero-zero ∙ ap flip (sym compare_ℕ.zero-zero)
flip-compare_ℕ zero (suc n) = compare_ℕ.suc-zero n ∙ ap flip (sym (compare_ℕ.zero-suc n))
flip-compare_ℕ (suc m) zero = compare_ℕ.zero-suc m ∙ ap flip (sym (compare_ℕ.suc-zero m))
flip-compare_ℕ (suc m) (suc n) =
    compare_ℕ.suc-suc n m ∙ flip-compare_ℕ m n ∙ ap flip (sym (compare_ℕ.suc-suc m n))

flip-then : (o p : Ordering) → then (flip o) (flip p) ≡ flip (then o p)
unfolding flip
flip-then Ordering.lt p = refl
flip-then Ordering.eq p = refl
flip-then Ordering.gt p = refl

flip-compare : (s t : String) → compare t s ≡ flip (compare s t)
unfolding flip
flip-compare String.[] String.[] = compare.nil-nil ∙ ap flip (sym compare.nil-nil)
flip-compare String.[] (String.◌∷◌ d t) =
    compare.cons-nil d t ∙ ap flip (sym (compare.nil-cons d t))
flip-compare (String.◌∷◌ c s) String.[] =
    compare.nil-cons c s ∙ ap flip (sym (compare.cons-nil c s))
flip-compare (String.◌∷◌ c s) (String.◌∷◌ d t) =
    compare.cons-cons d c t s
    ∙ rw (flip-compare_ℕ (code c) (code d), flip-compare s t, compare.cons-cons c d s t)
        (flip-then (compare_ℕ (code c) (code d)) (compare s t))

flipped_le : (o : Ordering) → is_le o ≡ false → is_le (flip o) ≡ true
unfolding flip
flipped_le Ordering.lt e = ground arith
flipped_le Ordering.eq e = ground arith
flipped_le Ordering.gt e = refl

pub compare-total : (s t : String) → is_le (compare s t) ≡ false → is_le (compare t s) ≡ true
compare-total s t e = rw (flip-compare s t) (flipped_le (compare s t) e)
