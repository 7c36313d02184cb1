-- ===== src/Config/Schedule/Printed.antt =====
-- config.py: a schedule that is printed is read back.
use sms_gateway_v.Base.{
  ℕ, zero, suc, ◌+◌, ◌-◌, ◌*◌, ◌/◌, ◌%◌, ◌≤◌, ◌≡◌, refl, ap, ◌∙◌, Bool, true, ◌&&◌, Option, some,
  List, [], ◌∷◌, ◌++◌, map, ltb, if◌then◌else◌, arith, Bool-cases, inl, inr,
}
use sms_gateway_v.Telegram.Message.{Chars}
use sms_gateway_v.Telegram.Message.Strip.{is_space}
use sms_gateway_v.Telegram.Message.Strip.Kept.{is_solid, strip-solid}
use sms_gateway_v.Modem.Timestamps.{is_digit}
use sms_gateway_v.Config.Schedule.{
  ℤ, pos, cons_first, split_commas, after_digit, unsigned, with_sign, int_of, add_first, add_part,
  ints_of, parse_worker_retry_schedule_seconds, add_delay, positives,
  validate_worker_retry_schedule_seconds, validated, schedule_of,
}

-- the decimal numeral of `n`, before other digits
show_from : ℕ → ℕ → Chars → Chars
show_from zero n rest = (n + b'0') ∷ rest
show_from (suc fuel) n rest =
    let more = show_from fuel (n / 10) ((n % 10 + b'0') ∷ rest) in
    if ltb n 10 then (n + b'0') ∷ rest else more

pub show : ℕ → Chars
unfolding show_from
show n = show_from n n []

-- `",".join(str(n) for n in schedule)`
pub print : List ℕ → Chars
print [] = []
print (n ∷ []) = show n
print (n ∷ m ∷ ns) = show n ++ (b',' ∷ print (m ∷ ns))

unfoldable pub all_positive : List ℕ → Bool
all_positive [] = true
all_positive (n ∷ ns) = ltb 0 n && all_positive ns

all_digits : Chars → Bool
all_digits [] = true
all_digits (c ∷ cs) = is_digit c && all_digits cs

after_digit-digit :
    (value d : ℕ) (rest : Chars)
    → is_digit d ≡ true
    → after_digit value (d ∷ rest) ≡ after_digit (value * 10 + (d - b'0')) rest
unfolding after_digit
after_digit-digit value d [] p = simp p
after_digit-digit value d (c ∷ rest) p = simp p

is_digit-low : (n : ℕ) → n ≤ 9 → is_digit (n + b'0') ≡ true
unfolding is_digit
is_digit-low n h = ground arith

digits-low :
    (n : ℕ) (rest : Chars) → n ≤ 9 → all_digits rest ≡ true → all_digits ((n + b'0') ∷ rest) ≡ true
unfolding all_digits
digits-low n rest h a = let d = is_digit-low n h in ground (arith, d, a)

tenth-below : (n fuel : ℕ) → n ≤ suc fuel → 10 ≤ n → n / 10 ≤ fuel
tenth-below n fuel h l = omega (arith, h, l)

unsigned-low : (n : ℕ) (rest : Chars) → n ≤ 9 → unsigned ((n + b'0') ∷ rest) ≡ after_digit n rest
unfolding unsigned
unsigned-low n rest h = simp (is_digit-low n h) (ap (λ m. after_digit m rest) (omega arith))

unsigned-show_from :
    (fuel n : ℕ) (rest : Chars) → n ≤ fuel → unsigned (show_from fuel n rest) ≡ after_digit n rest
unfolding show_from
unsigned-show_from zero n rest h = unsigned-low n rest (omega (arith, h))
unsigned-show_from (suc fuel) n rest h = elim (Bool-cases (ltb n 10)) [
  | inl b ↦ simp b (unsigned-low n rest (ground (arith, b)))
  | inr b ↦
      let last = n % 10 + b'0' in
      simp b (
        unsigned-show_from fuel (n / 10) (last ∷ rest) (tenth-below n fuel h (ground (arith, b)))
        ∙ (after_digit-digit (n / 10) last rest (is_digit-low (n % 10) (omega arith))
            ∙ ap (λ m. after_digit m rest) (omega arith)))
]

show_from-digits :
    (fuel n : ℕ) (rest : Chars)
    → n ≤ fuel
    → all_digits rest ≡ true
    → all_digits (show_from fuel n rest) ≡ true
unfolding show_from all_digits
show_from-digits zero n rest h a = digits-low n rest (omega (arith, h)) a
show_from-digits (suc fuel) n rest h a = elim (Bool-cases (ltb n 10)) [
  | inl b ↦ simp b (digits-low n rest (ground (arith, b)) a)
  | inr b ↦ simp b (
      show_from-digits fuel (n / 10) ((n % 10 + b'0') ∷ rest)
        (tenth-below n fuel h (ground (arith, b))) (digits-low (n % 10) rest (omega arith) a))
]

digits-solid : (cs : Chars) → all_digits cs ≡ true → is_solid cs ≡ true
unfolding all_digits is_solid is_digit is_space
digits-solid [] a = refl
digits-solid (c ∷ cs) a = ground (arith, digits-solid cs)

split_commas-last : (ds : Chars) → all_digits ds ≡ true → split_commas ds ≡ ds ∷ []
unfolding all_digits split_commas is_digit cons_first
split_commas-last [] a = refl
split_commas-last (d ∷ ds) a = ground (arith, split_commas-last ds)

split_commas-then :
    (ds rest : Chars)
    → all_digits ds ≡ true
    → split_commas (ds ++ (b',' ∷ rest)) ≡ ds ∷ split_commas rest
unfolding all_digits split_commas is_digit cons_first
split_commas-then [] rest a = refl
split_commas-then (d ∷ ds) rest a = ground (arith, split_commas-then ds rest)

show-digits : (n : ℕ) → all_digits (show n) ≡ true
unfolding show all_digits
show-digits n = show_from-digits n n [] (omega arith) refl

split_commas-print : (n : ℕ) (ns : List ℕ) → split_commas (print (n ∷ ns)) ≡ map show (n ∷ ns)
unfolding print
split_commas-print n [] = split_commas-last (show n) (show-digits n)
split_commas-print n (m ∷ ns) =
    split_commas-then (show n) (print (m ∷ ns)) (show-digits n)
    ∙ ap (λ parts. show n ∷ parts) (split_commas-print m ns)

int_of-digits : (cs : Chars) → all_digits cs ≡ true → int_of cs ≡ with_sign pos (unsigned cs)
unfolding int_of all_digits is_digit unsigned with_sign
int_of-digits [] a = refl
int_of-digits (c ∷ cs) a = ground arith

with_sign-some : (n : ℕ) (o : Option ℕ) → o ≡ some n → with_sign pos o ≡ some (pos n)
unfolding with_sign
with_sign-some n o e = rw e refl

add_part-digits :
    (cs : Chars) (n : ℕ) (rest : Option (List ℤ))
    → unsigned cs ≡ some n
    → all_digits cs ≡ true
    → add_part cs rest ≡ add_first (some (pos n)) rest
unfolding add_part unsigned
add_part-digits [] n rest e a = absurd (ground (arith, e))
add_part-digits (c ∷ cs) n rest e a =
    ap (λ i. add_first i rest) (int_of-digits (c ∷ cs) a ∙ with_sign-some n _ e)

unsigned-show : (n : ℕ) → unsigned (show n) ≡ some n
unfolding show after_digit
unsigned-show n = unsigned-show_from n n [] (omega arith)

ints_of-shown : (ns : List ℕ) → ints_of (map show ns) ≡ some (map pos ns)
unfolding ints_of add_first
ints_of-shown [] = refl
ints_of-shown (n ∷ ns) =
    ap (λ cs. add_part cs (ints_of (map show ns)))
      (strip-solid (show n) (digits-solid (show n) (show-digits n)))
    ∙ (add_part-digits (show n) n _ (unsigned-show n) (show-digits n)
        ∙ ap (add_first (some (pos n))) (ints_of-shown ns))

positives-pos : (ns : List ℕ) → all_positive ns ≡ true → positives (map pos ns) ≡ some ns
unfolding positives all_positive add_delay
positives-pos [] p = refl
positives-pos (zero ∷ ns) p = ground arith
positives-pos (suc n ∷ ns) p = ground (arith, positives-pos ns)

parse-print :
    (n : ℕ) (ns : List ℕ)
    → parse_worker_retry_schedule_seconds (print (n ∷ ns)) ≡ some (map pos (n ∷ ns))
unfolding parse_worker_retry_schedule_seconds
parse-print n ns = ap ints_of (split_commas-print n ns) ∙ ints_of-shown (n ∷ ns)

-- A schedule of at least one delay, all of them positive, is read back from its delays in decimal,
-- separated by commas.
pub schedule_of-print :
    (n : ℕ) (ns : List ℕ)
    → all_positive (n ∷ ns) ≡ true
    → schedule_of (print (n ∷ ns)) ≡ some (n ∷ ns)
unfolding schedule_of validate_worker_retry_schedule_seconds validated
schedule_of-print n ns p = ap validated (parse-print n ns) ∙ positives-pos (n ∷ ns) p
