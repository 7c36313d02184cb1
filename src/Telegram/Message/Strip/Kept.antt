-- ===== src/Telegram/Message/Strip/Kept.antt =====
-- `str.strip` on lists of code points: a text without white space is kept.
use mathlib.Core.List.{reverse, reverse_aux}
use sms_gateway_v.Base.{◌≡◌, refl, ap, ◌∙◌, Bool, true, not, ◌&&◌, [], ◌∷◌, ◌++◌, arith}
use sms_gateway_v.Telegram.Message.{Chars}
use sms_gateway_v.Telegram.Message.Strip.{is_space, lstrip, strip}

-- no white space
unfoldable pub is_solid : Chars → Bool
is_solid [] = true
is_solid (c ∷ cs) = not (is_space c) && is_solid cs

lstrip-solid : (cs : Chars) → is_solid cs ≡ true → lstrip cs ≡ cs
unfolding lstrip is_solid
lstrip-solid [] s = refl
lstrip-solid (c ∷ cs) s = ground arith

solid-reverse :
    (cs ds : Chars) → is_solid cs ≡ true → is_solid ds ≡ true → is_solid (reverse_aux cs ds) ≡ true
unfolding is_solid
solid-reverse [] ds s t = t
solid-reverse (c ∷ cs) ds s t = solid-reverse cs (c ∷ ds) (ground arith) (ground arith)

reverse-reverse_aux :
    (cs ds es : Chars) → reverse_aux (reverse_aux cs ds) es ≡ reverse_aux ds (cs ++ es)
reverse-reverse_aux [] ds es = refl
reverse-reverse_aux (c ∷ cs) ds es = reverse-reverse_aux cs (c ∷ ds) es

append-empty : (cs : Chars) → cs ++ [] ≡ cs
append-empty [] = refl
append-empty (c ∷ cs) = ap (λ ds. c ∷ ds) (append-empty cs)

pub strip-solid : (cs : Chars) → is_solid cs ≡ true → strip cs ≡ cs
unfolding strip is_solid
strip-solid cs s =
    ap (λ ds. reverse (lstrip (reverse ds))) (lstrip-solid cs s)
    ∙ (ap reverse (lstrip-solid (reverse cs) (solid-reverse cs [] s refl))
        ∙ (reverse-reverse_aux cs [] [] ∙ append-empty cs))
