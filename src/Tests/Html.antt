-- ===== src/Tests/Html.antt =====
-- A length function for the HTML that the gateway writes, with the laws of the parameter.
use sms_gateway_v.Base.{
  ℕ, suc, ◌+◌, ◌≡◌, refl, sym, ◌∙◌, ap, [], ◌∷◌, ◌++◌, nat_eq, length, if◌then◌else◌, arith,
}
use sms_gateway_v.Telegram.Message.{
  Chars, HtmlParser, escape, escape_char, bold, truncation_suffix, chars,
}

pub data Mode : Type 0 where
  in_text in_tag in_entity : Mode

-- characters outside tags, an entity for one
abbrev pub scan : Mode → Chars → ℕ
scan m [] = 0
scan in_text (c ∷ cs) =
    if nat_eq c b'<'
    then scan in_tag cs
    else if nat_eq c b'&'
    then suc (scan in_entity cs)
    else suc (scan in_text cs)
scan in_tag (c ∷ cs) = if nat_eq c b'>' then scan in_text cs else scan in_tag cs
scan in_entity (c ∷ cs) = if nat_eq c b';' then scan in_text cs else scan in_entity cs

scan-escape_char : (c : ℕ) (ys : Chars) → scan in_text (escape_char c ++ ys) ≡ suc (scan in_text ys)
unfolding escape_char
scan-escape_char c ys = ground arith

append_assoc : (xs ys zs : Chars) → (xs ++ ys) ++ zs ≡ xs ++ (ys ++ zs)
append_assoc [] ys zs = refl
append_assoc (x ∷ xs) ys zs = ap (λ l. x ∷ l) (append_assoc xs ys zs)

pub scan-escape : (xs ys : Chars) → scan in_text (escape xs ++ ys) ≡ length xs + scan in_text ys
unfolding escape
scan-escape [] ys = omega arith
scan-escape (x ∷ xs) ys =
    ap (scan in_text) (append_assoc (escape_char x) (escape xs) ys)
    ∙ scan-escape_char x (escape xs ++ ys)
    ∙ omega (arith, scan-escape xs ys)

pub scan-escaped : (xs : Chars) → scan in_text (escape xs) ≡ length xs
scan-escaped xs = ap (scan in_text) (sym (append_nil (escape xs))) ∙ scan-escape xs [] ∙ omega arith
  where
    append_nil : (ys : Chars) → ys ++ [] ≡ ys
    append_nil [] = refl
    append_nil (y ∷ ys) = ap (λ l. y ∷ l) (append_nil ys)

pub scan-bold :
    (number text : Chars)
    → scan in_text (bold (escape number) text) ≡ length number + 1 + scan in_text text
scan-bold number text = scan-escape number (chars "</b>\n" ++ text) ∙ omega arith

pub scan-bold_suffix :
    (number : Chars)
    → scan in_text (bold (escape number ++ truncation_suffix) []) ≡ length number + 3 + 1
scan-bold_suffix number =
    ap (scan in_text) (append_assoc (escape number) truncation_suffix (chars "</b>\n"))
    ∙ scan-escape number (truncation_suffix ++ chars "</b>\n")
    ∙ omega arith

instance abbrev pub scanner : HtmlParser
scanner = record {
  data_length = scan in_text;
  bold_length = λ number text.
      scan-bold number (escape text) ∙ ap (λ n. length number + 1 + n) (scan-escaped text);
  bold_length_suffix = λ number text.
      scan-bold number (escape text ++ truncation_suffix)
      ∙ ap (λ n. length number + 1 + n) (scan-escape text truncation_suffix);
  bold_length_number = scan-bold_suffix;
}
