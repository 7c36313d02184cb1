-- ===== src/Telegram/Message/Strip.antt =====
-- `str.strip` on lists of code points.
pub mod Kept
use mathlib.Core.List.{reverse}
use sms_gateway_v.Base.{ℕ, Bool, ◌&&◌, ◌||◌, [], ◌∷◌, leb, nat_eq, if◌then◌else◌}
use sms_gateway_v.Telegram.Message.{Chars}

-- what `str.strip` takes off
unfoldable pub is_space : ℕ → Bool
is_space c =
    (leb 9 c && leb c 13)
    || ((leb 28 c && leb c 32)
        || (nat_eq c 133
            || (nat_eq c 160
                || (nat_eq c 5760
                    || ((leb 8192 c && leb c 8202)
                        || (nat_eq c 8232
                            || (nat_eq c 8233
                                || (nat_eq c 8239 || (nat_eq c 8287 || nat_eq c 12288)))))))))

pub lstrip : Chars → Chars
lstrip [] = []
lstrip (c ∷ cs) = if is_space c then lstrip cs else c ∷ cs

unfoldable pub strip : Chars → Chars
unfolding lstrip is_space
strip text = reverse (lstrip (reverse (lstrip text)))
