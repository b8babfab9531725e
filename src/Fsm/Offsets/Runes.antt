-- ===== src/Fsm/Offsets/Runes.antt =====
-- When two partition numbers have the same text.
use aero_mq.Prelude.{ℕ, ◌+◌, ◌-◌, ◌*◌, ◌≡◌, true, false, [], ◌∷◌, Text, arith, sym, ◌∙◌, ap}
use aero_mq.Fsm.Offsets.{is_rune, rune_text, replacement}

-- What has no code point is written as U+FFFD.
pub rune_text_replaced : (n : ℕ) → is_rune n ≡ false → rune_text n ≡ replacement
unfolding rune_text
rune_text_replaced n h = ground arith

-- The code point of the first UTF-8 sequence.
decode_rune : Text → ℕ
decode_rune (a ∷ []) = a
decode_rune (a ∷ b ∷ []) = (a - 192) * 64 + (b - 128)
decode_rune (a ∷ b ∷ c ∷ []) = (a - 224) * 4096 + (b - 128) * 64 + (c - 128)
decode_rune (a ∷ b ∷ c ∷ d ∷ []) =
    (a - 240) * 262144 + (b - 128) * 4096 + (c - 128) * 64 + (d - 128)
decode_rune _ = 0

decode_rune-rune_text : (n : ℕ) → is_rune n ≡ true → decode_rune (rune_text n) ≡ n
unfolding decode_rune rune_text
decode_rune-rune_text n h = ground arith

-- Distinct code points have distinct texts.
pub rune_text_inj :
    (m n : ℕ) → is_rune m ≡ true → is_rune n ≡ true → rune_text m ≡ rune_text n → m ≡ n
rune_text_inj m n hm hn e =
    sym (decode_rune-rune_text m hm) ∙ ap decode_rune e ∙ decode_rune-rune_text n hn
