-- ===== src/Sdp/Words.antt =====
-- `str::split_whitespace` and `[…].join(" ")`.
use monocles_chat_desktop.Base.{
  Bool, true, false, not, ◌≡◌, refl, ◌∙◌, ap, List, [], ◌∷◌, ◌++◌, Text, All, all, if◌then◌else◌,
  is_empty, is_whitespace, cons_head, arith,
}

-- Whether a word begins here.
abbrev pub in_word : Text → Bool
in_word [] = false
in_word (c ∷ cs) = not (is_whitespace c)

unfoldable pub words : Text → List Text
words [] = []
words (c ∷ cs) =
    let rest = words cs in
    if is_whitespace c then rest else if in_word cs then cons_head c rest else (c ∷ []) ∷ rest

-- `join`, of texts with a separator between them.
unfoldable pub join : Text → List Text → Text
join sep [] = []
join sep (w ∷ []) = w
join sep (w ∷ v ∷ ws) = w ++ (sep ++ join sep (v ∷ ws))

-- A text that is one word.
abbrev pub IsWord : Text → Type 0
IsWord w = (is_empty w ≡ false) × (all (λ c. not (is_whitespace c)) w ≡ true)

words-word : (w : Text) → IsWord w → words w ≡ w ∷ []
unfolding words
words-word [] h = ground arith
words-word (c ∷ []) h = ground arith
words-word (c ∷ x ∷ w) h = ground (arith, words-word (x ∷ w))

words-cons : (w t : Text) → IsWord w → words (w ++ 32 ∷ t) ≡ w ∷ words t
unfolding words is_whitespace
words-cons [] t h = ground arith
words-cons (c ∷ []) t h = ground arith
words-cons (c ∷ x ∷ w) t h = ground (arith, words-cons (x ∷ w) t)

pub words-join : (ws : List Text) → All IsWord ws → words (join (32 ∷ []) ws) ≡ ws
unfolding join
words-join [] h = unfold words in refl
words-join (w ∷ []) h = words-word w h.0
words-join (w ∷ v ∷ ws) h =
    words-cons w (join (32 ∷ []) (v ∷ ws)) h.0 ∙ ap (λ l. w ∷ l) (words-join (v ∷ ws) h.1)
