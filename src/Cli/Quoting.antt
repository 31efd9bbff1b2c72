-- ===== src/Cli/Quoting.antt =====
-- crates/cli/src/main.rs: `shell_quote`, and how a POSIX shell reads what it gives.
use multinode_controller.Base.{
  ℕ, ◌≡◌, refl, ap, sym, ◌∙◌, if◌then◌else◌, List, [], ◌∷◌, ◌++◌, map, append-nil, Option, none,
  some, Text, join, ◌==◌, ℕ_discrete, arith,
}

-- `value.replace('\'', "'\\''")`: a quote becomes a quote, a backslash and two quotes.
unfoldable pub replace_quotes : Text → Text
replace_quotes [] = []
replace_quotes (c ∷ t) =
    let rest = replace_quotes t in if c == 39 then 39 ∷ 92 ∷ 39 ∷ 39 ∷ rest else c ∷ rest

unfoldable pub shell_quote : Text → Text
shell_quote value = 39 ∷ (replace_quotes value ++ 39 ∷ [])

-- Where the shell is in a line of words, single quotes and backslashes.
pub data Mode : Type 0 where
  between word quoted escaped : Mode

unfoldable pub prepend : Text → Option (List Text) → Option (List Text)
prepend w none = none
prepend w (some ws) = some (w ∷ ws)

-- The words of a line, by the POSIX rules for spaces, single quotes and backslashes; `w` is the word
-- so far. A quote or backslash left open gives none.
unfoldable pub shell_words : Mode → Text → Text → Option (List Text)
shell_words Mode.between w [] = some []
shell_words Mode.word w [] = some (w ∷ [])
shell_words Mode.quoted w [] = none
shell_words Mode.escaped w [] = none
shell_words Mode.between w (c ∷ t) = elim (ℕ_discrete c 32) [
  | yes space ↦ shell_words Mode.between w t
  | no other ↦ elim (ℕ_discrete c 39) [
    | yes quote ↦ shell_words Mode.quoted [] t
    | no plain ↦ elim (ℕ_discrete c 92) [
      | yes backslash ↦ shell_words Mode.escaped [] t
      | no letter ↦ shell_words Mode.word (c ∷ []) t
    ]
  ]
]
shell_words Mode.word w (c ∷ t) = elim (ℕ_discrete c 32) [
  | yes space ↦ prepend w (shell_words Mode.between [] t)
  | no other ↦ elim (ℕ_discrete c 39) [
    | yes quote ↦ shell_words Mode.quoted w t
    | no plain ↦ elim (ℕ_discrete c 92) [
      | yes backslash ↦ shell_words Mode.escaped w t
      | no letter ↦ shell_words Mode.word (w ++ c ∷ []) t
    ]
  ]
]
shell_words Mode.quoted w (c ∷ t) = elim (ℕ_discrete c 39) [
  | yes quote ↦ shell_words Mode.word w t
  | no other ↦ shell_words Mode.quoted (w ++ c ∷ []) t
]
shell_words Mode.escaped w (c ∷ t) = shell_words Mode.word (w ++ c ∷ []) t

append-snoc : (w : Text) (c : ℕ) (t : Text) → (w ++ c ∷ []) ++ t ≡ w ++ c ∷ t
append-snoc [] c t = refl
append-snoc (y ∷ w) c t = ap (◌∷◌ y) (append-snoc w c t)

quoted_word :
    (w t rest : Text)
    → shell_words Mode.quoted w (replace_quotes t ++ 39 ∷ rest)
      ≡ shell_words Mode.word (w ++ t) rest
unfolding shell_words replace_quotes ℕ_discrete
quoted_word w [] rest = ap (λ v. shell_words Mode.word v rest) (sym (append-nil w))
quoted_word w (c ∷ t) rest = elim (ℕ_discrete c 39) [
  | yes quote ↦ rw quote (
      quoted_word (w ++ 39 ∷ []) t rest
      ∙ ap (λ v. shell_words Mode.word v rest) (append-snoc w 39 t))
  | no other ↦ ground (arith, quoted_word (w ++ c ∷ []) t rest, append-snoc w c t)
]

-- The line that `torchrun_request_parts` ends with: each part quoted, with spaces between them.
unfoldable pub quote_all : List Text → Text
quote_all parts = join (32 ∷ []) (map shell_quote parts)

-- A shell reads the quoted parts, joined by spaces, as the same parts, whatever characters they
-- hold.
pub shell_words-quote_all :
    (parts : List Text) → shell_words Mode.between [] (quote_all parts) ≡ some parts
unfolding quote_all join shell_quote shell_words prepend ℕ_discrete
shell_words-quote_all [] = refl
shell_words-quote_all (p ∷ []) = quoted_word [] p []
shell_words-quote_all (p ∷ q ∷ ps) =
    let more = 32 ∷ quote_all (q ∷ ps) in
    ap (shell_words Mode.quoted []) (append-snoc (replace_quotes p) 39 more)
    ∙ quoted_word [] p more
    ∙ ap (prepend p) (shell_words-quote_all (q ∷ ps))
