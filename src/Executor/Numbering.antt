-- ===== src/Executor/Numbering.antt =====
-- crates/executor/src/lib.rs: the offsets of the lines of a stream, against the text that the
-- lines make up.
use multinode_controller.Base.{
  ℕ, ◌+◌, ◌%◌, ◌^◌, ◌≡◌, sym, ◌∙◌, ap, List, [], ◌∷◌, ◌++◌, Text, length, arith,
}
use multinode_controller.Protocol.{LogLine}
use multinode_controller.Executor.Events.{next_offset}

-- The lines carry the offsets from the first one up to the one that comes next.
unfoldable pub Numbered : ℕ → List LogLine → ℕ → Type 0
Numbered offset [] after = offset ≡ after
Numbered offset (line ∷ lines) after =
    (line.offset ≡ offset) × Numbered (next_offset offset line.line) lines after

pub Numbered-append :
    (offset : ℕ) (lines : List LogLine) (line : LogLine) (after : ℕ)
    → Numbered offset lines after
    → line.offset ≡ after
    → Numbered offset (lines ++ line ∷ []) (next_offset after line.line)
unfolding Numbered
Numbered-append offset [] line after e f = (f ∙ sym e, ap (λ o. next_offset o line.line) e)
Numbered-append offset (l ∷ lines) line after (e, rest) f =
    (e, Numbered-append (next_offset offset l.line) lines line after rest f)

-- The lines' text, each line with its line feed.
unfoldable pub text_of : List LogLine → Text
text_of [] = []
text_of (line ∷ lines) = line.line ++ 10 ∷ text_of lines

length-append : (t u : Text) → length (t ++ u) ≡ length t + length u
length-append [] u = omega arith
length-append (c ∷ t) u = omega (arith, length-append t u)

next_offset-position :
    (offset base : ℕ) (t : Text)
    → offset ≡ base % 2 ^ 64
    → next_offset offset t ≡ (base + (length t + 1)) % 2 ^ 64
unfolding next_offset
next_offset-position offset base t e = omega arith

-- A line's offset is the place of its first byte in the stream.
pub Numbered-position :
    (base offset after : ℕ) (front : List LogLine) (line : LogLine) (back : List LogLine)
    → offset ≡ base % 2 ^ 64
    → Numbered offset (front ++ line ∷ back) after
    → line.offset ≡ (base + length (text_of front)) % 2 ^ 64
unfolding Numbered text_of
Numbered-position base offset after [] line back e (f, rest) = omega arith
Numbered-position base offset after (l ∷ front) line back e (f, rest) =
    let there =
      Numbered-position (base + (length l.line + 1)) (next_offset offset l.line) after front line
        back (next_offset-position offset base l.line e) rest in
    omega (arith, there, length-append l.line (10 ∷ text_of front))
