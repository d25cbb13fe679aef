-- ===== src/Markup/Tests.antt =====
-- Runs of the markup, and the theorems at concrete messages.
use rafineai_self_hosted.Prelude.{Text, text, trim, [], ◌∷◌, ◌++◌, map, ◌≡◌, refl, arith}
use rafineai_self_hosted.Scan.{pieces_in}
use rafineai_self_hosted.Markup.{
  words, inline_code, strong, link, heading, bullet, gap, paragraph, fence_at, block_of, mark_at,
  node_of, code, split_blocks, render_inline, text_block, code_block, lines, message_content,
}
use rafineai_self_hosted.Markup.Reading.{written_all, written_all-render_inline}
use rafineai_self_hosted.Markup.Fences.{fenced, prose_if, split_blocks-fuel, split_blocks-fenced}

abbrev marked : Text
unfolding text
marked = text "a `b` **c** [d](https://e/f) [g](x)"

render_inline_test :
    render_inline marked
    ≡ words (text "a ")
      ∷ inline_code (text "b")
      ∷ words (text " ")
      ∷ strong (text "c")
      ∷ words (text " ")
      ∷ link (text "d") (text "https://e/f")
      ∷ words (text " [g](x)")
      ∷ []
unfolding render_inline text
render_inline_test = refl

text_block_test :
    text_block (text "## Plan" ++ 10 ∷ 10 ∷ text " - one" ++ 10 ∷ text "####x")
    ≡ heading 2 (words (text "Plan") ∷ [])
      ∷ gap
      ∷ bullet (words (text "one") ∷ [])
      ∷ paragraph (words (text "####x") ∷ [])
      ∷ []
unfolding text_block text
text_block_test = refl

message_content_test :
    message_content (text "Hi" ++ 10 ∷ fenced [] (text "x"))
    ≡ lines (paragraph (words (text "Hi") ∷ []) ∷ gap ∷ [])
      ∷ code_block (text "kod") (text "x")
      ∷ []
unfolding message_content text
message_content_test = refl

written_all-render_inline_example : written_all (render_inline marked) ≡ marked
written_all-render_inline_example = written_all-render_inline marked

split_blocks-fuel_example :
    (map block_of (pieces_in 90 fence_at (fenced (text "ts") marked))
      ≡ split_blocks (fenced (text "ts") marked))
    × (map node_of (pieces_in 90 mark_at (fenced (text "ts") marked))
        ≡ render_inline (fenced (text "ts") marked))
unfolding text
split_blocks-fuel_example = split_blocks-fuel 90 (fenced (text "ts") marked) (omega arith)

split_blocks-fenced_example :
    split_blocks (text "Run: " ++ (fenced (text " sh ") (text "npm ci") ++ text " ok"))
    ≡ prose_if
        (text "Run: ")
        (code (trim (text " sh ")) (text "npm ci") ∷ split_blocks (text " ok"))
unfolding text
split_blocks-fenced_example =
    split_blocks-fenced (text "Run: ") (text " sh ") (text "npm ci") (text " ok") refl refl refl
      refl
