-- ===== src/Markup.antt =====
-- panel/components/message-content.tsx: the fenced blocks of a message, the marks within a line, and
-- the lines of a text block. The regular expressions are matchers of Scan; React's nodes are data,
-- without their keys and classes.
pub mod Reading
pub mod Fences
pub mod Tests
use rafineai_self_hosted.Prelude.{
  ℕ, ◌+◌, String, Text, text, trim, trim_start, is_space, strip_prefix, Bool, true, false, not,
  ◌&&◌, ◌||◌, Option, none, some, List, [], ◌∷◌, ◌++◌, map, any, is_empty, length, ◌==◌, leb,
  split_on, if◌then◌else◌,
}
use rafineai_self_hosted.Scan.{Matcher, Piece, plain, hit, span, cut_at, pieces}

-- The groups of /```([^\n`]*)\n([\s\S]*?)```/
pub record Fence : Type 0 where
  pub info : Text
  pub body : Text

abbrev fence_of : Text → Option (Text × Text) → Option (Fence × Text)
fence_of info none = none
fence_of info (some (body, rest)) = some (record { info = info; body = body }, rest)

abbrev fence_body : Text → Option Text → Option (Fence × Text)
unfolding cut_at text
fence_body info none = none
fence_body info (some t) = fence_of info (cut_at (text "```") t)

abbrev fence_info : Option Text → Option (Fence × Text)
unfolding span fence_body strip_prefix
fence_info none = none
fence_info (some t) =
    let (info, rest) = span (λ c. not (c == 10 || c == 96)) t in
    fence_body info (strip_prefix (10 ∷ []) rest)

unfoldable pub fence_at : Matcher Fence
unfolding fence_info strip_prefix text
fence_at s = fence_info (strip_prefix (text "```") s)

pub data Block : Type 0 where
  code : (lang content : Text) → Block
  prose : (content : Text) → Block

-- content.replace(/\n$/, "")
unfoldable pub drop_newline : Text → Text
drop_newline [] = []
drop_newline (c ∷ []) = if c == 10 then [] else c ∷ []
drop_newline (c ∷ d ∷ s) = c ∷ drop_newline (d ∷ s)

abbrev pub block_of : Piece Fence → Block
unfolding drop_newline trim
block_of (plain u) = prose u
block_of (hit f) = code (trim f.info) (drop_newline f.body)

-- splitBlocks(src)
unfoldable pub split_blocks : Text → List Block
unfolding pieces fence_at block_of
split_blocks src = map block_of (pieces fence_at src)

-- The nodes of renderInline: a text, <code>, <strong>, and a link with its label and its href.
pub data Inline : Type 0 where
  words : Text → Inline
  inline_code : Text → Inline
  strong : Text → Inline
  link : (label href : Text) → Inline

-- A run of at least one code unit, and its end.
abbrev pub closed : Text → (Text → Inline) → Text × Text → Option (Inline × Text)
unfolding strip_prefix
closed close node ([], rest) = none
closed close node (c ∷ run, rest) = elim (strip_prefix close rest) [
  | none ↦ none
  | some t ↦ some (node (c ∷ run), t)
]

abbrev pub run_after : (ℕ → Bool) → Text → (Text → Inline) → Option Text → Option (Inline × Text)
unfolding closed span
run_after test close node none = none
run_after test close node (some t) = closed close node (span test t)

-- `[^`]+`
unfoldable pub code_at : Matcher Inline
unfolding run_after strip_prefix
code_at s = run_after (λ c. not (c == 96)) (96 ∷ []) inline_code (strip_prefix (96 ∷ []) s)

-- \*\*[^*]+\*\*
unfoldable pub strong_at : Matcher Inline
unfolding run_after strip_prefix
strong_at s = run_after (λ c. not (c == 42)) (42 ∷ 42 ∷ []) strong (strip_prefix (42 ∷ 42 ∷ []) s)

-- [^\s)]
abbrev pub in_href : ℕ → Bool
in_href c = not (is_space c || c == 41)

-- (https?:\/\/[^\s)]+)\): the href from the start of its scheme, and the parenthesis after it.
unfoldable pub href_after : Text → Text → Text → Option (Inline × Text)
unfolding run_after strip_prefix
href_after scheme label t =
    run_after in_href (41 ∷ []) (λ run. link label (scheme ++ run)) (strip_prefix scheme t)

abbrev pub either : Option (Inline × Text) → Option (Inline × Text) → Option (Inline × Text)
either (some r) o = some r
either none o = o

abbrev pub href_at : Text → Option Text → Option (Inline × Text)
unfolding href_after text
href_at label none = none
href_at label (some t) =
    either (href_after (text "https://") label t) (href_after (text "http://") label t)

abbrev pub link_label : Text × Text → Option (Inline × Text)
unfolding href_at strip_prefix
link_label ([], rest) = none
link_label (c ∷ label, rest) = href_at (c ∷ label) (strip_prefix (93 ∷ 40 ∷ []) rest)

abbrev pub link_after : Option Text → Option (Inline × Text)
unfolding link_label span
link_after none = none
link_after (some t) = link_label (span (λ c. not (c == 93)) t)

-- \[[^\]]+\]\((https?:\/\/[^\s)]+)\)
unfoldable pub link_at : Matcher Inline
unfolding link_after strip_prefix
link_at s = link_after (strip_prefix (91 ∷ []) s)

-- The alternatives, in their order.
unfoldable pub mark_at : Matcher Inline
unfolding code_at strong_at link_at
mark_at s = either (code_at s) (either (strong_at s) (link_at s))

abbrev pub node_of : Piece Inline → Inline
node_of (plain u) = words u
node_of (hit n) = n

-- renderInline(text)
unfoldable pub render_inline : Text → List Inline
unfolding pieces mark_at
render_inline t = map node_of (pieces mark_at t)

-- The elements of a text block.
pub data Line : Type 0 where
  heading : (level : ℕ) → List Inline → Line
  bullet : List Inline → Line
  gap : Line
  paragraph : List Inline → Line

-- What `.` does not match.
abbrev pub is_terminator : ℕ → Bool
is_terminator c = c == 10 || c == 13 || c == 8232 || c == 8233

-- \s+(.*)$
unfoldable pub after_space : Text → Option Text
unfolding trim_start
after_space [] = none
after_space (c ∷ s) =
    if is_space c && not (any is_terminator (trim_start s)) then some (trim_start s) else none

-- /^(#{1,3})\s+(.*)$/
unfoldable pub heading_at : Text → Option (ℕ × Text)
unfolding span after_space
heading_at line =
    let (hashes, rest) = span (λ c. c == 35) line in
    if leb 1 (length hashes) && leb (length hashes) 3
    then elim (after_space rest) [ none ↦ none | some t ↦ some (length hashes, t) ]
    else none

abbrev bullet_after : Text → Option Text
unfolding after_space
bullet_after [] = none
bullet_after (c ∷ s) = if c == 45 || c == 42 then after_space s else none

-- /^\s*[-*]\s+(.*)$/
unfoldable pub bullet_at : Text → Option Text
unfolding bullet_after trim_start
bullet_at line = bullet_after (trim_start line)

abbrev no_bullet : Text → Option Text → Line
unfolding render_inline trim
no_bullet line (some t) = bullet (render_inline t)
no_bullet line none = if is_empty (trim line) then gap else paragraph (render_inline line)

abbrev no_heading : Text → Option (ℕ × Text) → Line
unfolding no_bullet bullet_at render_inline
no_heading line (some (n, t)) = heading n (render_inline t)
no_heading line none = no_bullet line (bullet_at line)

unfoldable pub line_of : Text → Line
unfolding no_heading heading_at
line_of line = no_heading line (heading_at line)

-- The class of a heading's size.
abbrev pub heading_size : ℕ → String
heading_size n =
    if n == 1
    then "text-base font-bold"
    else if n == 2
    then "text-[0.95rem] font-semibold"
    else "text-sm font-semibold"

-- TextBlock
unfoldable pub text_block : Text → List Line
unfolding line_of split_on
text_block content = map line_of (split_on 10 content)

-- CodeBlock: the label, and the copying of the content, with the timer that ends its notice.
pub record CodeView : Type 0 where
  pub copied : Bool
  pub clipboard : Text
  pub timers : ℕ

abbrev pub code_label : Text → Text
code_label [] = text "kod"
code_label (c ∷ s) = c ∷ s

-- copy(), where the browser allows the clipboard or not
unfoldable pub copy : Bool → Text → CodeView → CodeView
copy allowed content v =
    if allowed then record v { copied = true; clipboard = content; timers = v.timers + 1 } else v

unfoldable pub copy_timer : CodeView → CodeView
copy_timer v = record v { copied = false }

pub data Rendered : Type 0 where
  code_block : (label content : Text) → Rendered
  lines : List Line → Rendered

abbrev rendered : Block → Rendered
unfolding text_block text
rendered (code lang content) = code_block (code_label lang) content
rendered (prose content) = lines (text_block content)

-- MessageContent
unfoldable pub message_content : Text → List Rendered
unfolding split_blocks rendered
message_content t = map rendered (split_blocks t)
