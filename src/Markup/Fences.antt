-- ===== src/Markup/Fences.antt =====
-- The fenced blocks of a message: where they are found, and that the loop over them ends.
use rafineai_self_hosted.Prelude.{
  ℕ, suc, ◌<◌, Text, text, trim, strip_prefix, strip_prefix-eq_some, strip_prefix-append, true,
  false, not, ◌||◌, Option, none, some, List, [], ◌∷◌, ◌++◌, map, any, IsFree, length,
  length-append, ◌==◌, ◌≡◌, refl, ap, ◌∙◌, append_assoc, append-nil, arith, if◌then◌else◌,
}
use mathlib.Core.Path.{subst}
use rafineai_self_hosted.Scan.{
  hit, span, cut_at, pieces, pieces_in, find_first, first_or, shift, round,
}
use rafineai_self_hosted.Scan.First.{
  cut_at-eq_some, cut_at-free, span-stop, find_first-free, prepend,
}
use rafineai_self_hosted.Scan.Fuel.{Consumes, LeavesUnder, pieces_in-fuel, pieces_lem}
use rafineai_self_hosted.Markup.Reading.{span-append, mark_at-Consumes}
use rafineai_self_hosted.Markup.{
  Fence, fence_of, fence_body, fence_info, fence_at, Block, code, prose, drop_newline, block_of,
  split_blocks, mark_at, node_of, render_inline,
}

fence_of-LeavesUnder :
    (info t : Text) (n : ℕ) (o : Option (Text × Text))
    → cut_at (text "```") t ≡ o
    → length t < n
    → LeavesUnder n (fence_of info o)
unfolding text
fence_of-LeavesUnder info t n none e h = tt
fence_of-LeavesUnder info t n (some (u, r)) e h = omega (
  arith,
  h,
  ap length (cut_at-eq_some _ t u r e),
  length-append {0} u (text "```" ++ r),
  length-append {0} (text "```") r,
)

fence_body-LeavesUnder :
    (info rest : Text) (n : ℕ) (o : Option Text)
    → strip_prefix (10 ∷ []) rest ≡ o
    → length rest < n
    → LeavesUnder n (fence_body info o)
unfolding fence_body
fence_body-LeavesUnder info rest n none e h = tt
fence_body-LeavesUnder info rest n (some t) e h =
    fence_of-LeavesUnder info t n _ refl
      (omega (arith, h, ap length (strip_prefix-eq_some (10 ∷ []) rest e)))

fence_info-LeavesUnder :
    (s : Text) (o : Option Text)
    → strip_prefix (text "```") s ≡ o
    → LeavesUnder (length s) (fence_info o)
unfolding fence_info text
fence_info-LeavesUnder s none e = tt
fence_info-LeavesUnder s (some t) e =
    let r = span (λ c. not (c == 10 || c == 96)) t in
    fence_body-LeavesUnder r.0 r.1 (length s) _ refl (
      omega (
        arith,
        ap length (strip_prefix-eq_some (text "```") s e),
        ap length (span-append (λ c. not (c == 10 || c == 96)) t),
        length-append {0} r.0 r.1,
      ))

fence_at-LeavesUnder : (s : Text) → LeavesUnder (length s) (fence_at s)
unfolding fence_at
fence_at-LeavesUnder s = fence_info-LeavesUnder s _ refl

pub fence_at-Consumes : Consumes fence_at
fence_at-Consumes s f t e = subst (LeavesUnder (length s)) e (fence_at-LeavesUnder s)

-- Both loops end by themselves: with more fuel than the text has code units, however much, the loop of
-- splitBlocks gives the blocks of the text and the loop of renderInline its nodes.
pub split_blocks-fuel :
    (fuel : ℕ) (s : Text)
    → length s < fuel
    → (map block_of (pieces_in fuel fence_at s) ≡ split_blocks s)
      × (map node_of (pieces_in fuel mark_at s) ≡ render_inline s)
unfolding split_blocks render_inline pieces
split_blocks-fuel fuel s h = (
  ap (map block_of)
      (pieces_in-fuel fence_at fence_at-Consumes fuel (suc (length s)) s h (omega arith)),
  ap (map node_of)
      (pieces_in-fuel mark_at mark_at-Consumes fuel (suc (length s)) s h (omega arith)),
)

-- A fence as a model or a person writes it.
abbrev pub fenced : Text → Text → Text
fenced lang content = text "```" ++ (lang ++ (10 ∷ (content ++ (10 ∷ text "```"))))

IsFree-snoc : (s : Text) → IsFree 96 s → IsFree 96 (s ++ 10 ∷ [])
IsFree-snoc [] h = refl
IsFree-snoc (c ∷ s) h = ground (arith, IsFree-snoc s)

drop_newline-append : (s : Text) → drop_newline (s ++ 10 ∷ []) ≡ s
unfolding drop_newline
drop_newline-append [] = refl
drop_newline-append (c ∷ []) = refl
drop_newline-append (c ∷ d ∷ s) = ap (λ (l : Text). c ∷ l) (drop_newline-append (d ∷ s))

is_info :
    (lang : Text)
    → IsFree 10 lang
    → IsFree 96 lang
    → any (λ (c : ℕ). if not (c == 10 || c == 96) then false else true) lang ≡ false
is_info [] h k = refl
is_info (c ∷ s) h k = ground (arith, is_info s)

fence_info-fenced :
    (lang content after : Text)
    → IsFree 10 lang
    → IsFree 96 lang
    → IsFree 96 content
    → fence_info (some (lang ++ (10 ∷ ((content ++ 10 ∷ []) ++ (text "```" ++ after)))))
      ≡ some (record { info = lang; body = content ++ 10 ∷ [] }, after)
unfolding fence_info text
fence_info-fenced lang content after h k l =
    let rest = (content ++ 10 ∷ []) ++ (text "```" ++ after) in
    rw
      (
        span-stop (λ c. not (c == 10 || c == 96)) lang 10 rest (is_info lang h k) refl,
        cut_at-free 96 (96 ∷ 96 ∷ []) (content ++ 10 ∷ []) after (IsFree-snoc content l),
      )
      refl

no_fence : (c : ℕ) (s : Text) → (c == 96) ≡ false → fence_at (c ∷ s) ≡ none
unfolding fence_at text
no_fence c s h = ground arith

split_blocks-lem :
    (s : Text) → split_blocks s ≡ map block_of (round s (pieces fence_at) (find_first fence_at s))
unfolding split_blocks
split_blocks-lem s = ap (map block_of) (pieces_lem fence_at fence_at-Consumes s)

abbrev pub prose_if : Text → List Block → List Block
prose_if [] bs = bs
prose_if (c ∷ s) bs = prose (c ∷ s) ∷ bs

round-prepend :
    (s before rest : Text) (f : Fence)
    → map block_of (round s (pieces fence_at) (some (before ++ [], f, rest)))
      ≡ prose_if before (block_of (hit f) ∷ split_blocks rest)
unfolding split_blocks
round-prepend s [] rest f = refl
round-prepend s (c ∷ before) rest f = rw (append-nil before) refl

fence_at-fenced :
    (lang content after : Text)
    → IsFree 10 lang
    → IsFree 96 lang
    → IsFree 96 content
    → fence_at (text "```" ++ (lang ++ (10 ∷ ((content ++ 10 ∷ []) ++ (text "```" ++ after)))))
      ≡ some (record { info = lang; body = content ++ 10 ∷ [] }, after)
unfolding fence_at
fence_at-fenced lang content after h k l =
    ap fence_info (
      strip_prefix-append (text "```")
        (lang ++ (10 ∷ ((content ++ 10 ∷ []) ++ (text "```" ++ after)))))
    ∙ fence_info-fenced lang content after h k l

find_fence :
    (lang content after : Text)
    → IsFree 10 lang
    → IsFree 96 lang
    → IsFree 96 content
    → find_first fence_at (fenced lang content ++ after)
      ≡ some ([], record { info = lang; body = content ++ 10 ∷ [] }, after)
unfolding find_first text
find_fence lang content after h k l =
    ap (find_first fence_at) (regroup lang content after)
    ∙ ap
        (λ o. first_or o (
          shift 96 (
            find_first fence_at
              (96 ∷ 96 ∷ lang ++ (10 ∷ ((content ++ 10 ∷ []) ++ (text "```" ++ after)))))))
        (fence_at-fenced lang content after h k l)
  where
    regroup :
        (lang content after : Text)
        → fenced lang content ++ after
          ≡ text "```" ++ (lang ++ (10 ∷ ((content ++ 10 ∷ []) ++ (text "```" ++ after))))
    regroup lang content after = simp append_assoc

-- A code block of a reply comes out as it was written: where the text before it and the code have no
-- backtick, and the language no backtick and no newline, the fenced code is shown as one code block
-- with that language, trimmed, and exactly that code, after the text before it, and the text after the
-- fence is split on its own.
pub split_blocks-fenced :
    (before lang content after : Text)
    → IsFree 96 before
    → IsFree 10 lang
    → IsFree 96 lang
    → IsFree 96 content
    → split_blocks (before ++ (fenced lang content ++ after))
      ≡ prose_if before (code (trim lang) content ∷ split_blocks after)
unfolding block_of
split_blocks-fenced before lang content after g h k l =
    let s = before ++ (fenced lang content ++ after) in
    split_blocks-lem s
    ∙ ap (λ o. map block_of (round s (pieces fence_at) o))
        (find_first-free fence_at 96 no_fence before (fenced lang content ++ after) g
          ∙ ap (prepend before) (find_fence lang content after h k l))
    ∙ round-prepend s before after (record { info = lang; body = content ++ 10 ∷ [] })
    ∙ ap (λ (c : Text). prose_if before (code (trim lang) c ∷ split_blocks after))
        (drop_newline-append content)
