-- ===== src/ImapServer/FetchBytes/Blocks.antt =====
-- `header_blocks` of crates/imap-server/src/imap.rs on header lines that are not folded.
use imapped_lightmode.Base.{
  ℕ, ◌≡◌, ◌≢◌, refl, sym, ap, ◌∙◌, true, false, not, List, [], ◌∷◌, ◌++◌, arith, ◌==◌, ◌||◌,
  is_empty, retain, retain-All, All, All-append, append_assoc, append-nil,
}
use imapped_lightmode.Text.{Text}
use imapped_lightmode.ImapServer.FetchBytes.{crlf, block_loop, push_nonempty, header_blocks}

-- The first character is no space and no tab, so that the line does not continue another; and there
-- is no carriage return inside.
abbrev pub IsLine : Text → Type 0
IsLine [] = ⊥
IsLine (c ∷ s) = ((c == 32 || c == 9) ≡ false) × All (λ d. d ≢ 13) (c ∷ s)

abbrev pub unlines : List Text → Text
unlines [] = []
unlines (l ∷ ls) = l ++ (crlf ++ unlines ls)

block_loop-char :
    (block : Text) (a b c : ℕ) (rest : Text)
    → a ≢ 13
    → block_loop block (a ∷ b ∷ c ∷ rest) ≡ block_loop (block ++ a ∷ []) (b ∷ c ∷ rest)
unfolding block_loop
block_loop-char block a b c rest h = ground arith

-- The loop runs to the end of the line.
block_loop-text :
    (block t rest : Text)
    → All (λ d. d ≢ 13) t
    → block_loop block (t ++ (crlf ++ rest)) ≡ block_loop (block ++ t) (crlf ++ rest)
block_loop-text block [] rest h = ap (λ b. block_loop b (crlf ++ rest)) (sym (append-nil block))
block_loop-text block (a ∷ []) rest h = block_loop-char block a 13 10 rest h.0
block_loop-text block (a ∷ b ∷ []) rest h =
    block_loop-char block a b 13 (10 ∷ rest) h.0
    ∙ block_loop-text (block ++ a ∷ []) (b ∷ []) rest h.1
    ∙ ap (λ r. block_loop r (crlf ++ rest)) (append_assoc block (a ∷ []) (b ∷ []))
block_loop-text block (a ∷ b ∷ c ∷ t) rest h =
    block_loop-char block a b c (t ++ (crlf ++ rest)) h.0
    ∙ block_loop-text (block ++ a ∷ []) (b ∷ c ∷ t) rest h.1
    ∙ ap (λ r. block_loop r (crlf ++ rest)) (append_assoc block (a ∷ []) (b ∷ c ∷ t))

block_loop-end : (c : ℕ) (s : Text) → block_loop (c ∷ s) crlf ≡ (c ∷ s) ∷ (c ∷ s ++ crlf) ∷ []
unfolding block_loop push_nonempty
block_loop-end c s = refl

block_loop-next :
    (block : Text) (c : ℕ) (rest : Text)
    → (c == 32 || c == 9) ≡ false
    → block_loop block (crlf ++ c ∷ rest) ≡ block ∷ block_loop [] (c ∷ rest)
unfolding block_loop
block_loop-next block c rest h = ground arith

-- Each line, and the last one a second time.
twice_last : List Text → List Text
twice_last [] = []
twice_last (l ∷ []) = l ∷ (l ++ crlf) ∷ []
twice_last (l ∷ m ∷ ls) = l ∷ twice_last (m ∷ ls)

block_loop-unlines :
    (l : Text) (ls : List Text)
    → IsLine l
    → All IsLine ls
    → block_loop [] (unlines (l ∷ ls)) ≡ twice_last (l ∷ ls)
unfolding twice_last
block_loop-unlines [] ls h hs = absurd h
block_loop-unlines (c ∷ s) [] h hs = block_loop-text [] (c ∷ s) [] h.1 ∙ block_loop-end c s
block_loop-unlines (c ∷ s) ([] ∷ ls) h hs = absurd hs.0
block_loop-unlines (c ∷ s) ((d ∷ t) ∷ ls) h hs =
    block_loop-text [] (c ∷ s) (unlines ((d ∷ t) ∷ ls)) h.1
    ∙ block_loop-next (c ∷ s) d (t ++ (crlf ++ unlines ls)) hs.0.0
    ∙ ap (λ r. (c ∷ s) ∷ r) (block_loop-unlines (d ∷ t) ls hs.0 hs.1)

twice_last-nonempty :
    (ls : List Text) → All IsLine ls → All (λ block. not (is_empty block) ≡ true) (twice_last ls)
unfolding twice_last
twice_last-nonempty [] hs = hs
twice_last-nonempty ([] ∷ ls) hs = absurd hs.0
twice_last-nonempty ((c ∷ s) ∷ []) hs = (refl, (refl, hs.1))
twice_last-nonempty ((c ∷ s) ∷ m ∷ ls) hs = (refl, twice_last-nonempty (m ∷ ls) hs.1)

twice_last-append :
    (ls : List Text) (l : Text) → twice_last (ls ++ l ∷ []) ≡ ls ++ l ∷ (l ++ crlf) ∷ []
unfolding twice_last
twice_last-append [] l = refl
twice_last-append (m ∷ []) l = refl
twice_last-append (m ∷ n ∷ ls) l = ap (λ r. m ∷ r) (twice_last-append (n ∷ ls) l)

header_blocks-twice_last :
    (ls : List Text) → All IsLine ls → header_blocks (unlines ls) ≡ twice_last ls
unfolding header_blocks block_loop push_nonempty twice_last
header_blocks-twice_last [] hs = refl
header_blocks-twice_last (l ∷ ls) hs =
    ap (retain (λ block. not (is_empty block))) (block_loop-unlines l ls hs.0 hs.1)
    ∙ retain-All (λ block. not (is_empty block)) (twice_last (l ∷ ls))
        (twice_last-nonempty (l ∷ ls) hs)

-- Of header lines that each end in a line end and none of which is folded, every line is a block
-- of its own, in order; and behind them stands the last line once more, with its line end.
pub header_blocks-unlines :
    (ls : List Text) (l : Text)
    → All IsLine ls
    → IsLine l
    → header_blocks (unlines (ls ++ l ∷ [])) ≡ ls ++ l ∷ (l ++ crlf) ∷ []
header_blocks-unlines ls l hs h =
    header_blocks-twice_last (ls ++ l ∷ []) (All-append IsLine ls (l ∷ []) hs (h, tt))
    ∙ twice_last-append ls l
