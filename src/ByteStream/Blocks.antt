-- ===== src/ByteStream/Blocks.antt =====
-- Blocks of memory as `memcpy` reads and writes them.
use lite_cpplib.Base.{
  ℕ, ◌+◌, ◌≤◌, ◌<◌, ◌≡◌, ap, ◌∙◌, List, ◌++◌, none, length, take, drop, arith, length-append,
  length-take, length-drop, length-replicate, take-append, ok, undefined,
}
use mathlib.Core.List.{append_assoc}
use lite_cpplib.ByteStream.{Cell, fresh, read_block, write_block}

-- The block `b` with `xs` written at `at`.
abbrev pub splice : List Cell → ℕ → List Cell → List Cell
splice b at xs = take at b ++ (xs ++ drop (at + length xs) b)

pub length-splice :
    (b : List Cell) (at : ℕ) (xs : List Cell)
    → at + length xs ≤ length b
    → length (splice b at xs) ≡ length b
length-splice b at xs h = omega (
  arith,
  length-append (take at b) (xs ++ drop (at + length xs) b),
  length-append xs (drop (at + length xs) b),
  length-take at b,
  length-drop (at + length xs) b,
)

pub take-splice :
    (b : List Cell) (at : ℕ) (xs : List Cell) (n : ℕ)
    → n ≡ at + length xs
    → at ≤ length b
    → take n (splice b at xs) ≡ take at b ++ xs
take-splice b at xs n e h =
    ap (take n) (append-assoc' b at xs)
    ∙ take-append n (take at b ++ xs) (drop (at + length xs) b)
        (omega (arith, length-append (take at b) xs, length-take at b))
  where
    append-assoc' :
        (b : List Cell) (at : ℕ) (xs : List Cell)
        → splice b at xs ≡ (take at b ++ xs) ++ drop (at + length xs) b
    append-assoc' b at xs = rw append_assoc

pub read_block_lem :
    (b : List Cell) (at n : ℕ) → at + n ≤ length b → read_block b at n ≡ ok (take n (drop at b))
unfolding read_block
read_block_lem b at n h = ground arith

pub read_block_outside :
    (b : List Cell) (at n : ℕ) → length b < at + n → read_block b at n ≡ undefined
unfolding read_block
read_block_outside b at n h = ground arith

pub write_block_lem :
    (b : List Cell) (at : ℕ) (xs : List Cell)
    → at + length xs ≤ length b
    → write_block b at xs ≡ ok (splice b at xs)
unfolding write_block
write_block_lem b at xs h = ground arith

pub write_block_outside :
    (b : List Cell) (at : ℕ) (xs : List Cell)
    → length b < at + length xs
    → write_block b at xs ≡ undefined
unfolding write_block
write_block_outside b at xs h = ground arith

pub length-fresh : (n : ℕ) → length (fresh n) ≡ n
unfolding fresh
length-fresh n = length-replicate n none
