-- ===== src/Logger/Lines.antt =====
-- The lines that Logger::_Write(text) prints (tools/logger.h): the screen and the file.
use lite_cpplib.Base.{
  ℕ, zero, suc, ◌≤◌, ◌<◌, ◌≡◌, refl, ap, ◌∙◌, true, false, none, some, List, [], ◌∷◌, ◌++◌, length,
  length-append, arith, ◌==◌,
}
use mathlib.Core.List.{append_assoc}
use lite_cpplib.Logger.{
  Logger, break_line, newline_if, indent, print_loop, file_loop, write_screen, write_lines,
}

-- The text has no newline.
abbrev pub IsOneLine : List ℕ → Type 0
IsOneLine [] = Unit {0}
IsOneLine (c ∷ cs) = ((c == 10) ≡ false) × IsOneLine cs

break_line-none : (text : List ℕ) → IsOneLine text → break_line text ≡ none
unfolding break_line
break_line-none [] h = refl
break_line-none (c ∷ cs) (ne, h) = rw (ne, break_line-none cs h) refl

break_line-some :
    (line after : List ℕ) → IsOneLine line → break_line (line ++ (10 ∷ after)) ≡ some (line, after)
unfolding break_line
break_line-some [] after h = refl
break_line-some (c ∷ cs) after (ne, h) = rw (ne, break_line-some cs after h) refl

-- A text of lines that end in a newline, and one more behind them.
abbrev pub joined : List (List ℕ) → List ℕ → List ℕ
joined [] last = last
joined (line ∷ lines) last = line ++ (10 ∷ joined lines last)

-- The lines under one another, from the second on behind 34 blanks.
abbrev pub printed : List (List ℕ) → List ℕ → List ℕ
printed [] last = []
printed (line ∷ lines) last = line ++ (10 ∷ (indent (joined lines last) ++ printed lines last))

abbrev pub AllOneLine : List (List ℕ) → Type 0
AllOneLine [] = Unit {0}
AllOneLine (l ∷ ls) = IsOneLine l × AllOneLine ls

length_behind : (line rest : List ℕ) → length rest < length (line ++ (10 ∷ rest))
length_behind line rest = omega (arith, length-append line (10 ∷ rest))

print_loop_lem :
    (fuel : ℕ) (lines : List (List ℕ)) (last : List ℕ)
    → length (joined lines last) ≤ fuel
    → AllOneLine lines
    → IsOneLine last
    → print_loop fuel (joined lines last) ≡ (printed lines last, last)
unfolding print_loop
print_loop_lem zero [] last h all one = refl
print_loop_lem (suc fuel) [] last h all one = rw (print_loop, break_line-none last one) refl
print_loop_lem zero (line ∷ lines) last h all one =
    absurd (omega (arith, h, length_behind line (joined lines last)))
print_loop_lem (suc fuel) (line ∷ lines) last h (first, all) one =
    let rest =
      print_loop_lem fuel lines last (omega (arith, h, length_behind line (joined lines last))) all
        one in
    rw (print_loop, break_line-some line (joined lines last) first, rest) refl

file_loop_lem :
    (fuel : ℕ) (lines : List (List ℕ)) (last : List ℕ)
    → length (joined lines last) ≤ fuel
    → AllOneLine lines
    → IsOneLine last
    → file_loop fuel (joined lines last) ≡ (printed lines last, last)
unfolding file_loop
file_loop_lem zero [] last h all one = refl
file_loop_lem (suc fuel) [] last h all one = rw (file_loop, break_line-none last one) refl
file_loop_lem zero (line ∷ lines) last h all one =
    absurd (omega (arith, h, length_behind line (joined lines last)))
file_loop_lem (suc fuel) (line ∷ lines) last h (first, all) one =
    let rest =
      file_loop_lem fuel lines last (omega (arith, h, length_behind line (joined lines last))) all
        one in
    rw (file_loop, break_line-some line (joined lines last) first, rest) refl

newline_behind : (line : List ℕ) → newline_if (line ++ (10 ∷ [])) [] ≡ 10 ∷ []
newline_behind [] = refl
newline_behind (c ∷ cs) = refl

-- What the screen gets of a text, and that its pointer then stands behind the last newline.
pub write_screen_lem :
    (l : Logger) (lines : List (List ℕ)) (last : List ℕ)
    → l.output_to_screen ≡ true
    → AllOneLine lines
    → IsOneLine last
    → write_screen l (joined lines last) ≡ (printed lines last ++ newline_if last last, last)
unfolding write_screen
write_screen_lem l lines last on all one =
    rw (on, print_loop_lem (length (joined lines last)) lines last (omega arith) all one) refl

-- With output to the screen on, a text of lines that end in a newline and a last one without: the
-- screen and the file both get each line under the one before, from the second on behind 34
-- blanks, each with its newline, and the last one likewise unless it is empty.
pub lines_printed :
    (l : Logger) (lines : List (List ℕ)) (last : List ℕ)
    → l.output_to_screen ≡ true
    → AllOneLine lines
    → IsOneLine last
    → ((write_screen l (joined lines last)).0 ≡ printed lines last ++ newline_if last last)
      × (write_lines (write_screen l (joined lines last)).1 (joined lines last)
          ≡ printed lines last ++ newline_if last last)
unfolding write_lines
lines_printed l lines last on all one =
    let screen = write_screen_lem l lines last on all one in
    (
      ap (λ (r : List ℕ × List ℕ). r.0) screen,
      rw (screen, file_loop_lem (length (joined lines last)) lines last (omega arith) all one) refl,
    )

-- With output to the screen off, a line that ends in a newline is written to the file with an
-- empty line behind it.
pub file_alone_blank_line :
    (l : Logger) (line : List ℕ)
    → l.output_to_screen ≡ false
    → IsOneLine line
    → write_lines (write_screen l (line ++ (10 ∷ []))).1 (line ++ (10 ∷ []))
      ≡ line ++ (10 ∷ 10 ∷ [])
unfolding write_lines write_screen
file_alone_blank_line l line off one =
    rw (off, file_loop_lem (length (line ++ (10 ∷ []))) (line ∷ []) [] (omega arith) (one, tt) tt)
      (ap (λ (l : List ℕ). (line ++ (10 ∷ [])) ++ l) (newline_behind line)
        ∙ append_assoc line (10 ∷ []) (10 ∷ []))
