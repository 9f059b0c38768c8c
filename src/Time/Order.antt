-- ===== src/Time/Order.antt =====
-- `<` and `>` of struct Time (tools/time_tool.h) against the number that the fields spell.
use lite_cpplib.Base.{
  ℕ, ◌+◌, ◌*◌, ◌^◌, ◌<◌, ◌≡◌, sym, ◌∙◌, inl, inr, true, false, not, arith, ltb, ◌==◌, if◌then◌else◌,
  ltb→lt, lt→ltb, Bool-cases, ==_refl,
}
use native.Mathlib.Nat.{mul-le-mul_right}
use lite_cpplib.Time.{Time, less, greater}

-- Every field is a uint16_t.
pub record IsTime (t : Time) : Type 0 where
  pub year : t.year < 2 ^ 16
  pub month : t.month < 2 ^ 16
  pub day : t.day < 2 ^ 16
  pub hour : t.hour < 2 ^ 16
  pub minute : t.minute < 2 ^ 16
  pub second : t.second < 2 ^ 16
  pub milli_second : t.milli_second < 2 ^ 16

-- The fields as the digits of one number, the year first.
abbrev pub seconds : Time → ℕ
seconds t = t.second * 2 ^ 16 + t.milli_second

abbrev pub minutes : Time → ℕ
minutes t = t.minute * 2 ^ 32 + seconds t

abbrev pub clock_of : Time → ℕ
clock_of t = t.hour * 2 ^ 48 + minutes t

abbrev pub days : Time → ℕ
days t = t.day * 2 ^ 64 + clock_of t

abbrev pub months : Time → ℕ
months t = t.month * 2 ^ 80 + days t

abbrev pub instant : Time → ℕ
instant t = t.year * 2 ^ 96 + months t

above : (a b m x : ℕ) → a < b → x < m → a * m + x < b * m
above a b m x h hx = omega (arith, mul-le-mul_right m h)

same : (m b x y : ℕ) → ltb x y ≡ ltb (b * m + x) (b * m + y)
same m b x y = ground arith

lex :
    (m a b x y : ℕ)
    → x < m
    → y < m
    → (if not (a == b) then ltb a b else ltb x y) ≡ ltb (a * m + x) (b * m + y)
lex m a b x y hx hy = elim (Bool-cases (ltb a b)) [
  | inl lt ↦ ground (arith, above a b m x (ltb→lt a b lt) hx)
  | inr ge ↦ elim (Bool-cases (ltb b a)) [
    | inl gt ↦ ground (arith, above b a m y (ltb→lt b a gt) hy)
    | inr le ↦ let e : a ≡ b = ground arith in rw e (rw (==_refl b) (same m b x y))
  ]
]

last_field : (a b : ℕ) → (if not (a == b) then ltb a b else false) ≡ ltb a b
last_field a b = ground arith

-- `<` compares two times, whose fields have 16 bits, as the numbers that the fields spell, the
-- year counting most.
pub less-eq-ltb : (l r : Time) → IsTime l → IsTime r → less l r ≡ ltb (instant l) (instant r)
unfolding less
less-eq-ltb l r hl hr = rw (
  last_field l.milli_second r.milli_second,
  lex (2 ^ 16) l.second r.second l.milli_second r.milli_second (omega arith) (omega arith),
  lex (2 ^ 32) l.minute r.minute (seconds l) (seconds r) (omega arith) (omega arith),
  lex (2 ^ 48) l.hour r.hour (minutes l) (minutes r) (omega arith) (omega arith),
  lex (2 ^ 64) l.day r.day (clock_of l) (clock_of r) (omega arith) (omega arith),
  lex (2 ^ 80) l.month r.month (days l) (days r) (omega arith) (omega arith),
  lex (2 ^ 96) l.year r.year (months l) (months r) (omega arith) (omega arith),
)

eq_comm : (a b : ℕ) → (a == b) ≡ (b == a)
eq_comm a b = ground arith

-- `>` is `<` with the sides exchanged.
pub greater-eq-less : (l r : Time) → greater l r ≡ less r l
unfolding greater less
greater-eq-less l r = rw (
  eq_comm l.year r.year,
  eq_comm l.month r.month,
  eq_comm l.day r.day,
  eq_comm l.hour r.hour,
  eq_comm l.minute r.minute,
  eq_comm l.second r.second,
  eq_comm l.milli_second r.milli_second,
)

-- Of two times neither of which is `<` the other all fields are equal.
pub less_total : (l r : Time) → less l r ≡ false → less r l ≡ false → l ≡ r
unfolding less
less_total l r p q = ground arith

-- `<` is transitive on times whose fields have 16 bits.
pub less_trans :
    (a b c : Time)
    → IsTime a
    → IsTime b
    → IsTime c
    → less a b ≡ true
    → less b c ≡ true
    → less a c ≡ true
less_trans a b c ha hb hc p q =
    less-eq-ltb a c ha hc
    ∙ lt→ltb (instant a) (instant c) (
        omega (
          arith,
          ltb→lt (instant a) (instant b) (sym (less-eq-ltb a b ha hb) ∙ p),
          ltb→lt (instant b) (instant c) (sym (less-eq-ltb b c hb hc) ∙ q),
        ))
