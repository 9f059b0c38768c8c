-- ===== src/Time/Text.antt =====
-- The first text form of a time and `Set`, which reads it back (tools/time_tool.h).
use lite_cpplib.Base.{
  ℕ, zero, suc, ◌+◌, ◌-◌, ◌*◌, ◌/◌, ◌%◌, ◌^◌, ◌≤◌, ◌<◌, ◌≡◌, refl, sym, ap, ◌∙◌, true, false, List,
  [], ◌∷◌, ◌++◌, length, replicate, drop, arith, ltb, Bool-cases, inl, inr, length-append, u16, ok,
  some, strlen, c_str, ltb→lt, lt→ltb, ge→ltb,
}
use mathlib.Core.List.{append_assoc}
use native.Mathlib.Nat.{pow-suc}
use lite_cpplib.Time.{
  Time, is_digit, digits_value, atoi_u16, split_fields, parsed, set_time, decimal_fuel, decimal,
  padded, into_32, text1, get_data_time_string1, get_data_time_string3,
}

-- The last `w` decimal digits.
abbrev pub digits : ℕ → ℕ → List ℕ
digits zero n = []
digits (suc w) n = digits w (n / 10) ++ (n % 10 + b'0') ∷ []

length-digits : (w n : ℕ) → length (digits w n) ≡ w
length-digits zero n = refl
length-digits (suc w) n =
    omega
      (arith, length-append (digits w (n / 10)) ((n % 10 + b'0') ∷ []), length-digits w (n / 10))

abbrev zeros : ℕ → List ℕ
zeros k = replicate k b'0'

replicate-snoc : (k : ℕ) → zeros (suc k) ≡ zeros k ++ b'0' ∷ []
replicate-snoc zero = refl
replicate-snoc (suc k) = ap (λ (l : List ℕ). b'0' ∷ l) (replicate-snoc k)

digits-zero : (w : ℕ) → digits w 0 ≡ zeros w
digits-zero zero = refl
digits-zero (suc w) = ap (λ (l : List ℕ). l ++ b'0' ∷ []) (digits-zero w) ∙ sym (replicate-snoc w)

-- `d` and the zeros in front of it make the text `all` of `w` characters.
abbrev Pads : ℕ → List ℕ → List ℕ → Type 0
Pads w d all = (length d ≤ w) × (zeros (w - length d) ++ d ≡ all)

Pads-snoc : (w x : ℕ) (d all : List ℕ) → Pads w d all → Pads (suc w) (d ++ x ∷ []) (all ++ x ∷ [])
Pads-snoc w x d all h =
    let n : length (d ++ x ∷ []) ≡ length d + 1 = length-append d (x ∷ []) in
    let k : suc w - length (d ++ x ∷ []) ≡ w - length d = omega (arith, n, h.0) in
    (
      omega (arith, n, h.0),
      ap (λ (j : ℕ). zeros j ++ (d ++ x ∷ [])) k
          ∙ sym (append_assoc (zeros (w - length d)) d (x ∷ []))
          ∙ ap (λ (l : List ℕ). l ++ x ∷ []) h.1,
    )

module _ (f n : ℕ) where
  decimal_small : n < 10 → decimal_fuel (suc f) n ≡ (n + b'0') ∷ []
  unfolding decimal_fuel
  decimal_small h = rw (lt→ltb n 10 h)

  decimal_large : 10 ≤ n → decimal_fuel (suc f) n ≡ decimal_fuel f (n / 10) ++ (n % 10 + b'0') ∷ []
  unfolding decimal_fuel
  decimal_large h = rw (ge→ltb n 10 h)

-- The decimal text of a number, with zeros in front of it up to `w` digits.
decimal_fuel-Pads :
    (w f n : ℕ) → n < f → n < 10 ^ suc w → Pads (suc w) (decimal_fuel f n) (digits (suc w) n)
decimal_fuel-Pads w zero n h lt = absurd (omega arith)
decimal_fuel-Pads zero (suc f) n h lt =
    rw (decimal_small f n (omega arith))
      (omega arith, ap (λ (u : ℕ). (u + b'0') ∷ []) (omega arith))
decimal_fuel-Pads (suc w) (suc f) n h lt = elim (Bool-cases (ltb n 10)) [
  | inl small ↦
      let z : n / 10 ≡ 0 = ground arith in
      let m : n % 10 ≡ n = ground arith in
      let one_less : suc (suc w) - 1 ≡ suc w = omega arith in
      rw (decimal_small f n (ltb→lt n 10 small)) (
        omega arith,
        ap (λ (j : ℕ). zeros j ++ (n + b'0') ∷ []) one_less
            ∙ rw (z, m) (ap (λ (l : List ℕ). l ++ (n + b'0') ∷ []) (sym (digits-zero (suc w)))),
      )
  | inr large ↦
      let ten : 10 ≤ n = ground arith in
      rw (decimal_large f n ten) (
        Pads-snoc (suc w) (n % 10 + b'0') (decimal_fuel f (n / 10)) (digits (suc w) (n / 10))
          (decimal_fuel-Pads w f (n / 10) (omega arith) (omega (arith, pow-suc 10 (suc w)))))
]

-- A number of at most `w` digits is printed with exactly `w`.
pub padded_lem : (w n : ℕ) → n < 10 ^ suc w → padded (suc w) n ≡ digits (suc w) n
unfolding padded decimal
padded_lem w n h = (decimal_fuel-Pads w (suc n) n (omega arith) h).1

next_digit :
    (q d n : ℕ) (tail : List ℕ)
    → d < 10
    → q * 10 + d ≡ n
    → digits_value q ((d + b'0') ∷ tail) ≡ digits_value n tail
unfolding digits_value
next_digit q d n tail h e =
    let digit : is_digit (d + b'0') ≡ true = ground arith in
    rw digit (ap (λ (u : ℕ). digits_value u tail) (omega arith))

digits_value-digits :
    (w n : ℕ) (tail : List ℕ)
    → n < 10 ^ w
    → digits_value 0 (digits w n ++ tail) ≡ digits_value n tail
digits_value-digits zero n tail h = let z : n ≡ 0 = omega arith in rw z
digits_value-digits (suc w) n tail h =
    ap (digits_value 0) (append_assoc (digits w (n / 10)) ((n % 10 + b'0') ∷ []) tail)
    ∙ digits_value-digits w (n / 10) ((n % 10 + b'0') ∷ tail) (omega (arith, pow-suc 10 w))
    ∙ next_digit (n / 10) (n % 10) n tail (omega arith) (omega arith)

digits-head :
    (w n : ℕ) → (c : ℕ) × (cs : List ℕ) × (digits (suc w) n ≡ c ∷ cs) × (b'0' ≤ c) × (c ≤ b'9')
digits-head zero n = (n % 10 + b'0', [], refl, omega arith, omega arith)
digits-head (suc w) n =
    let (c, cs, e, lo, hi) = digits-head w (n / 10) in
    (c, cs ++ (n % 10 + b'0') ∷ [], ap (λ (l : List ℕ). l ++ (n % 10 + b'0') ∷ []) e, lo, hi)

atoi_digit :
    (c : ℕ) (cs : List ℕ) → b'0' ≤ c → c ≤ b'9' → atoi_u16 (c ∷ cs) ≡ u16 (digits_value 0 (c ∷ cs))
unfolding atoi_u16
atoi_digit c cs lo hi = ground arith

-- `atoi` of `w` digits, up to a character that is none.
atoi-digits :
    (w n stop : ℕ) (rest : List ℕ)
    → n < 10 ^ suc w
    → n < 2 ^ 16
    → is_digit stop ≡ false
    → atoi_u16 (digits (suc w) n ++ (stop ∷ rest)) ≡ n
atoi-digits w n stop rest h fits no_digit =
    let (c, cs, e, lo, hi) = digits-head w n in
    let value : digits_value 0 (digits (suc w) n ++ (stop ∷ rest)) ≡ n =
      digits_value-digits (suc w) n (stop ∷ rest) h ∙ stops in
    rw e (atoi_digit c (cs ++ (stop ∷ rest)) lo hi)
    ∙ ap u16 (ap (λ (l : List ℕ). digits_value 0 (l ++ (stop ∷ rest))) (sym e) ∙ value)
    ∙ omega arith
  where
    stops : digits_value n (stop ∷ rest) ≡ n
    stops = unfold digits_value in rw no_digit

abbrev AllPositive : List ℕ → Type 0
AllPositive [] = Unit {0}
AllPositive (c ∷ cs) = (0 < c) × AllPositive cs

strlen_printable : (str : List ℕ) → AllPositive str → strlen (c_str str) ≡ some (length str)
unfolding strlen
strlen_printable [] h = refl
strlen_printable (c ∷ cs) h = ground (arith, strlen_printable cs h.1)

module _ (t : Time) (year : t.year < 10 ^ 4) (month : t.month < 10 ^ 2) (day : t.day < 10 ^ 2)
    (hour : t.hour < 10 ^ 2) (minute : t.minute < 10 ^ 2) (second : t.second < 10 ^ 2) where
  -- The six fields with a character after each but the last.
  abbrev laid_out : ℕ → ℕ → ℕ → ℕ → ℕ → List ℕ → List ℕ
  laid_out c1 c2 c3 c4 c5 end =
      digits 4 t.year
      ++ (c1
          ∷ (digits 2 t.month
              ++ (c2
                  ∷ (digits 2 t.day
                      ++ (c3
                          ∷ (digits 2 t.hour
                              ++ (c4
                                  ∷ (digits 2 t.minute ++ (c5 ∷ (digits 2 t.second ++ end))))))))))

  text1_eq : text1 t ≡ laid_out b'-' b'-' 32 b':' b':' []
  unfolding text1
  text1_eq = rw (
    padded_lem 3 t.year year,
    padded_lem 1 t.month month,
    padded_lem 1 t.day day,
    padded_lem 1 t.hour hour,
    padded_lem 1 t.minute minute,
    padded_lem 1 t.second second,
  )

  strlen-text1 : strlen (c_str (text1 t)) ≡ some 19
  strlen-text1 = rw text1_eq (strlen_printable (laid_out b'-' b'-' 32 b':' b':' []) (omega arith))

  split_fields-text1 : split_fields (c_str (text1 t)) ≡ laid_out 0 0 32 0 0 (0 ∷ [])
  unfolding split_fields
  split_fields-text1 = rw text1_eq refl

  parsed_lem : parsed (laid_out 0 0 32 0 0 (0 ∷ [])) ≡ record t { milli_second = 0 }
  unfolding parsed
  parsed_lem = λ i. record {
    year = atoi-digits 3 t.year 0 (drop 5 (laid_out 0 0 32 0 0 (0 ∷ []))) year (omega arith) refl i;
    month =
        atoi-digits 1 t.month 0 (drop 8 (laid_out 0 0 32 0 0 (0 ∷ []))) month (omega arith) refl i;
    day = atoi-digits 1 t.day 32 (drop 11 (laid_out 0 0 32 0 0 (0 ∷ []))) day (omega arith) refl i;
    hour =
        atoi-digits 1 t.hour 0 (drop 14 (laid_out 0 0 32 0 0 (0 ∷ []))) hour (omega arith) refl i;
    minute =
        atoi-digits 1 t.minute 0 (drop 17 (laid_out 0 0 32 0 0 (0 ∷ []))) minute (omega arith) refl
          i;
    second = atoi-digits 1 t.second 0 [] second (omega arith) refl i;
    milli_second = 0;
  }

  -- Set reads back what GetDataTimeString1 prints of a time whose year has at most four digits
  -- and whose other fields have at most two, but for the milliseconds, which become 0.
  pub set_time-get_data_time_string1 :
      (before : Time)
      → (text : List ℕ) × (get_data_time_string1 t ≡ ok text)
        × (set_time before (some (c_str text)) ≡ ok (record t { milli_second = 0 }))
  unfolding get_data_time_string1 into_32 set_time
  set_time-get_data_time_string1 before =
      (text1 t, rw text1_eq, rw (strlen-text1, split_fields-text1, parsed_lem))

  -- GetDataTimeString3 prints 23 characters, with milliseconds of at most three digits.
  pub get_data_time_string3_lem :
      t.milli_second < 10 ^ 3
      → (text : List ℕ) × (get_data_time_string3 t ≡ ok text) × (length text ≡ 23)
  unfolding get_data_time_string3 into_32
  get_data_time_string3_lem milli = (
    text1 t ++ (b'.' ∷ padded 3 t.milli_second),
    rw (text1_eq, padded_lem 2 t.milli_second milli) refl,
    rw (text1_eq, padded_lem 2 t.milli_second milli) refl,
  )
