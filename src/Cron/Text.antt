-- ===== src/Cron/Text.antt =====
-- The text functions of include/dmcroncpp.h: `namespace utils`, `to_cron_int` and `replace_ordinals`,
-- with what they use of the standard library.
use dmtimer.Base.{
  ℕ, zero, suc, ◌+◌, ◌-◌, ◌*◌, ◌/◌, ◌%◌, ◌^◌, Bool, true, false, ◌&&◌, ◌||◌, Option, none, some,
  List, [], ◌∷◌, ◌++◌, map, ltb, leb, ◌==◌, if◌then◌else◌, Outcome, done, stopped, thrown,
}

abbrev pub Bytes : Type 0
Bytes = List ℕ

-- `toupper` in the C locale
unfoldable pub upper : ℕ → ℕ
upper c = if leb b'a' c && leb c b'z' then c - 32 else c

-- `to_upper`
unfoldable pub to_upper : Bytes → Bytes
to_upper = map upper

-- What the stream reads of `text.data()`: the bytes before the first 0.
unfoldable pub c_str : Bytes → Bytes
c_str [] = []
c_str (c ∷ s) = let rest = c_str s in if c == 0 then [] else c ∷ rest

-- a byte in front of the first token
unfoldable pub cons_first : ℕ → List Bytes → List Bytes
cons_first c [] = (c ∷ []) ∷ []
cons_first c (t ∷ ts) = (c ∷ t) ∷ ts

-- The loop of `getline`: a delimiter ends a token, and nothing behind the last one is no token.
unfoldable pub tokens : ℕ → Bytes → List Bytes
tokens d [] = []
tokens d (c ∷ s) = let rest = tokens d s in if c == d then [] ∷ rest else cons_first c rest

-- `split`
unfoldable pub split : Bytes → ℕ → List Bytes
split text delimiter = tokens delimiter (c_str text)

-- `contains`
unfoldable pub contains : Bytes → ℕ → Bool
contains [] ch = false
contains (c ∷ s) ch = (c == ch) || contains s ch

unfoldable pub is_space : ℕ → Bool
is_space c = (c == 32) || (leb 9 c && leb c 13)

unfoldable pub is_digit : ℕ → Bool
is_digit c = leb b'0' c && leb c b'9'

unfoldable pub skip_space : Bytes → Bytes
skip_space [] = []
skip_space (c ∷ s) = let rest = skip_space s in if is_space c then rest else c ∷ s

-- the value of the digits in front, behind `n`
unfoldable pub digits : ℕ → Bytes → ℕ
digits n [] = n
digits n (c ∷ s) = let rest = digits (n * 10 + (c - b'0')) s in if is_digit c then rest else n

-- the number behind the sign: `none` without a digit
unfoldable pub magnitude : Bytes → Option ℕ
magnitude [] = none
magnitude (c ∷ s) = if is_digit c then some (digits 0 (c ∷ s)) else none

-- `std::stoul`: white space and a sign are read, what follows the digits is not. `none` is an exception:
-- there is no digit, or the number does not fit.
unfoldable pub stoul : Bytes → Option ℕ
stoul text = in_range (signed (skip_space (c_str text)))
  where
    signed : Bytes → Bool × Option ℕ
    signed [] = (false, none)
    signed (c ∷ s) =
        if c == b'-'
        then (true, magnitude s)
        else if c == b'+'
        then (false, magnitude s)
        else (false, magnitude (c ∷ s))

    in_range : Bool × Option ℕ → Option ℕ
    in_range (minus, none) = none
    in_range (minus, some n) =
        if leb (2 ^ 64) n then none else some (if minus then (2 ^ 64 - n) % 2 ^ 64 else n)

-- `to_cron_int`: the value as a `uint8_t`
unfoldable pub to_cron_int : Bytes → Outcome ℕ
to_cron_int text = elim (stoul text) [ none ↦ stopped thrown | some n ↦ done (n % 2 ^ 8) ]

-- `std::to_string` of the index of a name
unfoldable pub to_string : ℕ → Bytes
to_string i = if ltb i 10 then (b'0' + i) ∷ [] else (b'0' + i / 10) ∷ (b'0' + i % 10) ∷ []

unfoldable pub starts_with : Bytes → Bytes → Bool
starts_with [] s = true
starts_with (x ∷ p) [] = false
starts_with (x ∷ p) (c ∷ s) = (x == c) && starts_with p s

unfoldable pub drop : ℕ → Bytes → Bytes
drop zero s = s
drop (suc n) [] = []
drop (suc n) (c ∷ s) = drop n s

-- `find` and `replace( pos, 3, .. )`: the first place of a name, if there is one
unfoldable pub replace_first : Bytes → Bytes → Bytes → Bytes
replace_first name value [] = []
replace_first name value (c ∷ s) =
    let rest = replace_first name value s in
    if starts_with name (c ∷ s) then value ++ drop 3 (c ∷ s) else c ∷ rest

-- the loop of `replace_ordinals` from index `i`
unfoldable pub replace_from : ℕ → List Bytes → Bytes → Bytes
replace_from i [] text = text
replace_from i (name ∷ names) text =
    replace_from (i + 1) names (replace_first name (to_string i) text)

-- `replace_ordinals`
unfoldable pub replace_ordinals : Bytes → List Bytes → Bytes
replace_ordinals text replacement = replace_from 0 replacement text
