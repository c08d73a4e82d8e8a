-- ===== src/Base/Text.antt =====
-- Go strings: equality, `strings.Split` at one character, and the laws of splitting.
use Prim.Native.Nat.{ℕ, zero, suc, ◌/◌, ◌%◌}
use Prim.Native.Char.{Char, code}
use Prim.Native.String
use Prim.Native.String.compare
use Prim.Native.String.{String}
use mathlib.Core.Path.{◌≡◌, refl}
use mathlib.Core.Logic.{◌≢◌}
use mathlib.Core.Bool.{Bool, true, false, ◌&&◌, ◌||◌}
use mathlib.Core.Option.{Option, none, some}
use mathlib.Core.List.{List, [], ◌∷◌}
use native.Mathlib.Omega.{arith}
use text.Mathlib.Text
use text.Mathlib.TextLemmas.{nil-append, cons-append}
use test_powerstore_automati.Base.Tests.{if◌then◌else◌, is_some, ◌=ℕ◌, ltb}

infix 50 ◌==◌
abbrev pub ◌==◌ : String → String → Bool
s == t = Text.◌==◌ s t

infixr 65 ◌<>◌
abbrev pub ◌<>◌ : String → String → String
s <> t = String.◌++◌ s t

abbrev pub is_empty : String → Bool
is_empty s = s == ""

-- `strings.Contains`
abbrev pub contains_text : String → String → Bool
contains_text s t = is_some (Text.find? s t)

-- The head of a split gets one more character.
abbrev pub push_head : Char → List String → List String
push_head c [] = (String.◌∷◌ c "") ∷ []
push_head c (w ∷ ws) = (String.◌∷◌ c w) ∷ ws

-- `strings.Split` at a separator of one character, given by its code.
unfoldable pub split : ℕ → String → List String
split sep String.[] = "" ∷ []
split sep (String.◌∷◌ c s) =
    let rest = split sep s in if code c =ℕ sep then "" ∷ rest else push_head c rest

-- Go's `<` on strings: UTF-8 keeps the order of the code points.
abbrev pub text_lt : String → String → Bool
text_lt s String.[] = false
text_lt String.[] (String.◌∷◌ d t) = true
text_lt (String.◌∷◌ c s) (String.◌∷◌ d t) =
    ltb (code c) (code d) || (code c =ℕ code d) && text_lt s t

pub text_lt_trans : (s t u : String) → text_lt s t ≡ true → text_lt t u ≡ true → text_lt s u ≡ true
text_lt_trans s t String.[] h k = cc
text_lt_trans s String.[] (String.◌∷◌ e u) h k = cc
text_lt_trans String.[] (String.◌∷◌ d t) (String.◌∷◌ e u) h k = refl
text_lt_trans (String.◌∷◌ c s) (String.◌∷◌ d t) (String.◌∷◌ e u) h k =
    ground (arith, text_lt_trans s t u)

pub text_lt_irrefl : (s : String) → text_lt s s ≡ false
text_lt_irrefl String.[] = refl
text_lt_irrefl (String.◌∷◌ c s) = ground (arith, text_lt_irrefl s)

-- No character of the text is the separator.
abbrev pub Lacks : ℕ → String → Type 0
Lacks sep String.[] = Unit
Lacks sep (String.◌∷◌ c s) = (code c ≢ sep) × Lacks sep s

pub split-Lacks : (sep : ℕ) (s : String) → Lacks sep s → split sep s ≡ s ∷ []
unfolding split
split-Lacks sep String.[] h = refl
split-Lacks sep (String.◌∷◌ c s) (h, k) = rw (split-Lacks sep s k) (ground arith)

-- Splitting a text that is joined at the separator.
pub split-join :
    (sep : ℕ) (c : Char) (s t : String)
    → code c ≡ sep
    → Lacks sep s
    → split sep (s <> String.◌∷◌ c t) ≡ s ∷ split sep t
unfolding split
split-join sep c String.[] t e h = rw nil-append (ground arith)
split-join sep c (String.◌∷◌ d s) t e (h, k) =
    rw cons-append (rw (split-join sep c s t e k) (ground arith))

pub Lacks-append : (sep : ℕ) (s t : String) → Lacks sep s → Lacks sep t → Lacks sep (s <> t)
Lacks-append sep String.[] t h k = rw nil-append k
Lacks-append sep (String.◌∷◌ c s) t (h, hs) k = rw cons-append (h, Lacks-append sep s t hs k)

-- The same where the separator is a text of one character.
pub split-join_text :
    (sep : ℕ) (c : Char) (s t : String)
    → code c ≡ sep
    → Lacks sep s
    → split sep (s <> ((String.◌∷◌ c "") <> t)) ≡ s ∷ split sep t
split-join_text sep c s t e h = rw (cons-append c "" t, nil-append t) (split-join sep c s t e h)

-- `strings.Replace(s, c, "", -1)` of one character.
unfoldable pub remove_char : ℕ → String → String
remove_char c String.[] = ""
remove_char c (String.◌∷◌ d s) =
    let rest = remove_char c s in if code d =ℕ c then rest else String.◌∷◌ d rest

-- `strings.TrimPrefix`, one character at a time.
abbrev pub after_prefix : String → String → Option String
after_prefix String.[] s = some s
after_prefix (String.◌∷◌ c p) String.[] = none
after_prefix (String.◌∷◌ c p) (String.◌∷◌ d s) =
    let rest = after_prefix p s in if code c =ℕ code d then rest else none

abbrev pub trim_prefix : String → String → String
trim_prefix p s = elim (after_prefix p s) [ none ↦ s | some rest ↦ rest ]

abbrev pub digit_text : ℕ → String
digit_text d =
    if d =ℕ 0
    then "0"
    else if d =ℕ 1
    then "1"
    else if d =ℕ 2
    then "2"
    else if d =ℕ 3
    then "3"
    else if d =ℕ 4
    then "4"
    else if d =ℕ 5
    then "5"
    else if d =ℕ 6
    then "6"
    else if d =ℕ 7
    then "7"
    else if d =ℕ 8
    then "8"
    else "9"

-- The decimal digits of a number, at most `fuel` of them, in front of a text.
abbrev decimal_onto : ℕ → ℕ → String → String
decimal_onto zero n acc = acc
decimal_onto (suc fuel) n acc =
    let more = decimal_onto fuel (n / 10) (digit_text (n % 10) <> acc) in
    if ltb n 10 then digit_text n <> acc else more

-- `fmt.Sprintf("%d", n)`: an int64 has at most 19 digits.
unfoldable pub decimal : ℕ → String
decimal n = decimal_onto 20 n ""

append-nonempty : (s t : String) → is_empty s ≡ false → is_empty (s <> t) ≡ false
append-nonempty String.[] t h = cc
append-nonempty (String.◌∷◌ c s) t h = rw (cons-append c s t, compare.cons-nil)

if-nonempty :
    (b : Bool) (s t : String)
    → is_empty s ≡ false
    → is_empty t ≡ false
    → is_empty (if b then s else t) ≡ false
if-nonempty true s t h k = h
if-nonempty false s t h k = k

digit_text-nonempty : (d : ℕ) (acc : String) → is_empty (digit_text d <> acc) ≡ false
digit_text-nonempty d acc = append-nonempty (digit_text d) acc (
    if-nonempty (d =ℕ 0) "0" _ refl (
      if-nonempty (d =ℕ 1) "1" _ refl (
        if-nonempty (d =ℕ 2) "2" _ refl (
          if-nonempty (d =ℕ 3) "3" _ refl (
            if-nonempty (d =ℕ 4) "4" _ refl (
              if-nonempty (d =ℕ 5) "5" _ refl (
                if-nonempty (d =ℕ 6) "6" _ refl
                  (if-nonempty (d =ℕ 7) "7" _ refl (if-nonempty (d =ℕ 8) "8" "9" refl refl)))))))))

decimal_onto-nonempty :
    (fuel n : ℕ) (acc : String) → is_empty (decimal_onto (suc fuel) n acc) ≡ false
decimal_onto-nonempty zero n acc =
    ground (arith, digit_text-nonempty n acc, digit_text-nonempty (n % 10) acc)
decimal_onto-nonempty (suc fuel) n acc = ground (
  arith,
  digit_text-nonempty n acc,
  decimal_onto-nonempty fuel (n / 10) (digit_text (n % 10) <> acc),
)

pub is_empty-decimal : (n : ℕ) → is_empty (decimal n) ≡ false
unfolding decimal
is_empty-decimal n = decimal_onto-nonempty 19 n ""
