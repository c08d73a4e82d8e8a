-- ===== src/Ip.antt =====
-- `GetIPListFromString` of pkg/identifiers/identifiers.go: the matches of
-- `(25[0-5]|2[0-4][0-9]|[01]?[0-9][0-9]?)(\.(…)){3}` in a text. The matcher lists the ways in which
-- a text can start with the pattern, in the order in which Go's leftmost-first search prefers them.
pub mod Laws
use Prim.Native.Char.{Char, code}
use Prim.Native.String
use test_powerstore_automati.Base.{
  ℕ, zero, suc, Bool, ◌&&◌, Option, none, some, List, [], ◌∷◌, ◌++◌, String, leb, ◌<>◌,
  if◌then◌else◌,
}

-- What was matched, and the rest of the text.
abbrev pub Split : Type 0
Split = String × String

abbrev one_char : Char → String
one_char c = String.◌∷◌ c ""

-- One character of a class.
abbrev pub char_class : (ℕ → Bool) → String → List Split
char_class p String.[] = []
char_class p (String.◌∷◌ c s) = if p (code c) then (one_char c, s) ∷ [] else []

abbrev with_prefix : String → List Split → List Split
with_prefix m [] = []
with_prefix m ((k, rest) ∷ ways) = (m <> k, rest) ∷ with_prefix m ways

-- One pattern after another.
abbrev pub followed : List Split → (String → List Split) → List Split
followed [] q = []
followed ((m, rest) ∷ ways) q = with_prefix m (q rest) ++ followed ways q

-- `x?` prefers to match.
abbrev pub optional : (String → List Split) → String → List Split
optional p s = p s ++ ("", s) ∷ []

abbrev pub between : ℕ → ℕ → ℕ → Bool
between lo hi c = leb lo c && leb c hi

abbrev pub digit : String → List Split
digit = char_class (between b'0' b'9')

-- `25[0-5]|2[0-4][0-9]|[01]?[0-9][0-9]?`
unfoldable pub octet : String → List Split
octet s =
    followed (char_class (between b'2' b'2') s)
      (λ t. followed (char_class (between b'5' b'5') t) (char_class (between b'0' b'5')))
    ++ (followed (char_class (between b'2' b'2') s)
          (λ t. followed (char_class (between b'0' b'4') t) digit)
        ++ followed (optional (char_class (between b'0' b'1')) s)
            (λ t. followed (digit t) (optional digit)))

unfoldable pub dot_octet : String → List Split
unfolding octet
dot_octet s = followed (char_class (between b'.' b'.') s) octet

unfoldable pub ip_ways : String → List Split
unfolding octet dot_octet
ip_ways s = followed (octet s) (λ t. followed (dot_octet t) (λ u. followed (dot_octet u) dot_octet))

-- `re.FindAllString(input, -1)`: after a match the search goes on behind it. The fuel is the number
-- of characters, and every round drops at least one.
unfoldable pub find_all : ℕ → String → List String
unfolding ip_ways
find_all zero s = []
find_all (suc fuel) String.[] = []
find_all (suc fuel) (String.◌∷◌ c s) = elim (ip_ways (String.◌∷◌ c s)) [
  | [] ↦ find_all fuel s
  | way ∷ ways ↦ way.0 ∷ find_all fuel way.1
]

abbrev pub char_count : String → ℕ
char_count String.[] = 0
char_count (String.◌∷◌ c s) = suc (char_count s)

unfoldable pub get_ip_list_from_string : String → List String
unfolding find_all
get_ip_list_from_string input = find_all (char_count input) input

-- `ips[0]` and `ips[len(ips)-1]`, with `none` for a nil list.
unfoldable pub first_ip : String → Option String
unfolding get_ip_list_from_string
first_ip input = elim (get_ip_list_from_string input) [ [] ↦ none | ip ∷ ips ↦ some ip ]

abbrev last_of : String → List String → String
last_of ip [] = ip
last_of ip (next ∷ ips) = last_of next ips

unfoldable pub last_ip : String → Option String
unfolding get_ip_list_from_string
last_ip input = elim (get_ip_list_from_string input) [
  | [] ↦ none
  | ip ∷ ips ↦ some (last_of ip ips)
]
