-- ===== src/Controller/Replication/Uuid.antt =====
-- `GetVolumeUUIDPrefix` of pkg/array/array.go: what stands in a volume ID before the first UUID.
use Prim.Native.Char.{Char, code}
use test_powerstore_automati.Base.{
  ◌≡◌, ℕ, Bool, true, false, ◌&&◌, ◌||◌, Option, none, some, List, [], ◌∷◌, String, ◌<>◌, ◌=ℕ◌,
  if◌then◌else◌, leb, after_prefix,
}

abbrev pub hex_digit : ℕ → Bool
hex_digit d = (leb b'a' d && leb d b'f') || (leb b'0' d && leb d b'9')

abbrev pub dash : ℕ → Bool
dash d = d =ℕ b'-'

-- One class of characters for each character.
abbrev pub Pattern : Type 0
Pattern = List (ℕ → Bool)

abbrev pub four : Pattern → Pattern
four more = hex_digit ∷ hex_digit ∷ hex_digit ∷ hex_digit ∷ more

-- `[a-f0-9]{8}-[a-f0-9]{4}-[a-f0-9]{4}-[a-f0-9]{4}-[a-f0-9]{12}`
unfoldable pub uuid_pattern : Pattern
uuid_pattern = four (four (dash ∷ four (dash ∷ four (dash ∷ four (dash ∷ four (four (four [])))))))

unfoldable pub starts_with : Pattern → String → Bool
starts_with [] s = true
starts_with (p ∷ ps) String.[] = false
starts_with (p ∷ ps) (String.◌∷◌ c s) = p (code c) && starts_with ps s

-- The part before the first match of a pattern that is not empty, if there is one.
unfoldable pub before_match : Pattern → String → Option String
before_match ps String.[] = none
before_match ps (String.◌∷◌ c s) =
    let rest = before_match ps s in
    if starts_with ps (String.◌∷◌ c s)
    then some ""
    else elim rest [ none ↦ none | some p ↦ some (String.◌∷◌ c p) ]

abbrev pub found_or_empty : Option String → String
found_or_empty none = ""
found_or_empty (some p) = p

unfoldable pub get_volume_uuid_prefix : String → String
get_volume_uuid_prefix id = found_or_empty (before_match uuid_pattern id)

-- A text is the part before the match and a rest that starts with it.
record Cut (ps : Pattern) (s p : String) : Type 0 where
  rest : String
  trimmed : after_prefix p s ≡ some rest
  whole : p <> rest ≡ s
  matches : starts_with ps rest ≡ true
