-- ===== src/Packages/Texts.antt =====
-- What internal/packagemgr/chocolatey.go and homebrew.go use of Go's strings and regexp packages.
-- A character is a Unicode scalar value; `to_lower` is that of the ASCII letters.
pub mod Lines
use castle_ops_client.Prelude.{
  ℕ, ◌+◌, String, Bool, true, false, not, ◌&&◌, ◌||◌, Option, none, some, List, [], ◌∷◌, leb, ◌==◌,
  if◌then◌else◌,
}
use Prim.Native.Char.{Char, code}

-- unicode.IsSpace
abbrev pub is_space : Char → Bool
is_space c =
    let n = code c in
    (leb 9 n && leb n 13)
    || n == 32
    || n == 0x85
    || n == 0xa0
    || n == 0x1680
    || (leb 0x2000 n && leb n 0x200a)
    || n == 0x2028
    || n == 0x2029
    || n == 0x202f
    || n == 0x205f
    || n == 0x3000

-- The class \s of a regexp.
abbrev pub is_blank : Char → Bool
is_blank c = let n = code c in n == 9 || n == 10 || n == 12 || n == 13 || n == 32

abbrev pub is_digit : Char → Bool
is_digit c = leb 48 (code c) && leb (code c) 57

abbrev pub is_newline : Char → Bool
is_newline c = code c == 10

abbrev pub starts_digit : String → Bool
starts_digit String.[] = false
starts_digit (String.◌∷◌ c s) = is_digit c

abbrev pub dot_digit : String → Bool
dot_digit String.[] = false
dot_digit (String.◌∷◌ c s) = code c == 46 && starts_digit s

-- strings.ToLower on ASCII letters
abbrev pub lower_code : ℕ → ℕ
lower_code n = if leb 65 n && leb n 90 then n + 32 else n

abbrev pub is_empty : String → Bool
is_empty String.[] = true
is_empty (String.◌∷◌ c s) = false

abbrev pub cons_if : Bool → Char → String → String
cons_if true c s = String.◌∷◌ c s
cons_if false c s = String.[]

abbrev pub skip_if : Bool → String → String → String
skip_if true rest s = rest
skip_if false rest s = s

-- The longest beginning whose characters all fulfil the test, and what follows it.
abbrev pub span : (Char → Bool) → String → String
span p String.[] = String.[]
span p (String.◌∷◌ c s) = cons_if (p c) c (span p s)

abbrev pub skip : (Char → Bool) → String → String
skip p String.[] = String.[]
skip p (String.◌∷◌ c s) = skip_if (p c) (skip p s) (String.◌∷◌ c s)

abbrev pub trim_cons : Char → String → String
trim_cons c rest = cons_if (not (is_space c && is_empty rest)) c rest

abbrev pub trim_right : String → String
trim_right String.[] = String.[]
trim_right (String.◌∷◌ c s) = trim_cons c (trim_right s)

-- strings.TrimSpace
abbrev pub trim_space : String → String
trim_space s = trim_right (skip is_space s)

abbrev pub split_at : Bool → Char → List String → List String
split_at true c lines = String.[] ∷ lines
split_at false c [] = String.◌∷◌ c String.[] ∷ []
split_at false c (line ∷ lines) = String.◌∷◌ c line ∷ lines

-- strings.Split(s, "\n")
abbrev pub split_lines : String → List String
split_lines String.[] = String.[] ∷ []
split_lines (String.◌∷◌ c s) = split_at (is_newline c) c (split_lines s)

-- strings.HasPrefix(s, prefix), with the prefix first
abbrev pub has_prefix : String → String → Bool
has_prefix String.[] s = true
has_prefix (String.◌∷◌ c p) String.[] = false
has_prefix (String.◌∷◌ c p) (String.◌∷◌ d s) = code c == code d && has_prefix p s

-- strings.Contains(s, part), with the part first
abbrev pub contains : String → String → Bool
contains part String.[] = is_empty part
contains part (String.◌∷◌ c s) = has_prefix part (String.◌∷◌ c s) || contains part s

-- The regexp \d+\.\d+ finds a match.
abbrev pub has_version : String → Bool
has_version String.[] = false
has_version (String.◌∷◌ c s) = (is_digit c && dot_digit s) || has_version s

-- strings.HasPrefix(strings.ToLower(s), strings.ToLower(prefix))
abbrev pub has_prefix_lower : String → String → Bool
has_prefix_lower String.[] s = true
has_prefix_lower (String.◌∷◌ c p) String.[] = false
has_prefix_lower (String.◌∷◌ c p) (String.◌∷◌ d s) =
    lower_code (code c) == lower_code (code d) && has_prefix_lower p s

-- strings.Fields(s)[0], and "" where there is no field
abbrev pub first_field : String → String
first_field s = span (λ c. not (is_space c)) (skip is_space s)

abbrev pub some_if : {A : Type 0} → Bool → A → Option A
some_if true x = some x
some_if false x = none

abbrev pub word : String → String
word s = span (λ c. not (is_blank c)) s

abbrev pub after_word : String → String
after_word s = skip (λ c. not (is_blank c)) s

abbrev pub behind_gap : String → String
behind_gap s = skip is_blank (after_word s)

abbrev pub two_parts : Bool → String → String → Option (String × String)
two_parts matches first second =
    some_if (matches && not (is_empty first) && not (is_empty second)) (first, second)

-- The groups of ^([^\s]+)\s+([^\s]+), on a line that does not end in a blank.
abbrev pub match_name_version : String → Option (String × String)
match_name_version line =
    two_parts (not (is_empty (after_word line))) (word line) (word (behind_gap line))

-- The groups of ^([^\s]+)\s+(.+)$, on one line that does not end in a blank.
abbrev pub match_name_rest : String → Option (String × String)
match_name_rest line = two_parts (not (is_empty (after_word line))) (word line) (behind_gap line)
