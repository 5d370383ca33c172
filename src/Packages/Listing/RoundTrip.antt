-- ===== src/Packages/Listing/RoundTrip.antt =====
-- What choco and brew print for a list of packages is read back as that list.
use castle_ops_client.Prelude.{
  String, ◌≡◌, refl, ap, ◌∙◌, Bool, true, false, not, ◌||◌, none, some, List, [], ◌∷◌, map, All,
  if◌then◌else◌,
}
use castle_ops_client.Packages.Texts.{
  is_space, is_blank, is_newline, is_empty, trim_right, trim_cons, trim_space, split_lines, word,
  after_word, behind_gap, match_name_version, match_name_rest, first_field, two_parts, span, skip,
}
use castle_ops_client.Packages.Texts.Lines.{
  IsPlain, joined, all_chars, all_map, all-joined, span-joined, skip-joined, span_all, skip_none,
  plain_starts, trim_right-joined, trim_right_all, trim_cons_kept, kept_right, split_lines-joined,
  not_blank, not_newline, joined_full, starts_not, only_true,
}
use Prim.Native.Char.{Char}
use castle_ops_client.Packages.Listing.{
  choco_package, choco_packages, choco_line, parse_choco_list, is_summary, add_package,
  brew_package, brew_packages, brew_line, parse_brew_list, add_brew,
}

-- A line of the listing.
abbrev pub line_of : String × String → String
line_of (name, version) = joined name (String.◌∷◌ " " version)

abbrev pub printed : List (String × String) → String
printed [] = ""
printed (p ∷ ps) = joined (line_of p) (String.◌∷◌ "\n" (printed ps))

abbrev pub ArePlain : String × String → Type 0
ArePlain (name, version) = IsPlain name × IsPlain version

trim_space-line_of : (p : String × String) → ArePlain p → trim_space (line_of p) ≡ line_of p
trim_space-line_of (name, version) ((e, h), (f, k)) =
    ap trim_right (
      skip_none is_space (line_of (name, version))
        (plain_starts is_space name (String.◌∷◌ " " version) e h))
    ∙ trim_right-joined name (String.◌∷◌ " " version) refl (
        ap (trim_cons " ") (trim_right_all version k)
        ∙ trim_cons_kept " " version (kept_right (is_space " ") (is_empty version) f))

not_space : (s : String) → IsPlain s → all_chars (λ c. not (is_blank c)) s ≡ true
not_space s (e, h) = all_map (λ c. not (is_space c)) (λ c. not (is_blank c)) not_blank s h

line-newline :
    (p : String × String) → ArePlain p → all_chars (λ c. not (is_newline c)) (line_of p) ≡ true
line-newline (name, version) ((e, h), (f, k)) =
    all-joined (λ c. not (is_newline c)) name (String.◌∷◌ " " version)
      (all_map (λ c. not (is_space c)) (λ c. not (is_newline c)) not_newline name h)
      (all_map (λ c. not (is_space c)) (λ c. not (is_newline c)) not_newline version k)

after_word-line_of :
    (p : String × String) → ArePlain p → after_word (line_of p) ≡ String.◌∷◌ " " p.1
after_word-line_of (name, version) (h, k) =
    skip-joined (λ c. not (is_blank c)) name version " " (not_space name h) refl

word-line_of : (p : String × String) → ArePlain p → word (line_of p) ≡ p.0
word-line_of (name, version) (h, k) =
    span-joined (λ c. not (is_blank c)) name version " " (not_space name h) refl

plain_starts_not :
    (p : Char → Bool) (s : String)
    → is_empty s ≡ false
    → all_chars (λ c. not (p c)) s ≡ true
    → starts_not p s ≡ true
plain_starts_not p String.[] e h = refl
plain_starts_not p (String.◌∷◌ c s) e h = (only_true (not (p c)) (all_chars (λ c. not (p c)) s) h).0

behind_gap-line_of : (p : String × String) → ArePlain p → behind_gap (line_of p) ≡ p.1
behind_gap-line_of (name, version) (h, k) =
    ap (skip is_blank) (after_word-line_of (name, version) (h, k))
    ∙ skip_none is_blank version (plain_starts_not is_blank version k.0 (not_space version k))

line_full : (p : String × String) → ArePlain p → is_empty (line_of p) ≡ false
line_full (name, version) (h, k) = joined_full name (String.◌∷◌ " " version) refl

two_parts_found :
    (after first second name version : String)
    → is_empty after ≡ false
    → first ≡ name
    → second ≡ version
    → is_empty name ≡ false
    → is_empty version ≡ false
    → two_parts (not (is_empty after)) first second ≡ some (name, version)
two_parts_found after first second name version a f s e k = rw (a, f, s, e, k) refl

choco_line-line_of :
    (p : String × String)
    → ArePlain p
    → is_summary (line_of p) ≡ false
    → choco_line (line_of p) ≡ some p
choco_line-line_of p (h, k) n =
    let line = line_of p in
    ap (λ b. if b || is_summary line then none else match_name_version line) (line_full p (h, k))
    ∙ (ap (λ b. if b then none else match_name_version line) n
        ∙ two_parts_found (after_word line) (word line) (word (behind_gap line)) p.0 p.1
            (ap is_empty (after_word-line_of p (h, k))) (word-line_of p (h, k))
            (ap word (behind_gap-line_of p (h, k))
              ∙ span_all (λ c. not (is_blank c)) p.1 (not_space p.1 k))
            h.0 k.0)

brew_line-line_of : (p : String × String) → ArePlain p → brew_line (line_of p) ≡ some p
brew_line-line_of p (h, k) =
    let line = line_of p in
    ap (λ b. if b then none else match_name_rest line) (line_full p (h, k))
    ∙ two_parts_found (after_word line) (word line) (behind_gap line) p.0 p.1
        (ap is_empty (after_word-line_of p (h, k))) (word-line_of p (h, k))
        (behind_gap-line_of p (h, k)) h.0 k.0

-- Lines that choco's summary cannot be mistaken for.
abbrev pub NoSummary : String × String → Type 0
NoSummary p = is_summary (line_of p) ≡ false

printed-cons :
    (p : String × String) (ps : List (String × String))
    → ArePlain p
    → split_lines (printed (p ∷ ps)) ≡ line_of p ∷ split_lines (printed ps)
printed-cons p ps h = split_lines-joined (line_of p) (printed ps) (line-newline p h)

-- If no name and no version is empty or has white space in it, and no line reads like the summary,
-- then the listing of packages, a line with the name, a space and the version for each, is parsed
-- to exactly these packages, in order.
pub parse_choco_list-printed :
    (ps : List (String × String))
    → All ArePlain ps
    → All NoSummary ps
    → parse_choco_list (printed ps) ≡ map choco_package ps
unfolding parse_choco_list
parse_choco_list-printed [] h k = refl
parse_choco_list-printed (p ∷ ps) (h, hs) (k, ks) =
    ap choco_packages (printed-cons p ps h)
    ∙ (ap (λ l. add_package (choco_line l) (choco_packages (split_lines (printed ps))))
          (trim_space-line_of p h)
        ∙ (ap (λ o. add_package o (choco_packages (split_lines (printed ps))))
              (choco_line-line_of p h k)
            ∙ ap (λ l. choco_package p ∷ l) (parse_choco_list-printed ps hs ks)))

first_field_plain : (s : String) → IsPlain s → first_field s ≡ s
first_field_plain s (e, h) =
    ap (span (λ c. not (is_space c))) (skip_none is_space s (plain_starts_not is_space s e h))
    ∙ span_all (λ c. not (is_space c)) s h

-- If no name and no version is empty or has white space in it, then brew's listing of them is
-- parsed to exactly these packages, in order.
pub parse_brew_list-printed :
    (ps : List (String × String))
    → All ArePlain ps
    → parse_brew_list (printed ps) ≡ map brew_package ps
unfolding parse_brew_list
parse_brew_list-printed [] h = refl
parse_brew_list-printed (p ∷ ps) (h, hs) =
    ap brew_packages (printed-cons p ps h)
    ∙ (ap (λ l. add_brew (brew_line l) (brew_packages (split_lines (printed ps))))
          (trim_space-line_of p h)
        ∙ (ap (λ o. add_brew o (brew_packages (split_lines (printed ps)))) (brew_line-line_of p h)
            ∙ (ap (λ v. brew_package (p.0, v) ∷ brew_packages (split_lines (printed ps)))
                  (first_field_plain p.1 h.1)
                ∙ ap (λ l. brew_package p ∷ l) (parse_brew_list-printed ps hs))))
