-- ===== src/Packages/Texts/Lines.antt =====
-- Lemmas on the functions on texts that internal/packagemgr reads listings with.
use castle_ops_client.Prelude.{String, ◌≡◌, refl, ap, ◌∙◌, Bool, true, false, not, ◌&&◌, ◌∷◌, arith}
use castle_ops_client.Packages.Texts.{
  is_space, is_blank, is_newline, is_empty, span, skip, cons_if, skip_if, trim_right, trim_cons,
  split_lines, split_at,
}
use Prim.Native.Char.{Char}

abbrev pub all_chars : (Char → Bool) → String → Bool
all_chars p String.[] = true
all_chars p (String.◌∷◌ c s) = p c && all_chars p s

-- Text without white space, as names and versions are.
abbrev pub IsPlain : String → Type 0
IsPlain s = (is_empty s ≡ false) × (all_chars (λ c. not (is_space c)) s ≡ true)

abbrev pub joined : String → String → String
joined String.[] t = t
joined (String.◌∷◌ c s) t = String.◌∷◌ c (joined s t)

pub kept_left : (a b : Bool) → not a ≡ true → not (a && b) ≡ true
kept_left a b h = ground arith

pub kept_right : (a b : Bool) → b ≡ false → not (a && b) ≡ true
kept_right a b h = ground arith

pub joined_full : (s t : String) → is_empty t ≡ false → is_empty (joined s t) ≡ false
joined_full String.[] t h = h
joined_full (String.◌∷◌ c s) t h = refl

pub blank-space : (c : Char) → not (is_space c) ≡ true → is_blank c ≡ false
blank-space c h = ground arith

pub newline-space : (c : Char) → not (is_space c) ≡ true → is_newline c ≡ false
newline-space c h = ground arith

pub only_true : (a b : Bool) → a && b ≡ true → (a ≡ true) × (b ≡ true)
only_true a b h = ground arith

pub span_all : (p : Char → Bool) (s : String) → all_chars p s ≡ true → span p s ≡ s
span_all p String.[] h = refl
span_all p (String.◌∷◌ c s) h =
    let (k, l) = only_true (p c) (all_chars p s) h in
    ap (λ b. cons_if b c (span p s)) k ∙ ap (String.◌∷◌ c) (span_all p s l)

pub span-joined :
    (p : Char → Bool) (s t : String) (c : Char)
    → all_chars p s ≡ true
    → p c ≡ false
    → span p (joined s (String.◌∷◌ c t)) ≡ s
span-joined p String.[] t c h k = ap (λ b. cons_if b c (span p t)) k
span-joined p (String.◌∷◌ d s) t c h k =
    let (u, v) = only_true (p d) (all_chars p s) h in
    ap (λ b. cons_if b d (span p (joined s (String.◌∷◌ c t)))) u
    ∙ ap (String.◌∷◌ d) (span-joined p s t c v k)

pub skip-joined :
    (p : Char → Bool) (s t : String) (c : Char)
    → all_chars p s ≡ true
    → p c ≡ false
    → skip p (joined s (String.◌∷◌ c t)) ≡ String.◌∷◌ c t
skip-joined p String.[] t c h k = ap (λ b. skip_if b (skip p t) (String.◌∷◌ c t)) k
skip-joined p (String.◌∷◌ d s) t c h k =
    let (u, v) = only_true (p d) (all_chars p s) h in
    ap
      (λ b.
        skip_if b (skip p (joined s (String.◌∷◌ c t))) (String.◌∷◌ d (joined s (String.◌∷◌ c t))))
      u
    ∙ skip-joined p s t c v k

pub not-true : (b : Bool) → not b ≡ true → b ≡ false
not-true b h = ground arith

pub both_true : (a b : Bool) → a ≡ true → b ≡ true → a && b ≡ true
both_true a b h k = ground arith

abbrev pub starts_not : (Char → Bool) → String → Bool
starts_not p String.[] = true
starts_not p (String.◌∷◌ c s) = not (p c)

pub skip_none : (p : Char → Bool) (s : String) → starts_not p s ≡ true → skip p s ≡ s
skip_none p String.[] h = refl
skip_none p (String.◌∷◌ c s) h = ap (λ b. skip_if b (skip p s) (String.◌∷◌ c s)) (not-true (p c) h)

pub all_map :
    (p q : Char → Bool)
    → ((c : Char) → p c ≡ true → q c ≡ true)
    → (s : String) → all_chars p s ≡ true
    → all_chars q s ≡ true
all_map p q f String.[] h = refl
all_map p q f (String.◌∷◌ c s) h =
    let (u, v) = only_true (p c) (all_chars p s) h in
    both_true (q c) (all_chars q s) (f c u) (all_map p q f s v)

pub all-joined :
    (p : Char → Bool) (s t : String)
    → all_chars p s ≡ true
    → all_chars p t ≡ true
    → all_chars p (joined s t) ≡ true
all-joined p String.[] t h k = k
all-joined p (String.◌∷◌ c s) t h k =
    let (u, v) = only_true (p c) (all_chars p s) h in
    both_true (p c) (all_chars p (joined s t)) u (all-joined p s t v k)

pub trim_cons_kept :
    (c : Char) (rest : String)
    → not (is_space c && is_empty rest) ≡ true
    → trim_cons c rest ≡ String.◌∷◌ c rest
trim_cons_kept c rest h = ap (λ b. cons_if b c rest) h

pub trim_right_all : (s : String) → all_chars (λ c. not (is_space c)) s ≡ true → trim_right s ≡ s
trim_right_all String.[] h = refl
trim_right_all (String.◌∷◌ c s) h =
    let (u, v) = only_true (not (is_space c)) (all_chars (λ c. not (is_space c)) s) h in
    ap (trim_cons c) (trim_right_all s v)
    ∙ trim_cons_kept c s (kept_left (is_space c) (is_empty s) u)

pub trim_right-joined :
    (s t : String) → is_empty t ≡ false → trim_right t ≡ t → trim_right (joined s t) ≡ joined s t
trim_right-joined String.[] t h k = k
trim_right-joined (String.◌∷◌ c s) t h k =
    ap (trim_cons c) (trim_right-joined s t h k)
    ∙ trim_cons_kept c (joined s t)
        (kept_right (is_space c) (is_empty (joined s t)) (joined_full s t h))

pub split_lines-joined :
    (s t : String)
    → all_chars (λ c. not (is_newline c)) s ≡ true
    → split_lines (joined s (String.◌∷◌ "\n" t)) ≡ s ∷ split_lines t
split_lines-joined String.[] t h = refl
split_lines-joined (String.◌∷◌ c s) t h =
    let (u, v) = only_true (not (is_newline c)) (all_chars (λ c. not (is_newline c)) s) h in
    ap (λ b. split_at b c (split_lines (joined s (String.◌∷◌ "\n" t)))) (not-true (is_newline c) u)
    ∙ ap (split_at false c) (split_lines-joined s t v)

pub plain_starts :
    (p : Char → Bool) (s t : String)
    → is_empty s ≡ false
    → all_chars (λ c. not (p c)) s ≡ true
    → starts_not p (joined s t) ≡ true
plain_starts p String.[] t e h = absurd (ground arith)
plain_starts p (String.◌∷◌ c s) t e h = (only_true (not (p c)) (all_chars (λ c. not (p c)) s) h).0

pub not_blank : (c : Char) → not (is_space c) ≡ true → not (is_blank c) ≡ true
not_blank c h = ap not (blank-space c h)

pub not_newline : (c : Char) → not (is_space c) ≡ true → not (is_newline c) ≡ true
not_newline c h = ap not (newline-space c h)
