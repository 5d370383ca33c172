-- ===== src/Prelude/Perms.antt =====
-- The Boolean filter under a change of order.
use mathlib.Core.List
use mathlib.Core.List.{List, [], ◌∷◌, Perm}
use mathlib.Core.List.Perm
use mathlib.Core.Bool.{Bool, true, false}
use mathlib.Core.Path.{◌≡◌, refl, subst₂}
use native.Mathlib.Omega.{arith}
use castle_ops_client.Prelude.Lists.{filter}

dec_true : (b : Bool) → Dec (b ≡ true)
dec_true true = yes refl
dec_true false = no (λ e. cc)

module _ {ℓ} {A : Type ℓ} (p : A → Bool) where
  filter_dec : (xs : List A) → List.filter (λ x. dec_true (p x)) xs ≡ filter p xs
  unfolding dec_true
  filter_dec [] = refl
  filter_dec (x ∷ xs) = ground (arith, filter_dec xs)

  pub filter-perm : {xs ys : List A} → Perm xs ys → Perm (filter p xs) (filter p ys)
  filter-perm {xs} {ys} h =
      subst₂ (λ a b. Perm a b) (filter_dec xs) (filter_dec ys) (Perm.filter (λ x. dec_true (p x)) h)
