-- ===== src/Metrics/System/Cycles.antt =====
-- The cycles of internal/metrics/system.go: the order of the collectors and what a cycle hands on.
use castle_ops_client.Prelude.{
  ◌≡◌, refl, subst, ◌∙◌, ◌⊎◌, inl, inr, List, [], ◌∷◌, Error, Result, ok, err, arith,
}
use mathlib.Core.List.{Permᴰ}
use mathlib.Core.List.Permᴰ
use castle_ops_client.Cache.Types.{Float64}
use castle_ops_client.Metrics.Average.{Arithmetic}
use castle_ops_client.Metrics.Collectors.{Machine}
use castle_ops_client.Metrics.System.{
  Collector, cpu, memory, disk, network, Parts, collect, run_collectors, add_error,
}

module _ (a : Arithmetic Float64) where
  abbrev after : Collector → Machine → Parts → Parts
  after c m p = (collect a c m p).1

  abbrev Swaps : Collector → Collector → Machine → Parts → Type 0
  Swaps c d m p =
      (after d m (after c m p) ≡ after c m (after d m p))
      × ((collect a d m (after c m p)).0 ≡ (collect a d m p).0)
      × ((collect a c m (after d m p)).0 ≡ (collect a c m p).0)

  swaps : (c d : Collector) (m : Machine) (p : Parts) → (c ≡ d) ⊎ Swaps c d m p
  swaps cpu cpu m p = inl refl
  swaps cpu memory m p = inr (ground arith)
  swaps cpu disk m p = inr (ground arith)
  swaps cpu network m p = inr (ground arith)
  swaps memory cpu m p = inr (ground arith)
  swaps memory memory m p = inl refl
  swaps memory disk m p = inr (ground arith)
  swaps memory network m p = inr (ground arith)
  swaps disk cpu m p = inr (ground arith)
  swaps disk memory m p = inr (ground arith)
  swaps disk disk m p = inl refl
  swaps disk network m p = inr (ground arith)
  swaps network cpu m p = inr (ground arith)
  swaps network memory m p = inr (ground arith)
  swaps network disk m p = inr (ground arith)
  swaps network network m p = inl refl

  -- The same parts at the end, and the same errors in some order.
  abbrev pub Alike : List Error × Parts → List Error × Parts → Type 0
  Alike x y = (x.1 ≡ y.1) × Permᴰ x.0 y.0

  add_error-Alike :
      (r : Result (Unit {0})) (x y : List Error × Parts)
      → Alike x y
      → Alike (add_error r x.0, x.1) (add_error r y.0, y.1)
  add_error-Alike (ok u) x y h = h
  add_error-Alike (err e) x y (h, k) = (h, Permᴰ.cons refl k)

  add_errors-swap :
      (r s : Result (Unit {0})) (es : List Error)
      → Permᴰ (add_error r (add_error s es)) (add_error s (add_error r es))
  add_errors-swap (ok u) (ok v) es = Permᴰ.refl es
  add_errors-swap (ok u) (err e) es = Permᴰ.refl (e ∷ es)
  add_errors-swap (err e) (ok u) es = Permᴰ.refl (e ∷ es)
  add_errors-swap (err e) (err f) es = Permᴰ.swap refl refl

  swap-Alike :
      (c d : Collector) (cs : List Collector) (m : Machine) (p : Parts)
      → Alike (run_collectors a (c ∷ d ∷ cs) m p) (run_collectors a (d ∷ c ∷ cs) m p)
  unfolding run_collectors
  swap-Alike c d cs m p = elim (swaps c d m p) [
    | inl e ↦
        subst (λ x. Alike (run_collectors a (c ∷ x ∷ cs) m p) (run_collectors a (x ∷ c ∷ cs) m p)) e
          (refl, Permᴰ.refl _)
    | inr (h, k, l) ↦ rw (h, k, l) (refl, add_errors-swap (collect a c m p).0 (collect a d m p).0 _)
  ]

  Alike-refl : (x : List Error × Parts) → Alike x x
  Alike-refl x = (refl, Permᴰ.refl x.0)

  Alike-trans : (x y z : List Error × Parts) → Alike x y → Alike y z → Alike x z
  Alike-trans x y z (h, k) (h', k') = (h ∙ h', Permᴰ.trans k k')

  -- In whichever order the collectors come to the buffer, it gets the same metrics, they end in the
  -- same state, and the same errors are reported.
  pub run_collectors-Alike :
      {cs ds : List Collector} (h : Permᴰ cs ds) (m : Machine) (p : Parts)
      → Alike (run_collectors a cs m p) (run_collectors a ds m p)
  unfolding run_collectors
  run_collectors-Alike Permᴰ.nil m p = Alike-refl ([], p)
  run_collectors-Alike (Permᴰ.cons {a = c} {b = d} {l₁ = cs} {l₂ = ds} e h) m p =
      subst (λ x. Alike (run_collectors a (c ∷ cs) m p) (run_collectors a (x ∷ ds) m p)) e
        (add_error-Alike (collect a c m p).0 (run_collectors a cs m (after c m p))
          (run_collectors a ds m (after c m p)) (run_collectors-Alike h m (after c m p)))
  run_collectors-Alike (Permᴰ.swap {a = c} {b = d} {a' = c'} {b' = d'} {l = cs} e f) m p =
      subst (λ x. Alike (run_collectors a (c ∷ d ∷ cs) m p) (run_collectors a (c' ∷ x ∷ cs) m p)) e
        (subst (λ x. Alike (run_collectors a (c ∷ d ∷ cs) m p) (run_collectors a (x ∷ c ∷ cs) m p))
          f (swap-Alike c d cs m p))
  run_collectors-Alike (Permᴰ.trans {l₁ = cs} {l₂ = ds} {l₃ = es} h k) m p =
      Alike-trans (run_collectors a cs m p) (run_collectors a ds m p) (run_collectors a es m p)
        (run_collectors-Alike h m p) (run_collectors-Alike k m p)
