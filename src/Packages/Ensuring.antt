-- ===== src/Packages/Ensuring.antt =====
-- The managers that EnsurePackageManager of internal/packagemgr/installer.go returns.
use castle_ops_client.Prelude.{
  String, ◌≡◌, refl, Bool, true, false, ◌⊎◌, inl, inr, Bool-cases, arith, Option, none, some, List,
  [], ◌∷◌, Error, plain, Result, ok, err,
}
use castle_ops_client.Prelude.Assoc.{lookup}
use castle_ops_client.Packages.{
  PackageManager, Registry, is_auto, get_preferred_managers, get_manager, present_or, detect,
  auto_detect, verified, installed_now, checked_first, install_first, or_install,
  ensure_auto_detected, ensure_named, ensure_package_manager,
}

abbrev pub Among : String → List String → Type 0
Among k [] = ⊥
Among k (n ∷ ns) = (k ≡ n) ⊎ Among k ns

-- The manager that a call chooses: the one that it names, or one of those that its platform prefers,
-- as it stands in the registry.
pub data Chosen {W : Type 0} (os name : String) (r : Registry W) (m : PackageManager W)
    : Type 0 where
  by_name : is_auto name ≡ false → lookup name r ≡ some m → Chosen os name r m
  preferred :
      (k : String)
      → is_auto name ≡ true
      → Among k (get_preferred_managers os)
      → lookup k r ≡ some m
      → Chosen os name r m

module _ {W : Type 0} (r : Registry W) (Good : PackageManager W → Type 0) where
  -- A manager that was returned is good, and was seen to be installed by the last thing that was done.
  abbrev pub Seen : Result (PackageManager W) × W → Type 0
  Seen (ok m, w') = Good m × (w : W) × (m.is_installed w ≡ (ok true, w'))
  Seen (err e, w') = Unit

  -- The managers of the registry under the names `ns` are good.
  abbrev AreGood : List String → Type 0
  AreGood ns = (k : String) (m : PackageManager W) → Among k ns → lookup k r ≡ some m → Good m

  detect_step :
      (os : String) (ns : List String) (m : PackageManager W) (w w1 : W) (answer : Result Bool)
      → Good m
      → m.is_installed w ≡ (answer, w1)
      → Seen (detect os ns r w1)
      → Seen (elim answer as (λ _. Result (PackageManager W) × W) [
        | err e ↦ detect os ns r w1
        | ok installed ↦ elim installed as (λ _. Result (PackageManager W) × W) [
          | true ↦ (ok m, w1)
          | false ↦ detect os ns r w1
        ]
      ])
  detect_step os ns m w w1 (err e) g h k = k
  detect_step os ns m w w1 (ok true) g h k = (g, w, h)
  detect_step os ns m w w1 (ok false) g h k = k

  detect_at :
      (os : String) (ns : List String) (w : W) (o : Option (PackageManager W))
      → ((m : PackageManager W) → o ≡ some m → Good m)
      → ((w : W) → Seen (detect os ns r w))
      → Seen (elim o as (λ _. Result (PackageManager W) × W) [
        | none ↦ detect os ns r w
        | some m ↦
            let (answer, w1) = m.is_installed w in
            elim answer as (λ _. Result (PackageManager W) × W) [
              | err e ↦ detect os ns r w1
              | ok installed ↦ elim installed as (λ _. Result (PackageManager W) × W) [
                | true ↦ (ok m, w1)
                | false ↦ detect os ns r w1
              ]
            ]
      ])
  detect_at os ns w none g h = h w
  detect_at os ns w (some m) g h =
      let (answer, w1) = m.is_installed w in detect_step os ns m w w1 answer (g m refl) refl (h w1)

  detect-Seen : (os : String) (ns : List String) (w : W) → AreGood ns → Seen (detect os ns r w)
  unfolding detect
  detect-Seen os [] w g = tt
  detect-Seen os (n ∷ ns) w g =
      detect_at os ns w (lookup n r) (λ m e. g n m (inl refl) e)
        (λ w. detect-Seen os ns w (λ k m i e. g k m (inr i) e))

  verified-Seen :
      (name : String) (m : PackageManager W) (p : Result Bool × W) (w : W)
      → Good m
      → m.is_installed w ≡ p
      → Seen (verified name m p)
  verified-Seen name m (err e, w') w g h = tt
  verified-Seen name m (ok true, w') w g h = (g, w, h)
  verified-Seen name m (ok false, w') w g h = tt

  installed_now-Seen :
      (name : String) (m : PackageManager W) (p : Result (Unit {0}) × W)
      → Good m
      → Seen (installed_now name m p)
  installed_now-Seen name m (err e, w) g = tt
  installed_now-Seen name m (ok u, w) g = verified-Seen name m (m.is_installed w) w g refl

  checked_first-Seen :
      (name : String) (m : PackageManager W) (p : Result Bool × W) (w : W)
      → Good m
      → m.is_installed w ≡ p
      → Seen (checked_first name m p)
  checked_first-Seen name m (err e, w') w g h = tt
  checked_first-Seen name m (ok true, w') w g h = (g, w, h)
  checked_first-Seen name m (ok false, w') w g h = installed_now-Seen name m (m.install w') g

  ensure_named-Seen :
      (name : String) (x : Result (PackageManager W)) (w : W)
      → ((m : PackageManager W) → x ≡ ok m → Good m)
      → Seen (ensure_named name x w)
  ensure_named-Seen name (err e) w g = tt
  ensure_named-Seen name (ok m) w g = checked_first-Seen name m (m.is_installed w) w (g m refl) refl

  install_step :
      (ns : List String) (m : PackageManager W) (w1 w2 : W) (done : Result (Unit {0}))
      (answer : Result Bool)
      → Good m
      → m.is_installed w1 ≡ (answer, w2)
      → ((last : Option Error) (w : W) → Seen (install_first ns last r w))
      → Seen (elim done as (λ _. Result (PackageManager W) × W) [
        | err e ↦ install_first ns (some e) r w1
        | ok u ↦ elim answer as (λ _. Result (PackageManager W) × W) [
          | err e ↦ install_first ns (some e) r w2
          | ok installed ↦ elim installed as (λ _. Result (PackageManager W) × W) [
            | true ↦ (ok m, w2)
            | false ↦ install_first ns (some (plain "not detected after installation")) r w2
          ]
        ]
      ])
  install_step ns m w1 w2 (err e) answer g h k = k (some e) w1
  install_step ns m w1 w2 (ok u) (err e) g h k = k (some e) w2
  install_step ns m w1 w2 (ok u) (ok true) g h k = (g, w1, h)
  install_step ns m w1 w2 (ok u) (ok false) g h k =
      k (some (plain "not detected after installation")) w2

  install_at :
      (ns : List String) (last : Option Error) (w : W) (o : Option (PackageManager W))
      → ((m : PackageManager W) → o ≡ some m → Good m)
      → ((last : Option Error) (w : W) → Seen (install_first ns last r w))
      → Seen (elim o as (λ _. Result (PackageManager W) × W) [
        | none ↦ install_first ns last r w
        | some m ↦
            let (done, w1) = m.install w in
            let (answer, w2) = m.is_installed w1 in
            elim done as (λ _. Result (PackageManager W) × W) [
              | err e ↦ install_first ns (some e) r w1
              | ok u ↦ elim answer as (λ _. Result (PackageManager W) × W) [
                | err e ↦ install_first ns (some e) r w2
                | ok installed ↦ elim installed as (λ _. Result (PackageManager W) × W) [
                  | true ↦ (ok m, w2)
                  | false ↦ install_first ns (some (plain "not detected after installation")) r w2
                ]
              ]
            ]
      ])
  install_at ns last w none g h = h last w
  install_at ns last w (some m) g h =
      let (done, w1) = m.install w in
      let (answer, w2) = m.is_installed w1 in install_step ns m w1 w2 done answer (g m refl) refl h

  install_first-Seen :
      (ns : List String) (last : Option Error) (w : W)
      → AreGood ns
      → Seen (install_first ns last r w)
  unfolding install_first
  install_first-Seen [] last w g = tt
  install_first-Seen (n ∷ ns) last w g =
      install_at ns last w (lookup n r) (λ m e. g n m (inl refl) e)
        (λ last w. install_first-Seen ns last w (λ k m i e. g k m (inr i) e))

  or_install-Seen :
      (names : List String) (p : Result (PackageManager W) × W)
      → AreGood names
      → Seen p
      → Seen (or_install names r p)
  or_install-Seen names (ok m, w) g h = h
  or_install-Seen [] (err e, w) g h = tt
  or_install-Seen (n ∷ ns) (err e, w) g h = install_first-Seen (n ∷ ns) none w g

  ensure_auto_detected-Seen :
      (os : String) (w : W)
      → AreGood (get_preferred_managers os)
      → Seen (ensure_auto_detected os r w)
  unfolding ensure_auto_detected auto_detect
  ensure_auto_detected-Seen os w g =
      or_install-Seen (get_preferred_managers os) (auto_detect os r w) g
        (detect-Seen os (get_preferred_managers os) w g)

module _ {W : Type 0} (r : Registry W) where
  present_or_inv :
      (e : Error) (o : Option (PackageManager W)) (m : PackageManager W)
      → present_or e o ≡ ok m
      → o ≡ some m
  present_or_inv e none m h = absurd (ground (arith, h))
  present_or_inv e (some x) m h = ground (arith, h)

  -- Whichever way EnsurePackageManager takes, the manager that it returns is chosen from the registry
  -- and answered the last check, with which it ends, that it is installed.
  pub ensure_package_manager-Seen :
      (os name : String) (w : W) → Seen r (Chosen os name r) (ensure_package_manager os name r w)
  unfolding ensure_package_manager get_manager
  ensure_package_manager-Seen os name w = elim (Bool-cases (is_auto name)) [
    | inl e ↦
        rw e (ensure_auto_detected-Seen r (Chosen os name r) os w (λ k m i h. preferred k e i h))
    | inr e ↦ rw e (
        ensure_named-Seen r (Chosen os name r) name (get_manager name r) w
          (λ m h. by_name e (present_or_inv _ (lookup name r) m h)))
  ]
