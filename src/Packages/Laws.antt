-- ===== src/Packages/Laws.antt =====
-- What internal/packagemgr/manager.go asks of a package manager.
use castle_ops_client.Prelude.{
  String, ◌≡◌, ◌≢◌, Bool, true, false, str_eq, eq_iff, All, Result, ok, err, arith,
}
use castle_ops_client.Prelude.Assoc.{values}
use castle_ops_client.Packages.{Registry, PackageManager, not_installed}

-- The manager was found by a check from which nothing followed.
abbrev pub Found : {W : Type 0} → PackageManager W → Result (Unit {0}) × W → Type 0
Found {W} m (ok u, w') = (w : W) × (m.is_installed w ≡ (ok true, w'))
Found m (err e, w') = Unit

abbrev pub Answers : {W : Type 0} → Result Bool × W → Type 0
Answers (r, w) = (b : Bool) × (r ≡ ok b)

-- Where the manager is missing, an operation on a package says so and does nothing more.
abbrev pub Refuses : {W : Type 0} → (String → W → Result (Unit {0}) × W) → PackageManager W → Type 0
Refuses {W} act m =
    (name : String) (w w' : W)
    → name ≢ ""
    → m.is_installed w ≡ (ok false, w')
    → act name w ≡ (err not_installed, w')

pub record Lawful {W : Type 0} (m : PackageManager W) : Type 0 where
  pub checks : (w : W) → Answers (m.is_installed w)
  pub installs : (w : W) → Found m (m.install w)
  pub uninstalls : Refuses m.uninstall_package m
  pub updates : Refuses m.update_package m

abbrev pub AllLawful : {W : Type 0} → Registry W → Type 0
AllLawful r = All (λ m. Lawful m) (values r)

pub not_blank : (name : String) → name ≢ "" → str_eq name "" ≡ false
not_blank name h = ground (arith, h, eq_iff name "")

-- The same for a check that is given by itself.
abbrev pub Checked : {W : Type 0} → (W → Result Bool × W) → Result (Unit {0}) × W → Type 0
Checked {W} check (ok u, w') = (w : W) × (check w ≡ (ok true, w'))
Checked check (err e, w') = Unit
