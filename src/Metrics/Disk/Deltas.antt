-- ===== src/Metrics/Disk/Deltas.antt =====
-- The rates of the disks in internal/metrics/disk.go.
use castle_ops_client.Prelude.{
  ℕ, ◌+◌, ◌<◌, ◌≡◌, refl, ◌∙◌, ◌⊎◌, inl, inr, false, Bool-cases, String, str_eq, eq_iff, Option,
  none, some, [], ◌∷◌, leb, arith,
}
use castle_ops_client.Prelude.Assoc.{Assoc, lookup}
use castle_ops_client.Metrics.Disk.{
  DiskIoStats, DiskIoRates, wrapping_sub, disk_rates_between, add_disk_rates, disk_rates,
}

-- The rate of a disk that is in both maps.
abbrev pub both : String → Option DiskIoStats → Option DiskIoStats → Option DiskIoRates
both name none last = none
both name (some current) none = none
both name (some current) (some last) = some (disk_rates_between name current last)

both-none : (name : String) (current : Option DiskIoStats) → both name current none ≡ none
both-none name none = refl
both-none name (some c) = refl

-- The difference is exact where the counter wrapped at most once: the last value and the difference
-- give the current one, modulo 2^64.
pub wrapping_sub_lem :
    (current last : ℕ)
    → current < 18_446_744_073_709_551_616
    → last < 18_446_744_073_709_551_616
    → (wrapping_sub current last < 18_446_744_073_709_551_616)
      × ((last + wrapping_sub current last ≡ current)
          ⊎ (last + wrapping_sub current last ≡ current + 18_446_744_073_709_551_616))
wrapping_sub_lem current last h k = elim (Bool-cases (leb last current)) [
  | inl e ↦ rw e (ground (arith, h, k, e), inl (ground (arith, e)))
  | inr e ↦ rw e (ground (arith, h, k, e), inr (ground (arith, k, e)))
]

rates_here :
    (name : String) (current : DiskIoStats) (o stats : Option DiskIoStats)
    (rates : Assoc DiskIoRates)
    → lookup name rates ≡ both name stats o
    → lookup name (add_disk_rates name current o rates) ≡ both name (some current) o
unfolding lookup
rates_here name current none stats rates h = h ∙ both-none name stats
rates_here name current (some last) stats rates h = rw ((eq_iff name name).1 refl) refl

rates_elsewhere :
    (name other : String) (current : DiskIoStats) (o : Option DiskIoStats)
    (rates : Assoc DiskIoRates)
    → str_eq other name ≡ false
    → lookup name (add_disk_rates other current o rates) ≡ lookup name rates
unfolding lookup
rates_elsewhere name other current none rates h = refl
rates_elsewhere name other current (some last) rates h = rw h refl

-- The rates of a cycle are those of the disks that both cycles know, and no others.
pub lookup-disk_rates :
    (name : String) (last current : Assoc DiskIoStats)
    → lookup name (disk_rates last current) ≡ both name (lookup name current) (lookup name last)
unfolding lookup disk_rates
lookup-disk_rates name last [] = refl
lookup-disk_rates name last (entry ∷ current) =
    let later = lookup-disk_rates name last current in
    elim (Bool-cases (str_eq entry.0 name)) [
      | inl e ↦
          rw (e, (eq_iff entry.0 name).0 e)
            (rates_here name entry.1 (lookup name last) (lookup name current)
              (disk_rates last current) later)
      | inr e ↦ rw e (
          rates_elsewhere name entry.0 entry.1 (lookup entry.0 last) (disk_rates last current) e
          ∙ later)
    ]
