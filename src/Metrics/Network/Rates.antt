-- ===== src/Metrics/Network/Rates.antt =====
-- What the rates of internal/metrics/network.go are, and what they add up to.
use castle_ops_client.Prelude.{
  ℕ, ◌+◌, ◌≤◌, ◌≡◌, refl, sym, ◌∙◌, String, Option, none, some, List, [], ◌∷◌, arith, str_eq,
  eq_iff, if◌then◌else◌, Result, ok, err, ap, Bool-cases, inl, inr,
}
use castle_ops_client.Prelude.Assoc.{Assoc, lookup, insert, lookup-insert}
use castle_ops_client.Metrics.Network.{
  IoCounters, NetworkRates, NetworkRateMonitor, rates_between, store_stats, add_rates,
  collect_rates, update,
}

-- The last counters with a name.
abbrev pub or_else : {A : Type 0} → Option A → Option A → Option A
or_else none d = d
or_else (some a) d = some a

abbrev pub latest : String → List IoCounters → Option IoCounters
latest name [] = none
latest name (c ∷ cs) = or_else (latest name cs) (if str_eq c.name name then some c else none)

-- The rates of an interface that is there now and was there before.
abbrev pub rates_of : Option IoCounters → Option IoCounters → Option NetworkRates
rates_of (some current) (some last) = some (rates_between current last)
rates_of (some current) none = none
rates_of none last = none

lookup-store_stats :
    (name : String) (stats : List IoCounters) (last : Assoc IoCounters)
    → lookup name (store_stats stats last) ≡ or_else (latest name stats) (lookup name last)
unfolding store_stats
lookup-store_stats name [] last = refl
lookup-store_stats name (c ∷ cs) last =
    let later = lookup-store_stats name cs (insert c.name c last) in
    let here = lookup-insert c.name name c last in ground (arith, later, here)

lookup-added :
    (name : String) (c : IoCounters) (l : Option IoCounters) (rates : Assoc NetworkRates)
    → lookup name (add_rates c l rates) ≡ (
        if str_eq c.name name
        then or_else (rates_of (some c) l) (lookup name rates)
        else lookup name rates)
lookup-added name c none rates = ground arith
lookup-added name c (some l) rates = lookup-insert c.name name (rates_between c l) rates

lookup-add_rates :
    (name : String) (c : IoCounters) (last : Assoc IoCounters) (rates : Assoc NetworkRates)
    → lookup name (add_rates c (lookup c.name last) rates)
      ≡ or_else
          (rates_of (if str_eq c.name name then some c else none) (lookup name last))
          (lookup name rates)
lookup-add_rates name c last rates = elim (Bool-cases (str_eq c.name name)) [
  | inl same ↦
      let names : c.name ≡ name = (eq_iff c.name name).0 same in
      let found : lookup c.name last ≡ lookup name last = ap (λ n. lookup n last) names in
      let added = lookup-added name c (lookup c.name last) rates in
      ground (arith, added, found, same)
  | inr other ↦
      let added = lookup-added name c (lookup c.name last) rates in ground (arith, added, other)
]

lookup-collect_rates :
    (name : String) (last : Assoc IoCounters) (stats : List IoCounters) (rates : Assoc NetworkRates)
    → lookup name (collect_rates last stats rates)
      ≡ or_else (rates_of (latest name stats) (lookup name last)) (lookup name rates)
unfolding collect_rates
lookup-collect_rates name last [] rates = refl
lookup-collect_rates name last (c ∷ cs) rates =
    let later = lookup-collect_rates name last cs (add_rates c (lookup c.name last) rates) in
    let here = lookup-add_rates name c last rates in ground (arith, later, here)

or_else-none : {A : Type 0} (o : Option A) → or_else o none ≡ o
or_else-none none = refl
or_else-none (some a) = refl

rates_of-none : (o : Option IoCounters) → rates_of o none ≡ none
rates_of-none none = refl
rates_of-none (some c) = refl

lookup-collect_rates_first :
    (name : String) (last : Assoc IoCounters) (stats : List IoCounters)
    → lookup name (collect_rates last stats []) ≡ rates_of (latest name stats) (lookup name last)
lookup-collect_rates_first name last stats =
    lookup-collect_rates name last stats []
    ∙ unfold lookup in or_else-none (rates_of (latest name stats) (lookup name last))

-- What an update tells of an interface: its rates, and the counters that are kept for the next one.
abbrev pub rates_for : String → Result (Option (Assoc NetworkRates)) → Option NetworkRates
rates_for name (ok (some rates)) = lookup name rates
rates_for name (ok none) = none
rates_for name (err e) = none

-- An update gives the rates of exactly the interfaces that it reports and that an earlier update
-- reported, each from the last counters with its name, and keeps the last counters of every interface
-- that was ever reported.
pub update_rates :
    (name : String) (stats : List IoCounters) (m : NetworkRateMonitor)
    → (rates_for name (update (ok stats) m).0
        ≡ rates_of (latest name stats) (lookup name m.last_stats))
      × (lookup name (update (ok stats) m).1.last_stats
          ≡ or_else (latest name stats) (lookup name m.last_stats))
unfolding update
update_rates name stats m = split m.last_stats
  where
    split :
        (last : Assoc IoCounters)
        → (rates_for name (update (ok stats) (record { last_stats = last })).0
            ≡ rates_of (latest name stats) (lookup name last))
          × (lookup name (update (ok stats) (record { last_stats = last })).1.last_stats
              ≡ or_else (latest name stats) (lookup name last))
    split [] =
        (sym (unfold lookup in rates_of-none (latest name stats)), lookup-store_stats name stats [])
    split (l ∷ ls) =
        (lookup-collect_rates_first name (l ∷ ls) stats, lookup-store_stats name stats (l ∷ ls))

abbrev received : Option NetworkRates → ℕ
received none = 0
received (some r) = r.bytes_recv_delta

-- The bytes that a row of updates reports as received.
abbrev pub total_received : String → List (List IoCounters) → NetworkRateMonitor → ℕ
total_received name [] m = 0
total_received name (stats ∷ rest) m =
    let (rates, m') = update (ok stats) m in
    received (rates_for name rates) + total_received name rest m'

abbrev pick : IoCounters → Option IoCounters → IoCounters
pick l none = l
pick l (some c) = c

-- The last counters of an interface in a row of updates.
abbrev pub final : String → List (List IoCounters) → IoCounters → IoCounters
final name [] l = l
final name (stats ∷ rest) l = final name rest (pick l (latest name stats))

-- The counter of the received bytes does not fall; the interface may be away for a while.
abbrev pub Rises : String → List (List IoCounters) → IoCounters → Type 0
Rises name [] l = Unit
Rises name (stats ∷ rest) l =
    (l.bytes_recv ≤ (pick l (latest name stats)).bytes_recv)
    × Rises name rest (pick l (latest name stats))

received_once :
    (l : IoCounters) (c : Option IoCounters)
    → l.bytes_recv ≤ (pick l c).bytes_recv
    → received (rates_of c (some l)) + l.bytes_recv ≡ (pick l c).bytes_recv
received_once l none h = omega arith
received_once l (some c) h = ground arith

kept : (l : IoCounters) (c o : Option IoCounters) → o ≡ some l → or_else c o ≡ some (pick l c)
kept l none o h = h
kept l (some c) o h = refl

-- If the counter of the received bytes of an interface that was reported does not fall, the bytes that
-- a row of updates reports add up to what the counter grew by, also where the interface is away in
-- between.
pub total_received_lem :
    (name : String) (batches : List (List IoCounters)) (m : NetworkRateMonitor) (l : IoCounters)
    → lookup name m.last_stats ≡ some l
    → Rises name batches l
    → total_received name batches m + l.bytes_recv ≡ (final name batches l).bytes_recv
total_received_lem name [] m l h r = omega arith
total_received_lem name (stats ∷ rest) m l h (up, r) =
    let c = latest name stats in
    let (rates, m') = update (ok stats) m in
    let (told, stored) = update_rates name stats m in
    let later = total_received_lem name rest m' (pick l c) (stored ∙ kept l c _ h) r in
    let once = received_once l c up in
    let same : received (rates_for name rates) ≡ received (rates_of c (some l)) =
      ap received (told ∙ ap (rates_of c) h) in
    omega (arith, later, once, same)
