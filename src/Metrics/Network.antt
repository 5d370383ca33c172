-- ===== src/Metrics/Network.antt =====
-- internal/metrics/network.go: the monitor of the network's rates. The counters that gopsutil
-- reports are a parameter of an update. All counters are uint64.
pub mod Rates
use castle_ops_client.Prelude.{
  ℕ, ◌-◌, String, Option, none, some, List, [], ◌∷◌, leb, if◌then◌else◌, wrapped, Error, Result, ok,
  err,
}
use castle_ops_client.Prelude.Assoc.{Assoc, lookup, insert}

-- The fields of net.IOCountersStat that are read.
pub record IoCounters : Type 0 where
  pub name : String
  pub bytes_recv : ℕ
  pub bytes_sent : ℕ
  pub packets_recv : ℕ
  pub packets_sent : ℕ
  pub err_in : ℕ
  pub err_out : ℕ
  pub drop_in : ℕ
  pub drop_out : ℕ

pub record NetworkRates : Type 0 where
  pub name : String
  pub bytes_recv_delta : ℕ
  pub bytes_sent_delta : ℕ
  pub packets_recv_delta : ℕ
  pub packets_sent_delta : ℕ
  pub errors_in_delta : ℕ
  pub errors_out_delta : ℕ
  pub drops_in_delta : ℕ
  pub drops_out_delta : ℕ

pub record NetworkRateMonitor : Type 0 where
  pub last_stats : Assoc IoCounters

abbrev pub new_network_rate_monitor : NetworkRateMonitor
new_network_rate_monitor = record { last_stats = [] }

abbrev pub safe_delta : ℕ → ℕ → ℕ
safe_delta current last = if leb last current then current - last else current

abbrev pub rates_between : IoCounters → IoCounters → NetworkRates
rates_between current last = record {
  name = current.name;
  bytes_recv_delta = safe_delta current.bytes_recv last.bytes_recv;
  bytes_sent_delta = safe_delta current.bytes_sent last.bytes_sent;
  packets_recv_delta = safe_delta current.packets_recv last.packets_recv;
  packets_sent_delta = safe_delta current.packets_sent last.packets_sent;
  errors_in_delta = safe_delta current.err_in last.err_in;
  errors_out_delta = safe_delta current.err_out last.err_out;
  drops_in_delta = safe_delta current.drop_in last.drop_in;
  drops_out_delta = safe_delta current.drop_out last.drop_out;
}

-- for _, stat := range currentStats { lastStats[stat.Name] = stat }
unfoldable pub store_stats : List IoCounters → Assoc IoCounters → Assoc IoCounters
store_stats [] last = last
store_stats (stat ∷ stats) last = store_stats stats (insert stat.name stat last)

abbrev pub add_rates : IoCounters → Option IoCounters → Assoc NetworkRates → Assoc NetworkRates
add_rates current none rates = rates
add_rates current (some last) rates = insert current.name (rates_between current last) rates

unfoldable pub collect_rates :
    Assoc IoCounters → List IoCounters → Assoc NetworkRates → Assoc NetworkRates
collect_rates last [] rates = rates
collect_rates last (current ∷ stats) rates =
    collect_rates last stats (add_rates current (lookup current.name last) rates)

abbrev update_from :
    Assoc IoCounters → List IoCounters → Option (Assoc NetworkRates) × NetworkRateMonitor
update_from [] stats = (none, record { last_stats = store_stats stats [] })
update_from (l ∷ ls) stats =
    (some (collect_rates (l ∷ ls) stats []), record { last_stats = store_stats stats (l ∷ ls) })

-- `none` for a nil map.
unfoldable pub update :
    Result (List IoCounters)
    → NetworkRateMonitor
    → Result (Option (Assoc NetworkRates)) × NetworkRateMonitor
unfolding store_stats collect_rates
update (err e) m = (err (wrapped "failed to get network stats" e), m)
update (ok stats) m = let (rates, m') = update_from m.last_stats stats in (ok rates, m')
