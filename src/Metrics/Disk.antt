-- ===== src/Metrics/Disk.antt =====
-- internal/metrics/disk.go: GetDiskIO and the monitor of the disks' rates. The counters that gopsutil
-- reports are a parameter; all are uint64. A map is a list of pairs, in the order of the visit.
pub mod Deltas
use castle_ops_client.Prelude.{
  ℕ, ◌+◌, ◌-◌, String, Option, none, some, List, [], ◌∷◌, map, leb, if◌then◌else◌, wrapped, Error,
  Result, ok, err,
}
use castle_ops_client.Prelude.Assoc.{Assoc, lookup}

-- The fields of disk.IOCountersStat that are read.
pub record DiskCounters : Type 0 where
  pub read_count : ℕ
  pub write_count : ℕ
  pub read_bytes : ℕ
  pub write_bytes : ℕ
  pub read_time : ℕ
  pub write_time : ℕ
  pub io_time : ℕ
  pub merged_read_count : ℕ
  pub merged_write_count : ℕ

pub record DiskIoStats : Type 0 where
  pub name : String
  pub read_count : ℕ
  pub write_count : ℕ
  pub read_bytes : ℕ
  pub write_bytes : ℕ
  pub read_time : ℕ
  pub write_time : ℕ
  pub io_time : ℕ
  pub merged_reads : ℕ
  pub merged_writes : ℕ

pub record DiskIoRates : Type 0 where
  pub name : String
  pub read_ops : ℕ
  pub write_ops : ℕ
  pub read_bytes : ℕ
  pub write_bytes : ℕ

pub record DiskIoMonitor : Type 0 where
  pub last_stats : Assoc DiskIoStats

abbrev pub new_disk_io_monitor : DiskIoMonitor
new_disk_io_monitor = record { last_stats = [] }

abbrev pub stats_of : String → DiskCounters → DiskIoStats
stats_of name counter = record {
  name = name;
  read_count = counter.read_count;
  write_count = counter.write_count;
  read_bytes = counter.read_bytes;
  write_bytes = counter.write_bytes;
  read_time = counter.read_time;
  write_time = counter.write_time;
  io_time = counter.io_time;
  merged_reads = counter.merged_read_count;
  merged_writes = counter.merged_write_count;
}

-- GetDiskIO
unfoldable pub get_disk_io : Result (Assoc DiskCounters) → Result (Assoc DiskIoStats)
get_disk_io (err e) = err (wrapped "failed to get disk I/O stats" e)
get_disk_io (ok counters) = ok (map (λ entry. (entry.0, stats_of entry.0 entry.1)) counters)

-- The difference of two uint64, which wraps around at 2^64.
abbrev pub wrapping_sub : ℕ → ℕ → ℕ
wrapping_sub current last =
    if leb last current then current - last else current + 18_446_744_073_709_551_616 - last

abbrev pub disk_rates_between : String → DiskIoStats → DiskIoStats → DiskIoRates
disk_rates_between name current last = record {
  name = name;
  read_ops = wrapping_sub current.read_count last.read_count;
  write_ops = wrapping_sub current.write_count last.write_count;
  read_bytes = wrapping_sub current.read_bytes last.read_bytes;
  write_bytes = wrapping_sub current.write_bytes last.write_bytes;
}

abbrev pub add_disk_rates :
    String → DiskIoStats → Option DiskIoStats → Assoc DiskIoRates → Assoc DiskIoRates
add_disk_rates name current none rates = rates
add_disk_rates name current (some last) rates = (name, disk_rates_between name current last) ∷ rates

-- The loop over the current stats.
unfoldable pub disk_rates : Assoc DiskIoStats → Assoc DiskIoStats → Assoc DiskIoRates
disk_rates last [] = []
disk_rates last (entry ∷ current) =
    add_disk_rates entry.0 entry.1 (lookup entry.0 last) (disk_rates last current)

abbrev update_from :
    Assoc DiskIoStats → Assoc DiskIoStats → Result (Option (Assoc DiskIoRates)) × DiskIoMonitor
unfolding disk_rates
update_from [] current = (ok none, record { last_stats = current })
update_from (l ∷ last) current =
    (ok (some (disk_rates (l ∷ last) current)), record { last_stats = current })

abbrev updated :
    DiskIoMonitor → Result (Assoc DiskIoStats) → Result (Option (Assoc DiskIoRates)) × DiskIoMonitor
unfolding update_from
updated m (err e) = (err e, m)
updated m (ok current) = update_from m.last_stats current

-- Update; `none` for a nil map.
unfoldable pub update_disk_io :
    Result (Assoc DiskCounters)
    → DiskIoMonitor
    → Result (Option (Assoc DiskIoRates)) × DiskIoMonitor
unfolding get_disk_io updated
update_disk_io counters m = updated m (get_disk_io counters)
