-- ===== src/Metrics/Collectors.antt =====
-- internal/metrics/cpu.go, memory.go, disk.go and network.go: the four collectors. What gopsutil
-- and the clock answer in a cycle is a parameter, the machine, and so is the race between an
-- answer and the end of the context.
use castle_ops_client.Prelude.{
  ℕ, ◌-◌, String, Bool, true, false, Option, none, some, List, [], ◌∷◌, ltb, str_eq, if◌then◌else◌,
  plain, wrapped, Result, ok, err,
}
use castle_ops_client.Prelude.Int.{ℤ}
use castle_ops_client.Cache.Types.{Time, Float64}
use castle_ops_client.Api.Http.{CtxError, ctx_err}
use castle_ops_client.Metrics.Average.{
  Arithmetic, MovingAverage, new_moving_average, add_sample, get_average, reset,
}
use castle_ops_client.Metrics.Buffer.{
  MetricsBuffer, update_cpu, update_memory, update_disk, update_network,
}
use castle_ops_client.Metrics.Network.{IoCounters}
use Prim.Native.String.{◌++◌ as str_append}

-- What the select of a Collect finds first.
pub data Reading (A : Type 0) : Type 0 where
  reported : Result A → Reading A
  context_done : CtxError → Reading A

-- The fields of mem.VirtualMemoryStat and disk.UsageStat that the collectors read.
pub record VirtualMemoryStat : Type 0 where
  pub total : ℕ
  pub used : ℕ
  pub available : ℕ
  pub used_percent : Float64

pub record UsageStat : Type 0 where
  pub total : ℕ
  pub used : ℕ
  pub free : ℕ
  pub used_percent : Float64

-- The machine in one cycle: the clock before and after the readings, the time that the context
-- leaves, and the readings. The percentages depend on the interval of the sample.
pub record Machine : Type 0 where
  pub now : Time
  pub finished : Time
  pub remaining : Option ℕ
  pub cpu_percent : ℕ → Reading (List Float64)
  pub virtual_memory : Reading VirtualMemoryStat
  pub usage : String → Reading UsageStat
  pub io_counters : Reading (List IoCounters)

pub record CpuCollector : Type 0 where
  pub moving_avg : MovingAverage Float64
  pub last_sample_time : Time

pub record MemoryCollector : Type 0 where
  pub moving_avg : MovingAverage Float64

pub record DiskCollector : Type 0 where
  pub moving_avg : MovingAverage Float64
  pub mount_point : String

pub record NetworkCollector : Type 0 where
  pub last_bytes_received : ℕ
  pub last_bytes_sent : ℕ
  pub initialized : Bool

abbrev pub get_default_mount_point : String → String
get_default_mount_point os = if str_eq os "windows" then "C:" else "/"

abbrev pub mount_or_default : String → String → String
mount_or_default os mount_point =
    if str_eq mount_point "" then get_default_mount_point os else mount_point

-- How long the CPU is sampled, in nanoseconds.
abbrev pub longest_interval : ℕ → ℕ
longest_interval since_last = if ltb 5000000000 since_last then 1000000000 else 100000000

abbrev pub within : Option ℕ → ℕ → ℕ
within none interval = interval
within (some remaining) interval = if ltb remaining interval then 0 else interval

abbrev pub sampling_interval : Machine → CpuCollector → ℕ
sampling_interval m c = within m.remaining (longest_interval (m.now - c.last_sample_time))

abbrev pub new_network_collector : NetworkCollector
new_network_collector = record { last_bytes_received = 0; last_bytes_sent = 0; initialized = false }

abbrev pub reset_network : NetworkCollector → NetworkCollector
reset_network c = record { last_bytes_received = 0; last_bytes_sent = 0; initialized = false }

-- The first collection reports 0; the later ones the totals that the counters have.
abbrev pub counted : IoCounters → NetworkCollector → MetricsBuffer → MetricsBuffer
counted counter c b =
    if c.initialized
    then update_network counter.bytes_recv counter.bytes_sent b
    else update_network 0 0 b

abbrev pub collect_network :
    Reading (List IoCounters)
    → NetworkCollector
    → MetricsBuffer
    → Result (Unit {0}) × NetworkCollector × MetricsBuffer
collect_network (reported (err e)) c b = (err (wrapped "network collection failed" e), c, b)
collect_network (reported (ok [])) c b = (err (plain "no network counter data returned"), c, b)
collect_network (reported (ok (counter ∷ counters))) c b = (
  ok tt,
  record {
    last_bytes_received = counter.bytes_recv;
    last_bytes_sent = counter.bytes_sent;
    initialized = true;
  },
  counted counter c b,
)
collect_network (context_done x) c b = (err (ctx_err x), c, b)

module _ (a : Arithmetic Float64) where
  abbrev pub new_cpu_collector : Time → ℤ → CpuCollector
  new_cpu_collector now window = record {
    moving_avg = new_moving_average a window;
    last_sample_time = now;
  }

  abbrev pub new_memory_collector : ℤ → MemoryCollector
  new_memory_collector window = record { moving_avg = new_moving_average a window }

  abbrev pub new_disk_collector : String → ℤ → String → DiskCollector
  new_disk_collector os window mount_point = record {
    moving_avg = new_moving_average a window;
    mount_point = mount_or_default os mount_point;
  }

  abbrev pub cpu_sample :
      Time
      → Float64
      → CpuCollector
      → MetricsBuffer
      → Result (Unit {0}) × CpuCollector × MetricsBuffer
  cpu_sample now percent c b =
      let (smoothed, avg) = add_sample a percent c.moving_avg in
      (ok tt, record { moving_avg = avg; last_sample_time = now }, update_cpu smoothed b)

  -- Where the context is done first, the last average is reported beside the error.
  abbrev pub collect_cpu :
      Time
      → Reading (List Float64)
      → CpuCollector
      → MetricsBuffer
      → Result (Unit {0}) × CpuCollector × MetricsBuffer
  collect_cpu now (reported (err e)) c b = (err (wrapped "cpu collection failed" e), c, b)
  collect_cpu now (reported (ok [])) c b =
      (err (wrapped "cpu collection failed" (plain "no CPU percentage data returned")), c, b)
  collect_cpu now (reported (ok (p ∷ ps))) c b = cpu_sample now p c b
  collect_cpu now (context_done x) c b =
      (err (ctx_err x), c, update_cpu (get_average a c.moving_avg) b)

  abbrev pub collect_memory :
      Reading VirtualMemoryStat
      → MemoryCollector
      → MetricsBuffer
      → Result (Unit {0}) × MemoryCollector × MetricsBuffer
  collect_memory (reported (err e)) c b = (err (wrapped "memory collection failed" e), c, b)
  collect_memory (reported (ok v)) c b =
      let (smoothed, avg) = add_sample a v.used_percent c.moving_avg in
      (ok tt, record { moving_avg = avg }, update_memory v.total v.used v.available smoothed b)
  collect_memory (context_done x) c b = (err (ctx_err x), c, b)

  abbrev pub collect_disk :
      Reading UsageStat
      → DiskCollector
      → MetricsBuffer
      → Result (Unit {0}) × DiskCollector × MetricsBuffer
  collect_disk (reported (err e)) c b =
      (err (wrapped (str_append "disk collection failed for " c.mount_point) e), c, b)
  collect_disk (reported (ok u)) c b =
      let (smoothed, avg) = add_sample a u.used_percent c.moving_avg in
      (ok tt, record c { moving_avg = avg }, update_disk u.total u.used u.free smoothed b)
  collect_disk (context_done x) c b = (err (ctx_err x), c, b)

  abbrev pub reset_cpu : Time → CpuCollector → CpuCollector
  reset_cpu now c = record { moving_avg = reset a c.moving_avg; last_sample_time = now }

  abbrev pub reset_memory : MemoryCollector → MemoryCollector
  reset_memory c = record { moving_avg = reset a c.moving_avg }

  abbrev pub reset_disk : DiskCollector → DiskCollector
  reset_disk c = record c { moving_avg = reset a c.moving_avg }

  abbrev pub set_mount_point : String → DiskCollector → DiskCollector
  set_mount_point mount_point c = record {
    moving_avg = reset a c.moving_avg;
    mount_point = mount_point;
  }
