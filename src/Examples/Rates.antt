-- ===== src/Examples/Rates.antt =====
-- internal/metrics/network.go and disk.go
use castle_ops_client.Prelude.{ℕ, ◌≡◌, refl, String}
use castle_ops_client.Metrics.Disk.{wrapping_sub}
use castle_ops_client.Metrics.Network.{IoCounters, rates_between}

abbrev counters : String → ℕ → IoCounters
counters name n = record {
  name = name;
  bytes_recv = n;
  bytes_sent = 1;
  packets_recv = 2;
  packets_sent = 3;
  err_in = 0;
  err_out = 0;
  drop_in = 0;
  drop_out = 0;
}

-- The counter was reset, and its whole new value is reported.
after_reset : (rates_between (counters "eth0" 30) (counters "eth0" 100)).bytes_recv_delta ≡ 30
after_reset = refl

-- The disk monitor reports nearly 2^64 after a reset.
after_disk_reset : wrapping_sub 5 10 ≡ 18_446_744_073_709_551_611
after_disk_reset = refl
