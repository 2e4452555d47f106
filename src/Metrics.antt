-- ===== src/Metrics.antt =====
-- hsm-core/src/metrics.rs: the figures of `getEnclaveMetrics`.
use picosignet.Prelude.{ℕ, ◌*◌}
use picosignet.Proto.Outer.{EnclaveMetricsResponse}
use picosignet.GoDuration.Reading.{Float64}

abbrev pub total_sram_bytes : ℕ
total_sram_bytes = 520 * 1024

module _ ⦃fl : Float64⦄ where
  -- The double of a small whole number is exact.
  unfoldable pub build : ℕ → ℕ → EnclaveMetricsResponse
  build uptime_us heap_free = record {
    cpu = record {
      user = fl.div (fl.of_int uptime_us) (fl.of_int 1000000);
      nice = fl.of_int 0;
      system = fl.of_int 0;
      idle = fl.of_int 0;
      iowait = fl.of_int 0;
      irq = fl.of_int 0;
      softirq = fl.of_int 0;
    };
    memory = record {
      total_bytes = total_sram_bytes;
      available_bytes = heap_free;
      free_bytes = heap_free;
      buffers_bytes = 0;
      cached_bytes = 0;
    };
  }
