-- ===== src/Collectors/Node/Gopsutil.antt =====
-- What collectors/node uses of the vendored package gopsutil, as a parameter, and Go's arithmetic on floats, which is given by bit patterns.
use dcos_metrics.Prelude.{ℕ, String, Bool, Option, List}
use dcos_metrics.Prelude.Int.{ℤ}

pub record TimesStat : Type 0 where
  pub user : ℕ
  pub system : ℕ
  pub idle : ℕ
  pub nice : ℕ
  pub iowait : ℕ
  pub irq : ℕ
  pub softirq : ℕ
  pub steal : ℕ
  pub guest : ℕ
  pub guest_nice : ℕ
  pub stolen : ℕ

pub record FloatOps : Type 0 where
  pub add : ℕ → ℕ → ℕ
  pub sub : ℕ → ℕ → ℕ
  pub mul : ℕ → ℕ → ℕ
  pub div : ℕ → ℕ → ℕ
  pub floor : ℕ → ℕ
  -- `math.Max`
  pub max : ℕ → ℕ → ℕ
  pub is_zero : ℕ → Bool
  -- of a whole number, and of a half
  pub of_int : ℕ → ℕ
  pub half : ℕ
  -- gopsutil's `TimesStat.Total`
  pub total : TimesStat → ℕ

pub record Usage : Type 0 where
  pub path : String
  pub total : ℕ
  pub used : ℕ
  pub free : ℕ
  pub inodes_total : ℕ
  pub inodes_used : ℕ
  pub inodes_free : ℕ

pub record VirtualMemory : Type 0 where
  pub total : ℕ
  pub free : ℕ
  pub buffers : ℕ
  pub cached : ℕ

pub record SwapMemory : Type 0 where
  pub total : ℕ
  pub free : ℕ
  pub used : ℕ

pub record IoCounters : Type 0 where
  pub name : String
  pub bytes_recv : ℕ
  pub bytes_sent : ℕ
  pub packets_recv : ℕ
  pub packets_sent : ℕ
  pub dropin : ℕ
  pub dropout : ℕ
  pub errin : ℕ
  pub errout : ℕ

-- What the calls answer during one poll; `none` is an error.
pub record Host : Type 0 where
  pub uptime : Option ℕ
  -- the cores of each CPU, `int32`
  pub cpu_info : Option (List ℤ)
  pub cpu_times : Option TimesStat
  pub load_avg : Option (ℕ × ℕ × ℕ)
  pub partitions : Option (List String)
  pub usage : String → Option Usage
  pub virtual_memory : Option VirtualMemory
  pub swap_memory : Option SwapMemory
  pub io_counters : Option (List IoCounters)
  pub procs : Option ℕ
