-- ===== src/Metrics.antt =====
-- playgate-host/internal/metrics/latency.go: the histograms of the stages. Durations are `int64`
-- nanoseconds, and the array of a histogram is a function of its index. `sort.Slice` by `<` is
-- sorting by insertion. Logging and JSON are not modelled.
mod Examples
pub mod Window
pub mod Maximum
use playgate.Common.{
  ℕ, zero, suc, ◌+◌, ◌-◌, ◌%◌, Bool, true, false, not, List, [], ◌∷◌, ltb, leb, ◌==◌, if◌then◌else◌,
  length, get_or,
}
use playgate.Common.Int.{ℤ, pos, pos_part, leb_ℤ, ltb_ℤ}
use playgate.Common.Float.{Float64}

abbrev pub ring_size : ℕ
ring_size = 600

-- `Histogram`.
pub record Histogram : Type 0 where
  pub buf : ℕ → ℤ
  pub n : ℕ
  pub next : ℕ
  pub filled : Bool

-- `NewHistogram`.
abbrev pub new_histogram : Histogram
new_histogram = record { buf = λ _. pos 0; n = 0; next = 0; filled = false }

abbrev pub set : (ℕ → ℤ) → ℕ → ℤ → ℕ → ℤ
set buf i d k = if k == i then d else buf k

-- `Observe`.
unfoldable pub observe : Histogram → ℤ → Histogram
observe h d =
    let next = (h.next + 1) % ring_size in
    let filled = if next == 0 then true else h.filled in
    record {
      buf = set h.buf h.next d;
      n = if filled then ring_size else next;
      next = next;
      filled = filled;
    }

unfoldable pub observe_all : Histogram → List ℤ → Histogram
unfolding observe
observe_all h [] = h
observe_all h (d ∷ ds) = observe_all (observe h d) ds

-- `buf[i : i + n]`.
unfoldable pub samples_from : (ℕ → ℤ) → ℕ → ℕ → List ℤ
samples_from buf i zero = []
samples_from buf i (suc n) = buf i ∷ samples_from buf (i + 1) n

unfoldable pub insert : ℤ → List ℤ → List ℤ
insert d [] = d ∷ []
insert d (x ∷ xs) = let rest = insert d xs in if leb_ℤ d x then d ∷ x ∷ xs else x ∷ rest

unfoldable pub sort : List ℤ → List ℤ
unfolding insert
sort [] = []
sort (x ∷ xs) = insert x (sort xs)

module _ (F : Float64) where
  -- `percentile`, of the p-th part for a constant p.
  unfoldable pub percentile : List ℤ → F.Carrier → ℤ
  percentile samples p =
      let n = length samples in
      let rank = F.to_int (F.mul p (F.of_int (pos (n - 1)))) in
      let low = if ltb_ℤ rank (pos 0) then pos 0 else rank in
      let high = if leb_ℤ (pos n) low then pos (n - 1) else low in
      if n == 1 then get_or samples 0 (pos 0) else get_or samples (pos_part high) (pos 0)

  -- `Stats`.
  pub record Stats : Type 0 where
    pub count : ℕ
    pub p50 : ℤ
    pub p95 : ℤ
    pub max : ℤ

  unfoldable pub stats_of : ℕ → List ℤ → Stats
  unfolding percentile
  stats_of n samples = record {
    count = n;
    p50 = percentile samples (F.lit 50 100);
    p95 = percentile samples (F.lit 95 100);
    max = get_or samples (n - 1) (pos 0);
  }

  -- `Snapshot`.
  unfoldable pub snapshot : Histogram → Stats
  unfolding stats_of sort samples_from
  snapshot h =
      if h.n == 0
      then record { count = 0; p50 = pos 0; p95 = pos 0; max = pos 0 }
      else stats_of h.n (sort (samples_from h.buf 0 h.n))

-- `Collector`.
pub record Collector : Type 0 where
  pub capture : Histogram
  pub encode : Histogram
  pub rtc : Histogram
  pub input : Histogram
  pub daemon_apply : Histogram
  pub e2e_rtt : Histogram

-- `NewCollector`.
abbrev pub new_collector : Collector
new_collector = record {
  capture = new_histogram;
  encode = new_histogram;
  rtc = new_histogram;
  input = new_histogram;
  daemon_apply = new_histogram;
  e2e_rtt = new_histogram;
}
