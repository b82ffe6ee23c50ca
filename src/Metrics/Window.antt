-- ===== src/Metrics/Window.antt =====
-- What a histogram retains of a sequence of observations.
use playgate.Common.{
  ℕ, suc, ◌+◌, ◌%◌, ◌≤◌, ◌<◌, ◌≡◌, ◌∙◌, refl, sym, subst, ap, true, false, List, [], ◌∷◌, ◌++◌,
  append_assoc, append-nil, ◌==◌, if◌then◌else◌, Bool-cases, ltb→lt, inl, inr, length, get_or,
  length-append, get_or-append, get_or_last, leb, ltb, arith,
}
use playgate.Common.Int.{ℤ, pos}
use playgate.Metrics.{Histogram, new_histogram, set, observe, observe_all, ring_size}

-- How many of so many observations are retained.
abbrev pub retained : ℕ → ℕ
retained k = if ltb k ring_size then k else ring_size

-- A histogram after a sequence of observations: it counts those retained, and each of the last ones
-- stands at its index modulo the size of the ring.
pub record Retains (log : List ℤ) (h : Histogram) : Type 0 where
  pub count : h.n ≡ retained (length log)
  pub next_at : h.next ≡ length log % ring_size
  pub filled_at : h.filled ≡ leb ring_size (length log)
  pub kept :
      (j : ℕ)
      → j < length log
      → length log ≤ j + ring_size
      → h.buf (j % ring_size) ≡ get_or log j (pos 0)

-- The arithmetic of one more observation.
next_step : (k : ℕ) → (k % ring_size + 1) % ring_size ≡ suc k % ring_size
next_step k = omega arith

filled_step :
    (k : ℕ) → (if suc k % ring_size == 0 then true else leb ring_size k) ≡ leb ring_size (suc k)
filled_step k = ground arith

count_step :
    (k : ℕ) → (if leb ring_size (suc k) then ring_size else suc k % ring_size) ≡ retained (suc k)
count_step k = ground arith

new_slot : (j k : ℕ) → j ≡ k → (j % ring_size == k % ring_size) ≡ true
new_slot j k e = ground arith

old_slot : (j k : ℕ) → j < k → suc k ≤ j + ring_size → (j % ring_size == k % ring_size) ≡ false
old_slot j k lt le = ground arith

observe-kept :
    (log : List ℤ) (h : Histogram) (d : ℤ)
    → Retains log h
    → (j : ℕ) → j < suc (length log)
    → suc (length log) ≤ j + ring_size
    → set h.buf h.next d (j % ring_size) ≡ get_or (log ++ d ∷ []) j (pos 0)
observe-kept log h d r j lt le = elim (Bool-cases (ltb j (length log))) [
  | inl t ↦
      let earlier = ltb→lt j (length log) t in
      let slot = old_slot j (length log) earlier le in
      rw r.next_at (
        rw slot (
          r.kept j earlier (omega (arith, le))
          ∙ sym (get_or-append log (d ∷ []) j (pos 0) earlier)))
  | inr f ↦
      let now : j ≡ length log = ground arith in
      let slot = new_slot j (length log) now in
      rw r.next_at (
        rw slot
          (sym (get_or_last log d (pos 0)) ∙ ap (λ i. get_or (log ++ d ∷ []) i (pos 0)) (sym now)))
]

observe-Retains :
    (log : List ℤ) (h : Histogram) (d : ℤ) → Retains log h → Retains (log ++ d ∷ []) (observe h d)
unfolding observe
observe-Retains log h d r =
    let n : length (log ++ d ∷ []) ≡ suc (length log) =
      length-append log (d ∷ []) ∙ (let e : length log + 1 ≡ suc (length log) = omega arith in e) in
    let next : (h.next + 1) % ring_size ≡ suc (length log) % ring_size =
      ap (λ i. (i + 1) % ring_size) r.next_at ∙ next_step (length log) in
    let filled : (if (h.next + 1) % ring_size == 0 then true else h.filled)
        ≡ leb ring_size (suc (length log)) =
      rw next (rw r.filled_at (filled_step (length log))) in
    record {
      count = rw n (rw filled (rw next (count_step (length log))));
      next_at = rw n next;
      filled_at = rw n filled;
      kept = λ j lt le. observe-kept log h d r j (omega (arith, lt, n)) (omega (arith, le, n));
    }

observe_all-keeps :
    (log ds : List ℤ) (h : Histogram) → Retains log h → Retains (log ++ ds) (observe_all h ds)
unfolding observe_all
observe_all-keeps log [] h r = subst (λ l. Retains l h) (sym (append-nil log)) r
observe_all-keeps log (d ∷ ds) h r =
    subst (λ l. Retains l (observe_all (observe h d) ds)) (append_assoc log (d ∷ []) ds)
      (observe_all-keeps (log ++ d ∷ []) ds (observe h d) (observe-Retains log h d r))

-- A new histogram after any observations counts them, 600 at most, and holds the last 600 of them.
pub observe_all-Retains : (ds : List ℤ) → Retains ds (observe_all new_histogram ds)
observe_all-Retains ds = observe_all-keeps [] ds new_histogram record {
  count = refl;
  next_at = refl;
  filled_at = refl;
  kept = λ j lt le. absurd (omega (arith, lt));
}
