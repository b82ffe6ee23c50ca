-- ===== src/Metrics/Maximum.antt =====
-- The snapshot's count and maximum.
use playgate.Common.{
  ℕ, zero, suc, ◌+◌, ◌-◌, ◌%◌, ◌≤◌, ◌<◌, ◌≡◌, ◌≢◌, ◌∙◌, refl, sym, subst, ap, true, false, List, [],
  ◌∷◌, ◌==◌, if_cases, length, get_or, All, arith,
}
use playgate.Common.Int.{ℤ, pos, leb_ℤ, ◌≤ℤ◌}
use playgate.Common.Float.{Float64}
use playgate.Metrics.{
  Histogram, new_histogram, observe_all, samples_from, insert, sort, Stats, stats_of, snapshot,
  ring_size,
}
use playgate.Metrics.Window.{retained, observe_all-Retains}

abbrev last_of : List ℤ → ℤ
last_of [] = pos 0
last_of (x ∷ []) = x
last_of (x ∷ y ∷ ys) = last_of (y ∷ ys)

last_of-get_or : (x : ℤ) (xs : List ℤ) → get_or (x ∷ xs) (length xs) (pos 0) ≡ last_of (x ∷ xs)
last_of-get_or x [] = refl
last_of-get_or x (y ∷ ys) = last_of-get_or y ys

le_trans : (a b c : ℤ) → a ≤ℤ b → b ≤ℤ c → a ≤ℤ c
le_trans a b c h k = ground arith

le_total : (a b : ℤ) → leb_ℤ a b ≡ false → b ≤ℤ a
le_total a b h = ground arith

le_of : (a b : ℤ) → leb_ℤ a b ≡ true → a ≤ℤ b
le_of a b h = ground arith

le_refl : (a : ℤ) → a ≤ℤ a
le_refl a = omega arith

-- No element is above the last.
abbrev Top : List ℤ → Type 0
Top xs = All (λ x. x ≤ℤ last_of xs) xs

All-raise : (m k : ℤ) (xs : List ℤ) → m ≤ℤ k → All (λ x. x ≤ℤ m) xs → All (λ x. x ≤ℤ k) xs
All-raise m k [] le h = tt
All-raise m k (x ∷ xs) le h = (le_trans x m k h.0 le, All-raise m k xs le h.1)

-- Insertion gives a list with a last element above the one before.
record Inserted (d : ℤ) (xs result : List ℤ) : Type 0 where
  pub top : Top result
  pub above : xs ≢ [] → last_of xs ≤ℤ last_of result
  pub above_new : d ≤ℤ last_of result
  pub size : length result ≡ suc (length xs)

tail-Top : (x : ℤ) (xs : List ℤ) → Top (x ∷ xs) → Top xs
tail-Top x [] h = tt
tail-Top x (y ∷ ys) h = h.1

above_tail :
    (x : ℤ) (xs result : List ℤ)
    → x ≤ℤ last_of result
    → (xs ≢ [] → last_of xs ≤ℤ last_of result)
    → last_of (x ∷ xs) ≤ℤ last_of result
above_tail x [] result le h = le
above_tail x (y ∷ ys) result le h = h (λ e. cc)

-- Insertion behind a first element.
cons-Inserted :
    (x d : ℤ) (xs result : List ℤ)
    → x ≤ℤ d
    → Inserted d xs result
    → Inserted d (x ∷ xs) (x ∷ result)
cons-Inserted x d xs [] le r = absurd (let n = r.size in omega (arith, n))
cons-Inserted x d xs (y ∷ ys) le r =
    let low = le_trans x d (last_of (y ∷ ys)) le r.above_new in
    record {
      top = (low, r.top);
      above = λ _. above_tail x xs (y ∷ ys) low r.above;
      above_new = r.above_new;
      size = let n = r.size in omega (arith, n);
    }

insert-Inserted : (d : ℤ) (xs : List ℤ) → Top xs → Inserted d xs (insert d xs)
unfolding insert
insert-Inserted d [] h = record {
  top = (le_refl d, tt);
  above = λ n. absurd (n refl);
  above_new = le_refl d;
  size = refl;
}
insert-Inserted d (x ∷ xs) h =
    if_cases (Inserted d (x ∷ xs)) (leb_ℤ d x) (d ∷ x ∷ xs) (x ∷ insert d xs)
      (λ t.
        let le = le_trans d x (last_of (x ∷ xs)) (le_of d x t) h.0 in
        record {
          top = (le, h);
          above = λ _. le_refl (last_of (x ∷ xs));
          above_new = le;
          size = refl;
        })
      (λ f.
        cons-Inserted x d xs (insert d xs) (le_total d x f)
          (insert-Inserted d xs (tail-Top x xs h)))

sort-Top : (xs : List ℤ) → Top (sort xs) × (length (sort xs) ≡ length xs)
unfolding sort
sort-Top [] = (tt, refl)
sort-Top (x ∷ xs) =
    let rest = sort-Top xs in
    let r = insert-Inserted x (sort xs) rest.0 in (r.top, r.size ∙ ap suc rest.1)

-- What all of a sorted list has, all of the list has.
All-insert : (P : ℤ → Type 0) (d : ℤ) (xs : List ℤ) → All P (insert d xs) → P d × All P xs
unfolding insert
All-insert P d [] h = h
All-insert P d (x ∷ xs) h =
    if_cases (λ l. All P l → P d × All P (x ∷ xs)) (leb_ℤ d x) (d ∷ x ∷ xs) (x ∷ insert d xs)
      (λ _ a. a) (λ _ a. let r = All-insert P d xs a.1 in (r.0, (a.0, r.1))) h

All-sort : (P : ℤ → Type 0) (xs : List ℤ) → All P (sort xs) → All P xs
unfolding sort
All-sort P [] h = tt
All-sort P (x ∷ xs) h = let r = All-insert P x (sort xs) h in (r.0, All-sort P xs r.1)

All-samples_from :
    (P : ℤ → Type 0) (buf : ℕ → ℤ) (i n k : ℕ)
    → All P (samples_from buf i n)
    → k < n
    → P (buf (i + k))
unfolding samples_from
All-samples_from P buf i zero k h lt = absurd (omega (arith, lt))
All-samples_from P buf i (suc n) zero h lt =
    subst (λ m. P (buf m)) (let e : i ≡ i + 0 = omega arith in e) h.0
All-samples_from P buf i (suc n) (suc k) h lt =
    subst (λ m. P (buf m)) (let e : i + 1 + k ≡ i + suc k = omega arith in e)
      (All-samples_from P buf (i + 1) n k h.1 (omega (arith, lt)))

length-samples_from : (buf : ℕ → ℤ) (i n : ℕ) → length (samples_from buf i n) ≡ n
unfolding samples_from
length-samples_from buf i zero = refl
length-samples_from buf i (suc n) = ap suc (length-samples_from buf (i + 1) n)

last_at : (xs : List ℤ) (n : ℕ) → length xs ≡ n → n ≢ 0 → get_or xs (n - 1) (pos 0) ≡ last_of xs
last_at [] n e z = absurd (z (sym e))
last_at (x ∷ xs) n e z =
    let k : n - 1 ≡ length xs = omega (arith, e) in
    ap (λ i. get_or (x ∷ xs) i (pos 0)) k ∙ last_of-get_or x xs

snapshot_max-eq :
    (F : Float64) (h : Histogram)
    → h.n ≢ 0
    → (snapshot F h).max ≡ get_or (sort (samples_from h.buf 0 h.n)) (h.n - 1) (pos 0)
unfolding snapshot stats_of
snapshot_max-eq F h z = let e : (h.n == 0) ≡ false = ground arith in rw e refl

-- The maximum of a snapshot bounds the first n slots.
snapshot-max : (F : Float64) (h : Histogram) (k : ℕ) → k < h.n → h.buf k ≤ℤ (snapshot F h).max
snapshot-max F h k lt =
    let samples = samples_from h.buf 0 h.n in
    let sorted = sort-Top samples in
    let z : h.n ≢ 0 = λ e. omega (arith, lt, e) in
    let m =
      snapshot_max-eq F h z
      ∙ last_at (sort samples) h.n (sorted.1 ∙ length-samples_from h.buf 0 h.n) z in
    let all = All-sort (λ x. x ≤ℤ last_of (sort samples)) samples sorted.0 in
    let bound = All-samples_from (λ x. x ≤ℤ last_of (sort samples)) h.buf 0 h.n k all lt in
    subst (λ x. h.buf k ≤ℤ x) (sym m)
      (subst (λ i. h.buf i ≤ℤ last_of (sort samples)) (let e : 0 + k ≡ k = omega arith in e) bound)

snapshot-count : (F : Float64) (h : Histogram) → (snapshot F h).count ≡ h.n
unfolding snapshot stats_of
snapshot-count F h =
    if_cases (λ (s : Stats F). s.count ≡ h.n) (h.n == 0) _ _ (λ e. ground arith) (λ _. refl)

slot_below : (j k : ℕ) → j < k → k ≤ j + ring_size → j % ring_size < retained k
slot_below j k lt le = ground arith

-- The snapshot of a new histogram after any observations counts them, 600 at most, and none of the
-- last 600 is above its maximum.
pub observe_all-snapshot :
    (F : Float64) (ds : List ℤ)
    → ((snapshot F (observe_all new_histogram ds)).count ≡ retained (length ds))
      × ((j : ℕ)
          → j < length ds
          → length ds ≤ j + ring_size
          → get_or ds j (pos 0) ≤ℤ (snapshot F (observe_all new_histogram ds)).max)
observe_all-snapshot F ds =
    let h = observe_all new_histogram ds in
    let r = observe_all-Retains ds in
    (
      snapshot-count F h ∙ r.count,
      λ j lt le.
          let slot = slot_below j (length ds) lt le in
          subst (λ x. x ≤ℤ (snapshot F h).max) (r.kept j lt le)
            (snapshot-max F h (j % ring_size) (subst (λ n. j % ring_size < n) (sym r.count) slot)),
    )
