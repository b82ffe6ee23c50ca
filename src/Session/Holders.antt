-- ===== src/Session/Holders.antt =====
-- The entries that hold or wait for control, as a list of pointers into the store.
use native.Mathlib.Decide.{ℕ_discrete}
use playgate.Common.{
  ℕ, suc, ◌≤◌, ◌<◌, ◌≡◌, sym, ap, ◌∙◌, subst, ◌≢◌, Bool, false, Option, none, some, List, [], ◌∷◌,
  ◌++◌, All, All-append, All-map, arith, ◌==◌, if_cases, length,
}
use playgate.Session.{SessionEntry, update, remove_first}

abbrev pub NotIn : ℕ → List ℕ → Type 0
NotIn k = All (λ j. j ≢ k)

abbrev pub Distinct : List ℕ → Type 0
Distinct [] = Unit
Distinct (i ∷ is) = NotIn i is × Distinct is

-- The entries that hold or wait for control, in order.
abbrev pub holders_of : Option ℕ → List ℕ → List ℕ
holders_of none q = q
holders_of (some a) q = a ∷ q

pub update_self {ℓ} : {A : Type ℓ} (f : ℕ → A) (i : ℕ) (v : A) → update f i v i ≡ v
unfolding update
update_self f i v = ground arith

pub update_ne {ℓ} : {A : Type ℓ} (f : ℕ → A) (i j : ℕ) (v : A) → j ≢ i → update f i v j ≡ f j
unfolding update
update_ne f i j v h = ground arith

pub All-update {ℓ κ} :
    {A : Type ℓ} (P : A → Type κ) (f : ℕ → A) (k : ℕ) (v : A) (is : List ℕ)
    → NotIn k is
    → All (λ i. P (f i)) is
    → All (λ i. P (update f k v i)) is
All-update P f k v [] h p = tt
All-update P f k v (i ∷ is) h p =
    (subst P (sym (update_ne f k i v h.0)) p.0, All-update P f k v is h.1 p.1)

pub NotIn-of_below : (k : ℕ) (is : List ℕ) → All (λ i. i < k) is → NotIn k is
NotIn-of_below k [] h = tt
NotIn-of_below k (i ∷ is) h = (λ e. absurd (ground arith), NotIn-of_below k is h.1)

Distinct-snoc : (k : ℕ) (is : List ℕ) → Distinct is → NotIn k is → Distinct (is ++ k ∷ [])
Distinct-snoc k [] d h = (tt, tt)
Distinct-snoc k (i ∷ is) d h =
    (All-append (λ j. j ≢ i) is (k ∷ []) d.0 ((λ e. h.0 (sym e)), tt), Distinct-snoc k is d.1 h.1)

-- The holders are known and distinct, and until the shutdown none is cancelled or has closed gates.
pub record Good (n : ℕ) (es : ℕ → SessionEntry) (stopped : Bool) (hs : List ℕ) : Type 0 where
  pub allocated : All (λ i. i < n) hs
  pub distinct : Distinct hs
  pub live : stopped ≡ false → All (λ i. (es i).cancelled ≡ false) hs
  pub open_gates : stopped ≡ false → All (λ i. (es i).gates_done ≡ false) hs

abbrev pub IsFresh : SessionEntry → Type 0
IsFresh e = (e.cancelled ≡ false) × (e.gates_done ≡ false)

module _ {n : ℕ} {es : ℕ → SessionEntry} {stopped : Bool} (e : SessionEntry) where
  pub Good-update :
      {hs : List ℕ} (k : ℕ) → NotIn k hs → Good n es stopped hs → Good n (update es k e) stopped hs
  Good-update {hs} k h g = record {
    allocated = g.allocated;
    distinct = g.distinct;
    live = λ s. All-update (λ (x : SessionEntry). x.cancelled ≡ false) es k e hs h (g.live s);
    open_gates =
        λ s. All-update (λ (x : SessionEntry). x.gates_done ≡ false) es k e hs h (g.open_gates s);
  }

  pub Good-suc : {hs : List ℕ} → Good n es stopped hs → Good (suc n) (update es n e) stopped hs
  Good-suc {hs} g =
      let g' = Good-update n (NotIn-of_below n hs g.allocated) g in
      record {
        allocated = All-map _ _ (λ i h. omega arith) hs g.allocated;
        distinct = g'.distinct;
        live = g'.live;
        open_gates = g'.open_gates;
      }

  pub Good-cons :
      {hs : List ℕ}
      → IsFresh e
      → Good n es stopped hs
      → Good (suc n) (update es n e) stopped (n ∷ hs)
  Good-cons {hs} f g =
      let g' = Good-suc g in
      record {
        allocated = (omega arith, g'.allocated);
        distinct = (NotIn-of_below n hs g.allocated, g.distinct);
        live = λ s. (rw (update_self es n e) f.0, g'.live s);
        open_gates = λ s. (rw (update_self es n e) f.1, g'.open_gates s);
      }

  pub Good-snoc :
      {hs : List ℕ}
      → IsFresh e
      → Good n es stopped hs
      → Good (suc n) (update es n e) stopped (hs ++ n ∷ [])
  Good-snoc {hs} f g =
      let g' = Good-suc g in
      record {
        allocated = All-append _ hs (n ∷ []) g'.allocated (omega arith, tt);
        distinct = Distinct-snoc n hs g.distinct (NotIn-of_below n hs g.allocated);
        live = λ s. All-append _ hs (n ∷ []) (g'.live s) (rw (update_self es n e) f.0, tt);
        open_gates =
            λ s. All-append _ hs (n ∷ []) (g'.open_gates s) (rw (update_self es n e) f.1, tt);
      }

pub update_same {ℓ κ} :
    {A : Type ℓ} {B : Type κ} (p : A → B) (f : ℕ → A) (k : ℕ) (v : A) (i : ℕ)
    → p v ≡ p (f k)
    → p (update f k v i) ≡ p (f i)
update_same p f k v i h = elim (ℕ_discrete i k) [
  | yes e ↦
      ap (λ j. p (update f k v j)) e ∙ ap p (update_self f k v) ∙ h ∙ ap (λ j. p (f j)) (sym e)
  | no ne ↦ ap p (update_ne f k i v ne)
]

-- A write that keeps both flags of an entry.
pub Good-touch :
    {n : ℕ} {es : ℕ → SessionEntry} {stopped : Bool} {hs : List ℕ} (e : SessionEntry) (k : ℕ)
    → e.cancelled ≡ (es k).cancelled
    → e.gates_done ≡ (es k).gates_done
    → Good n es stopped hs
    → Good n (update es k e) stopped hs
Good-touch {es} {hs} e k hc hg g = record {
  allocated = g.allocated;
  distinct = g.distinct;
  live = λ s.
      All-map _ _ (λ i p. update_same (λ (x : SessionEntry). x.cancelled) es k e i hc ∙ p) hs
        (g.live s);
  open_gates = λ s.
      All-map _ _ (λ i p. update_same (λ (x : SessionEntry). x.gates_done) es k e i hg ∙ p) hs
        (g.open_gates s);
}

pub Good-tail :
    {n : ℕ} {es : ℕ → SessionEntry} {stopped : Bool} {i : ℕ} {hs : List ℕ}
    → Good n es stopped (i ∷ hs)
    → Good n es stopped hs
Good-tail g = record {
  allocated = g.allocated.1;
  distinct = g.distinct.1;
  live = λ s. (g.live s).1;
  open_gates = λ s. (g.open_gates s).1;
}

module _ {κ} (P : ℕ → Type κ) where
  pub All-remove_first : (k : ℕ) (is : List ℕ) → All P is → All P (remove_first k is)
  unfolding remove_first
  All-remove_first k [] h = h
  All-remove_first k (i ∷ is) h =
      if_cases (All P) (i == k) is _ (λ _. h.1) (λ _. (h.0, All-remove_first k is h.1))

Distinct-remove_first : (k : ℕ) (is : List ℕ) → Distinct is → Distinct (remove_first k is)
unfolding remove_first
Distinct-remove_first k [] h = h
Distinct-remove_first k (i ∷ is) h =
    if_cases Distinct (i == k) is _ (λ _. h.1)
      (λ _. (All-remove_first (λ j. j ≢ i) k is h.0, Distinct-remove_first k is h.1))

-- In a list without repetition the removed pointer is gone.
pub NotIn-remove_first : (k : ℕ) (is : List ℕ) → Distinct is → NotIn k (remove_first k is)
unfolding remove_first
NotIn-remove_first k [] h = tt
NotIn-remove_first k (i ∷ is) h =
    if_cases (NotIn k) (i == k) is _ (λ e. subst (λ j. NotIn j is) (ground arith) h.0)
      (λ n. ((λ e. absurd (ground arith)), NotIn-remove_first k is h.1))

pub length-remove_first : (k : ℕ) (is : List ℕ) → length (remove_first k is) ≤ length is
unfolding remove_first
length-remove_first k [] = omega arith
length-remove_first k (i ∷ is) = ground (arith, length-remove_first k is)

pub Good-remove_first :
    {n : ℕ} {es : ℕ → SessionEntry} {stopped : Bool} {hs : List ℕ} (k : ℕ)
    → Good n es stopped hs
    → Good n es stopped (remove_first k hs)
Good-remove_first {hs} k g = record {
  allocated = All-remove_first _ k hs g.allocated;
  distinct = Distinct-remove_first k hs g.distinct;
  live = λ s. All-remove_first _ k hs (g.live s);
  open_gates = λ s. All-remove_first _ k hs (g.open_gates s);
}

pub Good-behind :
    {n : ℕ} {es : ℕ → SessionEntry} {stopped : Bool} {a : ℕ} {hs : List ℕ} (k : ℕ)
    → Good n es stopped (a ∷ hs)
    → Good n es stopped (a ∷ remove_first k hs)
Good-behind {hs} k g = record {
  allocated = (g.allocated.0, All-remove_first _ k hs g.allocated.1);
  distinct = (All-remove_first _ k hs g.distinct.0, Distinct-remove_first k hs g.distinct.1);
  live = λ s. ((g.live s).0, All-remove_first _ k hs (g.live s).1);
  open_gates = λ s. ((g.open_gates s).0, All-remove_first _ k hs (g.open_gates s).1);
}
