-- ===== src/Annexb/Nalus.antt =====
-- The units that the splitter finds.
use playgate.Common.{
  ℕ, zero, suc, ◌+◌, ◌%◌, ◌≤◌, ◌<◌, ◌≡◌, ◌⊎◌, inl, inr, refl, sym, subst, Bool, true, false, Option,
  none, some, List, [], ◌∷◌, ltb, ltb→lt, leb, ◌==◌, if_cases, length, arith,
}
use playgate.Annexb.{
  NalUnit, byte, start_code_len, find_loop, find_start_code, new_nal, end_of, cons_nal, split_loop,
  or_nil, split_nalus,
}

-- A unit lies in the buffer, at a start code, which a payload follows.
pub record IsNal (buf : List ℕ) (n : NalUnit) : Type 0 where
  pub code : ℕ
  pub code_at : start_code_len buf n.start ≡ code
  pub code_pos : 3 ≤ code
  pub payload : n.start + code < n.end
  pub end_in : n.end ≤ length buf
  pub type_at : n.nal_type ≡ byte buf (n.start + code) % 32

-- Units in their order, apart from each other, from an offset on.
abbrev pub Ordered : List ℕ → ℕ → List NalUnit → Type 0
Ordered buf lo [] = Unit
Ordered buf lo (n ∷ ns) = (lo ≤ n.start) × IsNal buf n × Ordered buf n.end ns

-- What a search from an offset has found.
abbrev pub Found : List ℕ → ℕ → Option (ℕ × ℕ) → Type 0
Found buf lo none = Unit
Found buf lo (some (i, l)) = (lo ≤ i) × (start_code_len buf i ≡ l) × (3 ≤ l) × (i + l ≤ length buf)

start_code_len_room :
    (b : List ℕ) (i : ℕ)
    → (start_code_len b i ≡ 0) ⊎ ((3 ≤ start_code_len b i) × (i + start_code_len b i ≤ length b))
unfolding start_code_len
start_code_len_room b i = ground arith

Found-lower : (b : List ℕ) (lo i : ℕ) (c : Option (ℕ × ℕ)) → lo ≤ i → Found b i c → Found b lo c
Found-lower b lo i none le h = tt
Found-lower b lo i (some (j, l)) le h = (omega (arith, le, h.0), h.1, h.2, h.3)

find_loop-Found : (n : ℕ) (b : List ℕ) (i : ℕ) → Found b i (find_loop n b i)
unfolding find_loop
find_loop-Found zero b i = tt
find_loop-Found (suc n) b i =
    if_cases (Found b i) (leb (i + 3) (length b)) _ none
      (λ _.
        if_cases (Found b i) (start_code_len b i == 0) _ _
          (λ _. Found-lower b i (i + 1) _ (omega arith) (find_loop-Found n b (i + 1)))
          (λ e. elim (start_code_len_room b i) [
            | inl z ↦ ground arith
            | inr h ↦ (omega arith, refl, h.0, h.1)
          ]))
      (λ _. tt)

pub find_start_code-Found : (b : List ℕ) (i : ℕ) → Found b i (find_start_code b i)
unfolding find_start_code
find_start_code-Found b i = find_loop-Found (length b) b i

-- Fuel that a search's result leaves enough of.
abbrev Enough : ℕ → List ℕ → Option (ℕ × ℕ) → Type 0
Enough fuel buf none = Unit
Enough fuel buf (some (i, l)) = length buf < fuel + i

end_of-Found :
    (b : List ℕ) (lo : ℕ) (c : Option (ℕ × ℕ))
    → lo ≤ length b
    → Found b lo c
    → (lo ≤ end_of b c) × (end_of b c ≤ length b)
unfolding end_of
end_of-Found b lo none le h = (le, omega arith)
end_of-Found b lo (some (i, l)) le h = (h.0, omega (arith, h.2, h.3))

Enough-next :
    (fuel : ℕ) (b : List ℕ) (start l : ℕ) (c : Option (ℕ × ℕ))
    → 3 ≤ l
    → length b < suc fuel + start
    → Found b (start + l) c
    → Enough fuel b c
Enough-next fuel b start l none p e h = tt
Enough-next fuel b start l (some (i, k)) p e h = omega (arith, h.0, p, e)

-- A result of the loop, with its units in order from an offset on.
abbrev pub Splits : List ℕ → ℕ → Option (List NalUnit) → Type 0
Splits buf lo none = ⊥
Splits buf lo (some ns) = Ordered buf lo ns

Ordered-lower :
    (b : List ℕ) (lo i : ℕ) (ns : List NalUnit) → lo ≤ i → Ordered b i ns → Ordered b lo ns
Ordered-lower b lo i [] le h = tt
Ordered-lower b lo i (n ∷ ns) le h = (omega (arith, le, h.0), h.1, h.2)

cons_nal-Splits :
    (b : List ℕ) (lo : ℕ) (t : Bool) (n : NalUnit) (rest : Option (List NalUnit))
    → lo ≤ n.start
    → n.start ≤ n.end
    → (t ≡ true → IsNal b n)
    → Splits b n.end rest
    → Splits b lo (cons_nal t n rest)
unfolding cons_nal
cons_nal-Splits b lo true n none le order f h = h
cons_nal-Splits b lo true n (some ns) le order f h = (le, f refl, h)
cons_nal-Splits b lo false n none le order f h = h
cons_nal-Splits b lo false n (some ns) le order f h =
    Ordered-lower b lo n.end ns (omega (arith, le, order)) h

new_nal-IsNal :
    (b : List ℕ) (start l end : ℕ)
    → start_code_len b start ≡ l
    → 3 ≤ l
    → end ≤ length b
    → ltb (start + l) end ≡ true
    → IsNal b (new_nal b start (start + l) end)
unfolding new_nal
new_nal-IsNal b start l end code pos high t = record {
  code = l;
  code_at = code;
  code_pos = pos;
  payload = ltb→lt _ _ t;
  end_in = high;
  type_at = ground arith;
}

Found-end : (b : List ℕ) (lo : ℕ) (c : Option (ℕ × ℕ)) → Found b lo c → Found b (end_of b c) c
unfolding end_of
Found-end b lo none h = tt
Found-end b lo (some (i, l)) h = (omega arith, h.1, h.2, h.3)

split_loop-Splits :
    (fuel : ℕ) (b : List ℕ) (lo : ℕ) (c : Option (ℕ × ℕ))
    → Found b lo c
    → Enough fuel b c
    → Splits b lo (split_loop fuel b c)
unfolding split_loop new_nal
split_loop-Splits zero b lo none h e = tt
split_loop-Splits (suc fuel) b lo none h e = tt
split_loop-Splits zero b lo (some (start, l)) h e = absurd (omega (arith, e, h.3))
split_loop-Splits (suc fuel) b lo (some (start, l)) h e =
    let next = find_start_code b (start + l) in
    let found = find_start_code-Found b (start + l) in
    let ends = end_of-Found b (start + l) next h.3 found in
    cons_nal-Splits b lo _ (new_nal b start (start + l) (end_of b next)) _ h.0
      (omega (arith, ends.0)) (new_nal-IsNal b start l (end_of b next) h.1 h.2 ends.1)
      (split_loop-Splits fuel b (end_of b next) next (Found-end b _ next found)
        (Enough-next fuel b start l next h.2 e found))

Enough-all : (b : List ℕ) (c : Option (ℕ × ℕ)) → Found b 0 c → Enough (suc (length b)) b c
Enough-all b none h = tt
Enough-all b (some (i, l)) h = omega arith

Splits-Ordered :
    (b : List ℕ) (o : Option (List NalUnit))
    → Splits b 0 o
    → (ns : List NalUnit) × (o ≡ some ns) × (or_nil o ≡ ns) × Ordered b 0 ns
unfolding or_nil
Splits-Ordered b none h = absurd h
Splits-Ordered b (some ns) h = (ns, refl, refl, h)

-- The fuel of `splitNALUs` is enough for every buffer: its loop ends with units that lie in the
-- buffer in their order, each at a start code, with a payload and of the type in its first byte.
pub split_loop-Ordered :
    (b : List ℕ)
    → (ns : List NalUnit) × (split_loop (suc (length b)) b (find_start_code b 0) ≡ some ns)
      × (split_nalus b ≡ ns)
      × Ordered b 0 ns
unfolding split_nalus
split_loop-Ordered b =
    let found = find_start_code-Found b 0 in
    Splits-Ordered b _ (split_loop-Splits _ b 0 _ found (Enough-all b _ found))

pub split_nalus-Ordered : (b : List ℕ) → Ordered b 0 (split_nalus b)
split_nalus-Ordered b = let s = split_loop-Ordered b in subst (λ ns. Ordered b 0 ns) (sym s.2) s.3
