-- ===== src/Annexb/Front.antt =====
-- The front of a buffer: a start code, and what does not change it.
use playgate.Common.{
  ℕ, zero, suc, ◌+◌, ◌≤◌, ◌<◌, ◌≡◌, ◌∙◌, refl, sym, subst, ap, true, Option, none, some, List, [],
  ◌∷◌, ◌++◌, ltb, length, get_or, drop, length-drop, length-append, get_or-append, arith,
}
use playgate.Annexb.{
  NalUnit, byte, start_code_len, find_loop, find_start_code, split_nalus, split_loop, new_nal,
  end_of, cons_nal,
}
use playgate.Annexb.Nalus.{
  IsNal, Ordered, split_nalus-Ordered, split_loop-Ordered, Found, find_start_code-Found,
}

zero_add : (i : ℕ) → 0 + i ≡ i
zero_add i = omega arith

suc_add : (i k : ℕ) → suc (i + k) ≡ suc i + k
suc_add i k = omega arith

pub get_or-drop : (i j : ℕ) (b : List ℕ) → get_or (drop i b) j 0 ≡ get_or b (i + j) 0
get_or-drop zero j b = ap (λ k. get_or b k 0) (omega arith)
get_or-drop (suc i) j [] = refl
get_or-drop (suc i) j (x ∷ b) = get_or-drop i j b ∙ ap (λ k. get_or (x ∷ b) k 0) (suc_add i j)

pub drop-drop : (i k : ℕ) (b : List ℕ) → drop k (drop i b) ≡ drop (i + k) b
drop-drop zero k b = ap (λ n. drop n b) (omega arith)
drop-drop (suc i) zero [] = ap (λ n. drop n []) (let e : suc i ≡ suc i + 0 = omega arith in e)
drop-drop (suc i) (suc k) [] = ap (λ n. drop n []) (suc_add i (suc k))
drop-drop (suc i) k (x ∷ b) = drop-drop i k b ∙ ap (λ n. drop n (x ∷ b)) (suc_add i k)

-- A buffer at whose front stands a start code, and after it a byte other than 0.
pub record Sync (b : List ℕ) : Type 0 where
  pub code : ℕ
  pub code_at : start_code_len b 0 ≡ code
  pub code_pos : 3 ≤ code
  pub room : code < length b
  pub next_pos : 0 < byte b code

start_code_len-drop :
    (i : ℕ) (b : List ℕ) → i ≤ length b → start_code_len (drop i b) 0 ≡ start_code_len b i
unfolding start_code_len
start_code_len-drop i b h = ground (
  arith,
  get_or-drop i 0 b,
  get_or-drop i 1 b,
  get_or-drop i 2 b,
  get_or-drop i 3 b,
  length-drop i b,
)

-- Bytes that follow change nothing at the front.
pub start_code_len-append :
    (b r : List ℕ) → 4 ≤ length b → start_code_len (b ++ r) 0 ≡ start_code_len b 0
unfolding start_code_len
start_code_len-append b r h =
    let e0 = get_or-append b r 0 0 (omega (arith, h)) in
    let e1 = get_or-append b r 1 0 (omega (arith, h)) in
    let e2 = get_or-append b r 2 0 (omega (arith, h)) in
    let e3 = get_or-append b r 3 0 (omega (arith, h)) in
    let n : length (b ++ r) ≡ length b + length r = length-append b r in ground arith

pub Sync-append : (b r : List ℕ) → Sync b → Sync (b ++ r)
Sync-append b r h = record {
  code = h.code;
  code_at = start_code_len-append b r (omega (arith, h.code_pos, h.room)) ∙ h.code_at;
  code_pos = h.code_pos;
  room = omega (arith, h.room, length-append b r);
  next_pos = subst (λ x. 0 < x) (sym (get_or-append b r h.code 0 h.room)) h.next_pos;
}

pub Sync-prefix : (b r : List ℕ) (h : Sync (b ++ r)) → h.code < length b → Sync b
Sync-prefix b r h lt = record {
  code = h.code;
  code_at = sym (start_code_len-append b r (omega (arith, h.code_pos, lt))) ∙ h.code_at;
  code_pos = h.code_pos;
  room = lt;
  next_pos = subst (λ x. 0 < x) (get_or-append b r h.code 0 lt) h.next_pos;
}

-- A unit of any type but 0 leaves its buffer's tail at such a front.
pub Sync-drop : (b : List ℕ) (n : NalUnit) → IsNal b n → 0 < n.nal_type → Sync (drop n.start b)
Sync-drop b n h t = record {
  code = h.code;
  code_at = start_code_len-drop n.start b (omega (arith, h.payload, h.end_in)) ∙ h.code_at;
  code_pos = h.code_pos;
  room = omega (arith, h.payload, h.end_in, length-drop n.start b);
  next_pos = omega (arith, get_or-drop n.start h.code b, h.type_at, t);
}

pub drop_all : (n : ℕ) (b : List ℕ) → length b ≤ n → drop n b ≡ []
drop_all zero [] h = refl
drop_all zero (x ∷ b) h = absurd (omega (arith, h))
drop_all (suc n) [] h = refl
drop_all (suc n) (x ∷ b) h = drop_all n b (omega (arith, h))

find_front : (b : List ℕ) (h : Sync b) → find_start_code b 0 ≡ some (0, h.code)
unfolding find_start_code find_loop
find_front [] h = absurd (omega (arith, h.room))
find_front (x ∷ b) h = ground arith

start_code_zero : (b : List ℕ) (i : ℕ) → 3 ≤ start_code_len b i → byte b i ≡ 0
unfolding start_code_len
start_code_zero b i h = ground arith

-- The first payload is not empty.
front_payload :
    (b : List ℕ) (h : Sync b) (c : Option (ℕ × ℕ)) → Found b h.code c → h.code < end_of b c
unfolding end_of
front_payload b h none f = h.room
front_payload b h (some (i, l)) f =
    let z = start_code_zero b i (omega (arith, f.1, f.2)) in ground arith

cons_nal-some :
    (n : NalUnit) (rest : Option (List NalUnit)) (ns : List NalUnit)
    → cons_nal true n rest ≡ some ns
    → (tail : List NalUnit) × (ns ≡ n ∷ tail)
unfolding cons_nal
cons_nal-some n none ns e = absurd (cc)
cons_nal-some n (some tail) ns e = (tail, cc)

-- The first unit stands at the front.
pub split_front :
    (b : List ℕ)
    → Sync b
    → (n : NalUnit) × (ns : List NalUnit) × (split_nalus b ≡ n ∷ ns) × (n.start ≡ 0)
unfolding split_loop new_nal
split_front b h =
    let code = h.code in
    let next = find_start_code b (0 + code) in
    let found =
      subst (λ i. Found b i (find_start_code b (0 + code))) (zero_add code)
        (find_start_code-Found b (0 + code)) in
    let t = front_payload b h next found in
    let n = new_nal b 0 (0 + code) (end_of b next) in
    let split = split_loop-Ordered b in
    let rest = split_loop (length b) b next in
    let full : ltb (0 + code) (end_of b next) ≡ true = ground arith in
    let step =
      ap (λ c. split_loop (suc (length b)) b c) (find_front b h)
      ∙ ap (λ x. cons_nal x n rest) full in
    let first = cons_nal-some n rest split.0 (sym step ∙ split.1) in
    (n, first.0, split.2 ∙ first.1, refl)

start_code_len-max : (b : List ℕ) (i : ℕ) → start_code_len b i ≤ 4
unfolding start_code_len
start_code_len-max b i = ground arith

Ordered-short :
    (b r : List ℕ) (h : Sync (b ++ r))
    → length b ≤ h.code
    → (ns : List NalUnit) → Ordered b 0 ns
    → ns ≡ []
Ordered-short b r h le [] o = refl
Ordered-short b r h le (n ∷ ns) o =
    let max = start_code_len-max (b ++ r) 0 in
    let nal = o.1 in
    let len : length b ≡ 4 =
      omega (arith, max, h.code_at, le, nal.payload, nal.end_in, nal.code_pos) in
    let z : n.start ≡ 0 =
      omega (arith, max, h.code_at, le, nal.payload, nal.end_in, nal.code_pos) in
    let same = start_code_len-append b r (omega (arith, len)) in
    let at : start_code_len b 0 ≡ nal.code =
      subst (λ i. start_code_len b i ≡ nal.code) z nal.code_at in
    absurd (omega (arith, same, at, h.code_at, max, le, len, nal.payload, nal.end_in))

-- Up to its start code, and that included, such a buffer has no unit.
pub split_short : (b r : List ℕ) (h : Sync (b ++ r)) → length b ≤ h.code → split_nalus b ≡ []
split_short b r h le = Ordered-short b r h le _ (split_nalus-Ordered b)
