-- ===== src/Annexb/Kept.antt =====
-- The bytes of the access units that the loop of the splitter cuts from its buffer.
use playgate.Common.{
  ℕ, ◌+◌, ◌-◌, ◌≤◌, ◌<◌, ◌≡◌, ◌∙◌, refl, sym, subst, ap, true, List, [], ◌∷◌, ◌++◌, append_assoc,
  if_cases, length, drop, take-append-drop, arith,
}
use playgate.Annexb.{
  NalUnit, AccessUnit, Scan, slice, is_vcl_type, is_vcl, starts_new_au, cut, note_slice, scan_step,
  scan, new_scan,
}
use playgate.Annexb.Nalus.{IsNal, Ordered}
use playgate.Annexb.Front.{Sync, Sync-drop, drop-drop}

-- The bytes of access units, in their order.
abbrev pub bytes : List AccessUnit → List ℕ
bytes [] = []
bytes (au ∷ aus) = au.data_bytes ++ bytes aus

pub bytes-append : (xs ys : List AccessUnit) → bytes (xs ++ ys) ≡ bytes xs ++ bytes ys
bytes-append [] ys = refl
bytes-append (x ∷ xs) ys =
    ap (λ l. x.data_bytes ++ l) (bytes-append xs ys)
    ∙ sym (append_assoc x.data_bytes (bytes xs) (bytes ys))

-- Whether the loop has cut the buffer, and where.
pub data Emitted (buf : List ℕ) (first : ℕ) (s : Scan) : Type 0 where
  nothing : s.aus ≡ [] → s.emitted_end ≡ 0 → s.au_start ≡ first → Emitted buf first s
  up_to :
      s.emitted_end ≡ s.au_start → 0 < s.au_start → Sync (drop s.au_start buf) → Emitted buf first s

-- Between units, at an offset that those before do not reach, no byte is lost.
pub record Kept (buf : List ℕ) (first lo : ℕ) (s : Scan) : Type 0 where
  pub whole : bytes s.aus ++ drop s.au_start buf ≡ drop first buf
  pub at_start : s.au_start ≤ lo
  pub past : s.seen_vcl ≡ true → 0 < lo
  pub emitted : Emitted buf first s

slice-drop : (b : List ℕ) (i j : ℕ) → i ≤ j → slice b i j ++ drop j b ≡ drop i b
slice-drop b i j le =
    let e : i + (j - i) ≡ j = omega (arith, le) in
    subst (λ k. slice b i j ++ drop k b ≡ drop i b) e
      (subst (λ l. slice b i j ++ l ≡ drop i b) (drop-drop i (j - i) b)
        (take-append-drop (j - i) (drop i b)))

pub bytes_last :
    (xs : List AccessUnit) (au : AccessUnit) (d : List ℕ)
    → bytes (xs ++ au ∷ []) ++ d ≡ bytes xs ++ (au.data_bytes ++ d)
bytes_last [] au d = append_assoc au.data_bytes [] d
bytes_last (x ∷ xs) au d =
    append_assoc x.data_bytes (bytes (xs ++ au ∷ [])) d
    ∙ ap (λ l. x.data_bytes ++ l) (bytes_last xs au d)
    ∙ sym (append_assoc x.data_bytes (bytes xs) (au.data_bytes ++ d))

starts_new_au-pos :
    (s : Scan) (n : NalUnit) → starts_new_au s n ≡ true → (s.seen_vcl ≡ true) × (0 < n.nal_type)
unfolding starts_new_au is_vcl is_vcl_type
starts_new_au-pos s n new = ground arith

cut-Kept :
    (buf : List ℕ) (first lo : ℕ) (s : Scan) (n : NalUnit)
    → Kept buf first lo s
    → lo ≤ n.start
    → IsNal buf n
    → starts_new_au s n ≡ true
    → Kept buf first n.start (cut buf s n)
unfolding cut
cut-Kept buf first lo s n k le nal new =
    let new = starts_new_au-pos s n new in
    record {
      whole =
          bytes_last s.aus _ (drop n.start buf)
          ∙ ap (λ l. bytes s.aus ++ l)
              (slice-drop buf s.au_start n.start (omega (arith, k.at_start, le)))
          ∙ k.whole;
      at_start = omega arith;
      past = λ e. omega (arith, k.past new.0, le);
      emitted = up_to refl (omega (arith, k.past new.0, le)) (Sync-drop buf n nal new.1);
    }

Kept-later :
    (buf : List ℕ) (first lo : ℕ) (s : Scan) (n : NalUnit)
    → Kept buf first lo s
    → lo ≤ n.start
    → Kept buf first n.start s
Kept-later buf first lo s n k le = record {
  whole = k.whole;
  at_start = omega (arith, k.at_start, le);
  past = λ e. omega (arith, k.past e, le);
  emitted = k.emitted;
}

note_slice-Emitted :
    (buf : List ℕ) (first : ℕ) (s : Scan) (n : NalUnit)
    → Emitted buf first s
    → Emitted buf first (note_slice s n)
unfolding note_slice
note_slice-Emitted buf first s n (nothing a b c) = nothing a b c
note_slice-Emitted buf first s n (up_to a b c) = up_to a b c

note_slice-Kept :
    (buf : List ℕ) (first : ℕ) (s : Scan) (n : NalUnit)
    → IsNal buf n
    → Kept buf first n.start s
    → Kept buf first n.end (note_slice s n)
unfolding note_slice
note_slice-Kept buf first s n nal k = record {
  whole = k.whole;
  at_start = omega (arith, k.at_start, nal.payload);
  past = λ _. omega (arith, nal.payload);
  emitted = note_slice-Emitted buf first s n k.emitted;
}

scan_step-Kept :
    (buf : List ℕ) (first lo : ℕ) (s : Scan) (n : NalUnit)
    → Kept buf first lo s
    → lo ≤ n.start
    → IsNal buf n
    → Kept buf first n.end (scan_step buf s n)
unfolding scan_step
scan_step-Kept buf first lo s n k le nal = note_slice-Kept buf first _ n nal (
    if_cases (Kept buf first n.start) (starts_new_au s n) _ _
      (λ new. cut-Kept buf first lo s n k le nal new) (λ _. Kept-later buf first lo s n k le))

-- An upper bound of the units' ends goes with the result.
pub scan-Kept :
    (buf : List ℕ) (first lo : ℕ) (s : Scan) (ns : List NalUnit)
    → lo ≤ length buf
    → Kept buf first lo s
    → Ordered buf lo ns
    → Kept buf first (length buf) (scan buf s ns)
unfolding scan
scan-Kept buf first lo s [] le k h = record {
  whole = k.whole;
  at_start = omega (arith, k.at_start, le);
  past = λ e. omega (arith, k.past e, le);
  emitted = k.emitted;
}
scan-Kept buf first lo s (n ∷ ns) le k h =
    scan-Kept buf first n.end _ ns h.1.end_in (scan_step-Kept buf first lo s n k h.0 h.1) h.2

-- The first unit changes the state of the loop alone.
pub new_scan-Kept : (buf : List ℕ) (n : NalUnit) → Kept buf n.start n.start (new_scan n)
unfolding new_scan
new_scan-Kept buf n = record {
  whole = refl;
  at_start = omega arith;
  past = λ e. ground arith;
  emitted = nothing refl refl refl;
}
