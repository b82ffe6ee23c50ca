-- ===== src/Capture/Rows.antt =====
-- Where the bytes of a repacked frame come from.
use playgate.Common.{
  ℕ, zero, suc, ◌+◌, ◌-◌, ◌*◌, ◌^◌, ◌<◌, ◌≤◌, ◌≡◌, ◌∙◌, ◌⊎◌, inl, inr, refl, ap, true, Option, none,
  some, List, [], ◌∷◌, ◌++◌, length, take, drop, get_elem?, length-append, length-drop, ltb, leb,
  if◌then◌else◌, if_cases, Bool-cases, arith,
}
use playgate.Core.{PixelFormat, format_unknown, format_yuyv, format_mjpeg, format_nv12}
use playgate.Common.Int.{pos, wrap64, wrap64_of_IsInt64, ltb_ℤ}
use playgate.Capture.Frames.{
  row, append_row, copy_rows, Geometry, stride_of, some_rows, copy_yuyv, copy_nv12, uv_rows,
  copy_frame_data,
}

module _ {ℓ} {A : Type ℓ} where
  get-append_left :
      (xs ys : List A) (i : ℕ) → i < length xs → get_elem? (xs ++ ys) i ≡ get_elem? xs i
  get-append_left [] ys i h = absurd (omega (arith, h))
  get-append_left (x ∷ xs) ys zero h = refl
  get-append_left (x ∷ xs) ys (suc i) h = get-append_left xs ys i (omega (arith, h))

  get-append_right :
      (xs ys : List A) (i j : ℕ) → j ≡ length xs + i → get_elem? (xs ++ ys) j ≡ get_elem? ys i
  get-append_right [] ys i j h = ap (get_elem? ys) (omega (arith, h))
  get-append_right (x ∷ xs) ys i zero h = absurd (omega (arith, h))
  get-append_right (x ∷ xs) ys i (suc j) h = get-append_right xs ys i j (omega (arith, h))

  get-take : (n : ℕ) (xs : List A) (i : ℕ) → i < n → get_elem? (take n xs) i ≡ get_elem? xs i
  get-take zero xs i h = absurd (omega (arith, h))
  get-take (suc n) [] i h = refl
  get-take (suc n) (x ∷ xs) zero h = refl
  get-take (suc n) (x ∷ xs) (suc i) h = get-take n xs i (omega (arith, h))

  get-drop : (m : ℕ) (xs : List A) (i j : ℕ) → j ≡ m + i → get_elem? (drop m xs) i ≡ get_elem? xs j
  get-drop zero xs i j h = ap (get_elem? xs) (omega (arith, h))
  get-drop (suc m) [] i j h = refl
  get-drop (suc m) (x ∷ xs) i zero h = absurd (omega (arith, h))
  get-drop (suc m) (x ∷ xs) i (suc j) h = get-drop m xs i j (omega (arith, h))

  length-take : (n : ℕ) (xs : List A) → n ≤ length xs → length (take n xs) ≡ n
  length-take zero xs h = refl
  length-take (suc n) [] h = absurd (omega (arith, h))
  length-take (suc n) (x ∷ xs) h = let r = length-take n xs (omega (arith, h)) in omega (arith, r)

-- Rows of n bytes each that stand in a source every `stride` bytes from row y on.
pub record Packed (n : ℕ) (src : List ℕ) (stride y rows : ℕ) (r : Option (List ℕ)) : Type 0 where
  pub out : List ℕ
  pub copied : r ≡ some out
  pub size : length out ≡ rows * n
  pub bytes :
      (k x : ℕ)
      → k < rows
      → x < n
      → get_elem? out (k * n + x) ≡ get_elem? src ((y + k) * stride + x)

-- A row in front of rows.
bytes_cons :
    (n : ℕ) (src here later : List ℕ) (stride y rows : ℕ)
    → length here ≡ n
    → ((x : ℕ) → x < n → get_elem? here x ≡ get_elem? src (y * stride + x))
    → ((k x : ℕ)
        → k < rows
        → x < n
        → get_elem? later (k * n + x) ≡ get_elem? src ((suc y + k) * stride + x))
    → (k x : ℕ) → k < suc rows
    → x < n
    → get_elem? (here ++ later) (k * n + x) ≡ get_elem? src ((y + k) * stride + x)
bytes_cons n src here later stride y rows size f g zero x b c =
    let i : 0 * n + x ≡ x = grind arith in
    let j : y * stride + x ≡ (y + 0) * stride + x = grind arith in
    ap (get_elem? (here ++ later)) i
    ∙ (get-append_left here later x (omega (arith, size, c)) ∙ (f x c ∙ ap (get_elem? src) j))
bytes_cons n src here later stride y rows size f g (suc k) x b c =
    let i : suc k * n + x ≡ length here + (k * n + x) = grind (arith, size) in
    let j : (suc y + k) * stride + x ≡ (y + suc k) * stride + x = grind arith in
    get-append_right here later (k * n + x) (suc k * n + x) i
    ∙ (g k x (omega (arith, b)) c ∙ ap (get_elem? src) j)

copy_rows-Packed :
    (n : ℕ) (src : List ℕ) (stride y rows : ℕ)
    → n ≤ stride
    → (y + rows) * stride ≤ length src
    → Packed n src stride y rows (copy_rows n src stride y rows)
unfolding copy_rows row
copy_rows-Packed n src stride y zero h fit = record {
  out = [];
  copied = refl;
  size = omega arith;
  bytes = λ k x b c. absurd (omega (arith, b));
}
copy_rows-Packed n src stride y (suc rows) h fit =
    let next : (suc y + rows) * stride ≤ length src = grind (arith, fit) in
    let later = copy_rows-Packed n src stride (suc y) rows h next in
    let first : y * stride + n ≤ length src = grind (arith, fit, h) in
    let here = take n (drop (y * stride) src) in
    let same : row n src (y * stride) ≡ some here =
      let fits : leb (y * stride + n) (length src) ≡ true = ground (arith, first) in rw fits refl in
    let size : length here ≡ n =
      length-take n (drop (y * stride) src) (omega (arith, length-drop (y * stride) src, first)) in
    record {
      out = here ++ later.out;
      copied =
          ap (λ r. append_row r (copy_rows n src stride (suc y) rows)) same
          ∙ ap (append_row (some here)) later.copied;
      size = grind (arith, length-append here later.out, size, later.size);
      bytes =
          bytes_cons n src here later.out stride y rows size
            (λ x b.
              get-take n (drop (y * stride) src) x b
              ∙ get-drop (y * stride) src x (y * stride + x) refl)
            later.bytes;
    }

-- A dropped frame whose stride or buffer is too short, or rows that were packed, with one byte of one.
abbrev pub Repacked : ℕ → ℕ → ℕ → List ℕ → ℕ → ℕ → Option (Option (List ℕ)) → Type 0
Repacked n stride rows src k x r =
    ((r ≡ some none) × ((stride < n) ⊎ (length src < stride * rows)))
    ⊎ ((out : List ℕ) × (r ≡ some (some out))
        × (length out ≡ rows * n)
        × (get_elem? out (k * n + x) ≡ get_elem? src (k * stride + x)))

some_rows-Repacked :
    (n stride rows : ℕ) (src : List ℕ) (k x : ℕ) (r : Option (List ℕ))
    → Packed n src stride 0 rows r
    → k < rows
    → x < n
    → Repacked n stride rows src k x (some_rows r)
some_rows-Repacked n stride rows src k x r p b c =
    inr (p.out, ap some_rows p.copied, p.size, p.bytes k x b c ∙ ap (get_elem? src) (grind arith))

-- The tests of both copies.
tested :
    (n stride rows : ℕ) (src : List ℕ) (k x : ℕ) (r : Option (List ℕ))
    → stride * rows < 2 ^ 63
    → (n ≤ stride → stride * rows ≤ length src → Packed n src stride 0 rows r)
    → k < rows
    → x < n
    → Repacked n stride rows src k x (
        if ltb stride n
        then some none
        else if ltb_ℤ (pos (length src)) (wrap64 (pos (stride * rows)))
        then some none
        else some_rows r)
tested n stride rows src k x r small p b c =
    let w : wrap64 (pos (stride * rows)) ≡ pos (stride * rows) =
      wrap64_of_IsInt64 (pos (stride * rows)) (omega (arith, small)) in
    if_cases (Repacked n stride rows src k x) (ltb stride n) _ _
      (λ t. inl (refl, inl (ground (arith, t))))
      (λ e. rw w (
        if_cases (Repacked n stride rows src k x) (ltb_ℤ (pos (length src)) (pos (stride * rows))) _
          _ (λ t. inl (refl, inr (ground (arith, t))))
          (λ f.
            some_rows-Repacked n stride rows src k x r (p (ground (arith, e)) (ground (arith, f))) b
              c)))

-- Where the size of a frame fits 63 bits, a YUYV frame is dropped only for a stride or a buffer that is
-- too short, and else comes out as its rows without padding, with each byte of each row.
copy_yuyv-Repacked :
    (g : Geometry) (src : List ℕ) (k x : ℕ)
    → stride_of g (g.width * 2) * g.height < 2 ^ 63
    → k < g.height
    → x < g.width * 2
    → Repacked (g.width * 2) (stride_of g (g.width * 2)) g.height src k x (copy_yuyv g src)
unfolding copy_yuyv
copy_yuyv-Repacked g src k x small b c =
    let n = g.width * 2 in
    let stride = stride_of g n in
    tested n stride g.height src k x (copy_rows n src stride 0 g.height) small
      (λ h fit. copy_rows-Packed n src stride 0 g.height h (grind (arith, fit))) b c

within : (k h n x : ℕ) → k < h → x < n → k * n + x < h * n
within k zero n x b c = absurd (omega (arith, b))
within zero (suc h) n x b c = grind (arith, c)
within (suc k) (suc h) n x b c = let r = within k h n x (omega (arith, b)) c in grind (arith, r)

index_past : (k h d n x : ℕ) → k ≡ h + d → k * n + x ≡ h * n + (d * n + x)
index_past k h d n x e = ap (λ z. z * n + x) e ∙ grind arith

source_past : (k h d s x : ℕ) → k ≡ h + d → (0 + k) * s + x ≡ s * h + ((0 + d) * s + x)
source_past k h d s x e = ap (λ z. (0 + z) * s + x) e ∙ grind arith

-- Two packed halves of a source.
joined :
    (n stride h uv : ℕ) (src : List ℕ) (r₁ r₂ : Option (List ℕ))
    → n ≤ stride
    → Packed n (take (stride * h) src) stride 0 h r₁
    → Packed n (drop (stride * h) src) stride 0 uv r₂
    → Packed n src stride 0 (h + uv) (append_row r₁ r₂)
joined n stride h uv src r₁ r₂ le p q = record {
  out = p.out ++ q.out;
  copied = ap (λ r. append_row r r₂) p.copied ∙ ap (append_row (some p.out)) q.copied;
  size = grind (arith, length-append p.out q.out, p.size, q.size);
  bytes = λ k x b c. elim (Bool-cases (ltb k h)) [
    | inl t ↦
        let lt : k < h = ground (arith, t) in
        let i : k * n + x < length p.out =
          (let w = within k h n x lt c in omega (arith, w, p.size)) in
        let j : (0 + k) * stride + x < stride * h =
          (let w = within k h stride x lt (omega (arith, c, le)) in grind (arith, w)) in
        get-append_left p.out q.out (k * n + x) i
        ∙ (p.bytes k x lt c ∙ get-take (stride * h) src ((0 + k) * stride + x) j)
    | inr f ↦
        let ge : h ≤ k = ground (arith, f) in
        let d = k - h in
        let e : k ≡ h + d = omega (arith, ge) in
        let i : k * n + x ≡ length p.out + (d * n + x) =
          (let m = index_past k h d n x e in omega (arith, m, p.size)) in
        let j : (0 + k) * stride + x ≡ stride * h + ((0 + d) * stride + x) =
          source_past k h d stride x e in
        get-append_right p.out q.out (d * n + x) (k * n + x) i
        ∙ (q.bytes d x (omega (arith, b, e)) c
            ∙ get-drop (stride * h) src ((0 + d) * stride + x) ((0 + k) * stride + x) j)
  ];
}

-- Where the size of a frame fits 63 bits, an NV12 frame is dropped only for a stride or a buffer that is
-- too short, and else comes out as the rows of its two planes without padding, with each byte of each
-- row.
copy_nv12-Repacked :
    (g : Geometry) (src : List ℕ) (k x : ℕ)
    → stride_of g g.width * (g.height + uv_rows g.height) < 2 ^ 63
    → k < g.height + uv_rows g.height
    → x < g.width
    → Repacked g.width (stride_of g g.width) (g.height + uv_rows g.height) src k x (copy_nv12 g src)
unfolding copy_nv12
copy_nv12-Repacked g src k x small b c =
    let n = g.width in
    let stride = stride_of g n in
    let h = g.height in
    let uv = uv_rows h in
    tested n stride (h + uv) src k x
      (append_row (copy_rows n (take (stride * h) src) stride 0 h)
        (copy_rows n (drop (stride * h) src) stride 0 uv))
      small
      (λ le fit.
        joined n stride h uv src _ _ le
          (copy_rows-Packed n (take (stride * h) src) stride 0 h le (
            let few : stride * h ≤ length src = grind (arith, fit) in
            let m = length-take (stride * h) src few in grind (arith, m)))
          (copy_rows-Packed n (drop (stride * h) src) stride 0 uv le
            (let m = length-drop (stride * h) src in grind (arith, m, fit))))
      b c

-- The bytes of a row and the rows of a frame, of the formats that have rows.
abbrev pub row_bytes : PixelFormat → Geometry → ℕ
row_bytes format_unknown g = 0
row_bytes format_yuyv g = g.width * 2
row_bytes format_mjpeg g = 0
row_bytes format_nv12 g = g.width

abbrev pub row_count : PixelFormat → Geometry → ℕ
row_count format_unknown g = 0
row_count format_yuyv g = g.height
row_count format_mjpeg g = 0
row_count format_nv12 g = g.height + uv_rows g.height

-- Where the size of a frame fits 63 bits, a frame of rows is dropped only for a stride or a buffer that
-- is too short, and else comes out as the rows of all its planes without padding, with each byte of
-- each row.
pub copy_frame_data-Repacked :
    (format : PixelFormat) (g : Geometry) (src : List ℕ) (used k x : ℕ)
    → stride_of g (row_bytes format g) * row_count format g < 2 ^ 63
    → k < row_count format g
    → x < row_bytes format g
    → Repacked
        (row_bytes format g)
        (stride_of g (row_bytes format g))
        (row_count format g)
        src
        k
        x
        (copy_frame_data format g src used)
unfolding copy_frame_data
copy_frame_data-Repacked format_unknown g src used k x small b c = absurd (omega (arith, b))
copy_frame_data-Repacked format_mjpeg g src used k x small b c = absurd (omega (arith, b))
copy_frame_data-Repacked format_yuyv g src used k x small b c =
    copy_yuyv-Repacked g src k x small b c
copy_frame_data-Repacked format_nv12 g src used k x small b c =
    copy_nv12-Repacked g src k x small b c
