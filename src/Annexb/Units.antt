-- ===== src/Annexb/Units.antt =====
-- What the access units hold, in terms of the units of the buffer.
use playgate.Common.{
  ℕ, ◌≡◌, ◌∙◌, refl, sym, subst, ap, Bool, true, false, not, ◌&&◌, ◌||◌, List, [], ◌∷◌, ◌++◌, map,
  append_assoc, append-nil, ◌==◌, if◌then◌else◌, Bool-cases, inl, inr, All, All-append, arith,
}
use playgate.Annexb.{
  NalUnit, AccessUnit, Splitter, slice, Scan, nal_type_idr, nal_type_aud, split_nalus, is_vcl,
  starts_new_au, cut, note_slice, scan_step, scan, new_scan, finish, drain_nalus, drain, push,
}

abbrev pub any : (NalUnit → Bool) → List NalUnit → Bool
any p [] = false
any p (n ∷ ns) = p n || any p ns

abbrev pub is_idr : NalUnit → Bool
is_idr n = n.nal_type == nal_type_idr

-- A delimiter, or the first slice of a picture.
unfoldable pub is_boundary : NalUnit → Bool
unfolding is_vcl
is_boundary n = n.nal_type == nal_type_aud || is_vcl n && n.first_slice

-- No boundary stands behind a slice, be it one before the list or in it.
abbrev pub one_picture : Bool → List NalUnit → Bool
one_picture seen [] = true
one_picture seen (n ∷ ns) = not (seen && is_boundary n) && one_picture (seen || is_vcl n) ns

abbrev pub join : List (List NalUnit) → List NalUnit
join [] = []
join (g ∷ gs) = g ++ join gs

-- The units of one picture, slices among them.
abbrev pub IsPicture : List NalUnit → Type 0
IsPicture g = (any is_vcl g ≡ true) × (one_picture false g ≡ true)

abbrev pub start_of : List NalUnit → ℕ
start_of [] = 0
start_of (n ∷ ns) = n.start

abbrev pub begins : List NalUnit → Bool
begins [] = false
begins (n ∷ ns) = is_boundary n

-- Every group behind the first, the open one among them, begins with a boundary.
abbrev pub bounded : List (List NalUnit) → List NalUnit → Bool
bounded [] last = true
bounded (g ∷ []) last = begins last
bounded (g ∷ h ∷ gs) last = begins h && bounded (h ∷ gs) last

-- The bytes from the start of each group to the start of the group behind it.
abbrev pub pieces : List ℕ → List (List NalUnit) → ℕ → List (List ℕ)
pieces buf [] stop = []
pieces buf (g ∷ []) stop = slice buf (start_of g) stop ∷ []
pieces buf (g ∷ h ∷ gs) stop = slice buf (start_of g) (start_of h) ∷ pieces buf (h ∷ gs) stop

-- The units of a buffer in groups of a picture each, and one begun, with the access units of the
-- groups: their bytes and their flags.
pub record Grouped (buf : List ℕ) (nalus : List NalUnit) (aus : List AccessUnit) : Type 0 where
  pub groups : List (List NalUnit)
  pub open_group : List NalUnit
  pub whole : join groups ++ open_group ≡ nalus
  pub bytes_of : map (λ au. au.data_bytes) aus ≡ pieces buf groups (start_of open_group)
  pub flags_of : map (λ au. au.is_keyframe) aus ≡ map (any is_idr) groups
  pub pictures : All IsPicture groups
  pub boundaries : bounded groups open_group ≡ true
  pub open_picture : one_picture false open_group ≡ true

-- The variables of the loop, after some units, of which `head` and `rest` are in the open group.
record Read (buf : List ℕ) (nalus : List NalUnit) (s : Scan) : Type 0 where
  pub groups : List (List NalUnit)
  pub head : NalUnit
  pub rest : List NalUnit
  pub whole : join groups ++ head ∷ rest ≡ nalus
  pub bytes_of : map (λ au. au.data_bytes) s.aus ≡ pieces buf groups head.start
  pub flags_of : map (λ au. au.is_keyframe) s.aus ≡ map (any is_idr) groups
  pub pictures : All IsPicture groups
  pub boundaries : bounded groups (head ∷ []) ≡ true
  pub open_picture : one_picture false (head ∷ rest) ≡ true
  pub seen : s.seen_vcl ≡ any is_vcl (head ∷ rest)
  pub idr : s.au_has_idr ≡ any is_idr (head ∷ rest)
  pub start : s.au_start ≡ head.start

any-last :
    (p : NalUnit → Bool) (ns : List NalUnit) (n : NalUnit)
    → any p (ns ++ n ∷ []) ≡ (any p ns || p n)
any-last p [] n = ground arith
any-last p (m ∷ ns) n = ground (arith, any-last p ns n)

one_picture-last :
    (seen : Bool) (ns : List NalUnit) (n : NalUnit)
    → one_picture seen (ns ++ n ∷ [])
      ≡ (one_picture seen ns && not ((seen || any is_vcl ns) && is_boundary n))
one_picture-last seen [] n = ground arith
one_picture-last seen (m ∷ ns) n = ground (arith, one_picture-last (seen || is_vcl m) ns n)

join-last : (gs : List (List NalUnit)) (g : List NalUnit) → join (gs ++ g ∷ []) ≡ join gs ++ g
join-last [] g = append-nil g
join-last (h ∷ gs) g = ap (λ l. h ++ l) (join-last gs g) ∙ sym (append_assoc h (join gs) g)

map-last {ℓ κ} :
    {A : Type ℓ} {B : Type κ} (f : A → B) (xs : List A) (x : A)
    → map f (xs ++ x ∷ []) ≡ map f xs ++ f x ∷ []
map-last f [] x = refl
map-last f (y ∷ xs) x = ap (λ l. f y ∷ l) (map-last f xs x)

bounded-last :
    (gs : List (List NalUnit)) (g last : List NalUnit)
    → bounded (gs ++ g ∷ []) last ≡ (bounded gs g && begins last)
bounded-last [] g last = refl
bounded-last (h ∷ []) g last = refl
bounded-last (h ∷ k ∷ gs) g last = ground (arith, bounded-last (k ∷ gs) g last)

bounded-head :
    (gs : List (List NalUnit)) (n : NalUnit) (ns : List NalUnit)
    → bounded gs (n ∷ ns) ≡ bounded gs (n ∷ [])
bounded-head [] n ns = refl
bounded-head (g ∷ []) n ns = refl
bounded-head (g ∷ h ∷ gs) n ns = ap (λ b. begins h && b) (bounded-head (h ∷ gs) n ns)

pieces-last :
    (buf : List ℕ) (gs : List (List NalUnit)) (g : List NalUnit) (stop : ℕ)
    → pieces buf (gs ++ g ∷ []) stop
      ≡ pieces buf gs (start_of g) ++ slice buf (start_of g) stop ∷ []
pieces-last buf [] g stop = refl
pieces-last buf (h ∷ []) g stop = refl
pieces-last buf (h ∷ k ∷ gs) g stop =
    ap (λ l. slice buf (start_of h) (start_of k) ∷ l) (pieces-last buf (k ∷ gs) g stop)

-- A unit that belongs to the group begun.
continue-Read :
    (buf : List ℕ) (nalus : List NalUnit) (s : Scan) (n : NalUnit)
    → Read buf nalus s
    → starts_new_au s n ≡ false
    → Read buf (nalus ++ n ∷ []) (note_slice s n)
unfolding note_slice starts_new_au is_boundary
continue-Read buf nalus s n r e =
    let last = r.head ∷ r.rest in
    let behind : (any is_vcl last && is_boundary n) ≡ false =
      ap (λ b. b && is_boundary n) (sym r.seen) ∙ e in
    record {
      groups = r.groups;
      head = r.head;
      rest = r.rest ++ n ∷ [];
      whole = sym (append_assoc (join r.groups) last (n ∷ [])) ∙ ap (λ l. l ++ n ∷ []) r.whole;
      bytes_of = r.bytes_of;
      flags_of = r.flags_of;
      pictures = r.pictures;
      boundaries = r.boundaries;
      open_picture = one_picture-last false last n ∙ (rw r.open_picture (rw behind refl));
      seen = ap (λ b. b || is_vcl n) r.seen ∙ sym (any-last is_vcl last n);
      idr = ap (λ b. b || is_idr n) r.idr ∙ sym (any-last is_idr last n);
      start = r.start;
    }

starts_new_au-boundary :
    (s : Scan) (n : NalUnit)
    → starts_new_au s n ≡ true
    → (s.seen_vcl ≡ true) × (is_boundary n ≡ true)
unfolding starts_new_au is_boundary
starts_new_au-boundary s n e = (ground arith, ground arith)

-- A unit that begins a group.
begin-Read :
    (buf : List ℕ) (nalus : List NalUnit) (s : Scan) (n : NalUnit)
    → Read buf nalus s
    → starts_new_au s n ≡ true
    → Read buf (nalus ++ n ∷ []) (note_slice (cut buf s n) n)
unfolding note_slice cut
begin-Read buf nalus s n r e =
    let last = r.head ∷ r.rest in
    let (seen, boundary) = starts_new_au-boundary s n e in
    record {
      groups = r.groups ++ last ∷ [];
      head = n;
      rest = [];
      whole = ap (λ l. l ++ n ∷ []) (join-last r.groups last ∙ r.whole);
      bytes_of =
          map-last _ s.aus _
          ∙ ap (λ l. l ++ slice buf s.au_start n.start ∷ []) r.bytes_of
          ∙ ap (λ i. pieces buf r.groups r.head.start ++ slice buf i n.start ∷ []) r.start
          ∙ sym (pieces-last buf r.groups last n.start);
      flags_of =
          map-last _ s.aus _
          ∙ ap (λ l. l ++ s.au_has_idr ∷ []) r.flags_of
          ∙ ap (λ b. map (any is_idr) r.groups ++ b ∷ []) r.idr
          ∙ sym (map-last (any is_idr) r.groups last);
      pictures =
          All-append IsPicture r.groups _ r.pictures ((sym r.seen ∙ seen, r.open_picture), tt);
      boundaries =
          bounded-last r.groups last (n ∷ [])
          ∙ rw (bounded-head r.groups r.head r.rest) (rw r.boundaries boundary);
      open_picture = ground arith;
      seen = ground arith;
      idr = ground arith;
      start = refl;
    }

scan_step-Read :
    (buf : List ℕ) (nalus : List NalUnit) (s : Scan) (n : NalUnit)
    → Read buf nalus s
    → Read buf (nalus ++ n ∷ []) (scan_step buf s n)
unfolding scan_step
scan_step-Read buf nalus s n r = elim (Bool-cases (starts_new_au s n)) [
  | inl new ↦
      subst (λ b. Read buf (nalus ++ n ∷ []) (note_slice (if b then cut buf s n else s) n))
        (sym new) (begin-Read buf nalus s n r new)
  | inr old ↦
      subst (λ b. Read buf (nalus ++ n ∷ []) (note_slice (if b then cut buf s n else s) n))
        (sym old) (continue-Read buf nalus s n r old)
]

scan-Read :
    (buf : List ℕ) (nalus ns : List NalUnit) (s : Scan)
    → Read buf nalus s
    → Read buf (nalus ++ ns) (scan buf s ns)
unfolding scan
scan-Read buf nalus [] s r = subst (λ l. Read buf l s) (sym (append-nil nalus)) r
scan-Read buf nalus (n ∷ ns) s r =
    subst (λ l. Read buf l (scan buf (scan_step buf s n) ns)) (append_assoc nalus (n ∷ []) ns)
      (scan-Read buf (nalus ++ n ∷ []) ns _ (scan_step-Read buf nalus s n r))

-- The first unit.
new_scan-Read : (buf : List ℕ) (n : NalUnit) → Read buf (n ∷ []) (scan_step buf (new_scan n) n)
unfolding new_scan scan_step note_slice starts_new_au
new_scan-Read buf n = record {
  groups = [];
  head = n;
  rest = [];
  whole = refl;
  bytes_of = refl;
  flags_of = refl;
  pictures = tt;
  boundaries = refl;
  open_picture = ground arith;
  seen = ground arith;
  idr = ground arith;
  start = refl;
}

Read-Grouped :
    (buf : List ℕ) (nalus : List NalUnit) (s : Scan) → Read buf nalus s → Grouped buf nalus s.aus
Read-Grouped buf nalus s r = record {
  groups = r.groups;
  open_group = r.head ∷ r.rest;
  whole = r.whole;
  bytes_of = r.bytes_of;
  flags_of = r.flags_of;
  pictures = r.pictures;
  boundaries = bounded-head r.groups r.head r.rest ∙ r.boundaries;
  open_picture = r.open_picture;
}

drain_nalus-Grouped :
    (buf : List ℕ) (ns : List NalUnit) → Grouped buf ns (drain_nalus false buf ns).1
unfolding drain_nalus finish scan
drain_nalus-Grouped buf [] = record {
  groups = [];
  open_group = [];
  whole = refl;
  bytes_of = refl;
  flags_of = refl;
  pictures = tt;
  boundaries = refl;
  open_picture = refl;
}
drain_nalus-Grouped buf (n ∷ ns) =
    Read-Grouped buf (n ∷ ns) _ (scan-Read buf (n ∷ []) ns _ (new_scan-Read buf n))

-- Whatever the buffer and the chunk, the units of the buffer with the chunk are groups and a last group
-- that is not complete. Each complete group holds a slice and no delimiter or first slice behind a
-- slice, and each group behind the first begins with a delimiter or a first slice. The push
-- returns an access unit for each complete group: the bytes from the group's start to the next group's
-- start, marked as a keyframe exactly if the group has an IDR slice.
pub push-Grouped :
    (s : Splitter) (chunk : List ℕ)
    → Grouped (s.buf ++ chunk) (split_nalus (s.buf ++ chunk)) (push s chunk).1
unfolding push drain
push-Grouped s chunk = drain_nalus-Grouped (s.buf ++ chunk) _
