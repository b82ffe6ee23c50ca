-- ===== src/Annexb.antt =====
-- playgate-host/internal/encoder/ffmpeg/annexb.go: the splitter of an H.264 byte stream into access
-- units. Bytes are numbers below 256, and -1 for no start code is `none`. The loop of `split_nalus`
-- runs on fuel one above the buffer's length, and gives `none` when the fuel is out.
mod Examples
pub mod Nalus
pub mod Units
pub mod Front
pub mod Kept
pub mod Stream
use playgate.Common.{
  ℕ, zero, suc, ◌+◌, ◌-◌, ◌%◌, Bool, true, false, not, ◌&&◌, ◌||◌, Option, none, some, List, [],
  ◌∷◌, ◌++◌, leb, ltb, ◌==◌, if◌then◌else◌, length, get_or, take, drop,
}

pub record NalUnit : Type 0 where
  pub start : ℕ
  pub end : ℕ
  pub nal_type : ℕ
  pub first_slice : Bool

abbrev pub nal_type_non_idr : ℕ
nal_type_non_idr = 1

abbrev pub nal_type_idr : ℕ
nal_type_idr = 5

abbrev pub nal_type_aud : ℕ
nal_type_aud = 9

unfoldable pub is_vcl_type : ℕ → Bool
is_vcl_type t = t == nal_type_non_idr || t == nal_type_idr

-- `isVCL`.
unfoldable pub is_vcl : NalUnit → Bool
unfolding is_vcl_type
is_vcl n = is_vcl_type n.nal_type

-- `b[i]`, within the bounds that the callers test.
abbrev pub byte : List ℕ → ℕ → ℕ
byte b i = get_or b i 0

-- `startCodeLen`.
unfoldable pub start_code_len : List ℕ → ℕ → ℕ
start_code_len b i =
    if leb (i + 3) (length b) && byte b i == 0 && byte b (i + 1) == 0 && byte b (i + 2) == 1
    then 3
    else if leb (i + 4) (length b)
        && byte b i == 0
        && byte b (i + 1) == 0
        && byte b (i + 2) == 0
        && byte b (i + 3) == 1
    then 4
    else 0

-- The loop of `findStartCode` at i, for at most n positions.
unfoldable pub find_loop : ℕ → List ℕ → ℕ → Option (ℕ × ℕ)
unfolding start_code_len
find_loop zero b i = none
find_loop (suc n) b i =
    let rest = find_loop n b (i + 1) in
    let l = start_code_len b i in
    if leb (i + 3) (length b) then if l == 0 then rest else some (i, l) else none

-- `findStartCode`.
unfoldable pub find_start_code : List ℕ → ℕ → Option (ℕ × ℕ)
unfolding find_loop
find_start_code b from = find_loop (length b) b from

-- The unit between a payload's start and its end.
unfoldable pub new_nal : List ℕ → ℕ → ℕ → ℕ → NalUnit
unfolding is_vcl_type
new_nal buf start payload_start end =
    let t = if ltb payload_start (length buf) then byte buf payload_start % 32 else 0 in
    let slice_start = payload_start + 1 in
    record {
      start = start;
      end = end;
      nal_type = t;
      first_slice = is_vcl_type t && ltb slice_start end && leb 128 (byte buf slice_start % 256);
    }

unfoldable pub end_of : List ℕ → Option (ℕ × ℕ) → ℕ
end_of buf none = length buf
end_of buf (some (next, l)) = next

unfoldable pub cons_nal : Bool → NalUnit → Option (List NalUnit) → Option (List NalUnit)
cons_nal true n (some ns) = some (n ∷ ns)
cons_nal true n none = none
cons_nal false n ns = ns

-- The loop of `splitNALUs`, at a start code or at its end.
unfoldable pub split_loop : ℕ → List ℕ → Option (ℕ × ℕ) → Option (List NalUnit)
unfolding find_start_code new_nal end_of cons_nal
split_loop fuel buf none = some []
split_loop zero buf (some c) = none
split_loop (suc fuel) buf (some (start, sc_len)) =
    let payload_start = start + sc_len in
    let next = find_start_code buf payload_start in
    let end = end_of buf next in
    let rest = split_loop fuel buf next in
    cons_nal (ltb payload_start end) (new_nal buf start payload_start end) rest

unfoldable pub or_nil : Option (List NalUnit) → List NalUnit
or_nil none = []
or_nil (some ns) = ns

-- `splitNALUs`.
unfoldable pub split_nalus : List ℕ → List NalUnit
unfolding split_loop find_start_code or_nil
split_nalus buf = or_nil (split_loop (suc (length buf)) buf (find_start_code buf 0))

pub record AccessUnit : Type 0 where
  pub data_bytes : List ℕ
  pub is_keyframe : Bool

-- `AnnexBSplitter`.
pub record Splitter : Type 0 where
  pub buf : List ℕ

-- `NewAnnexBSplitter`.
abbrev pub new_splitter : Splitter
new_splitter = record { buf = [] }

-- The variables of the loop of `drain`.
pub record Scan : Type 0 where
  pub aus : List AccessUnit
  pub au_start : ℕ
  pub seen_vcl : Bool
  pub au_has_idr : Bool
  pub emitted_end : ℕ

-- `buf[lo:hi]`, copied.
abbrev pub slice : List ℕ → ℕ → ℕ → List ℕ
slice buf lo hi = take (hi - lo) (drop lo buf)

unfoldable pub starts_new_au : Scan → NalUnit → Bool
unfolding is_vcl
starts_new_au s n = s.seen_vcl && (n.nal_type == nal_type_aud || is_vcl n && n.first_slice)

unfoldable pub cut : List ℕ → Scan → NalUnit → Scan
cut buf s n = record {
  aus =
      s.aus
      ++ record { data_bytes = slice buf s.au_start n.start; is_keyframe = s.au_has_idr } ∷ [];
  au_start = n.start;
  seen_vcl = false;
  au_has_idr = false;
  emitted_end = n.start;
}

unfoldable pub note_slice : Scan → NalUnit → Scan
unfolding is_vcl
note_slice s n = record s {
  seen_vcl = s.seen_vcl || is_vcl n;
  au_has_idr = s.au_has_idr || n.nal_type == nal_type_idr;
}

unfoldable pub scan_step : List ℕ → Scan → NalUnit → Scan
unfolding starts_new_au cut note_slice
scan_step buf s n = note_slice (if starts_new_au s n then cut buf s n else s) n

unfoldable pub scan : List ℕ → Scan → List NalUnit → Scan
unfolding scan_step
scan buf s [] = s
scan buf s (n ∷ ns) = scan buf (scan_step buf s n) ns

unfoldable pub new_scan : NalUnit → Scan
new_scan n = record {
  aus = [];
  au_start = n.start;
  seen_vcl = false;
  au_has_idr = false;
  emitted_end = 0;
}

-- The end of `drain`, for its two values of `final`.
unfoldable pub finish : Bool → List ℕ → Scan → Splitter × List AccessUnit
finish true buf s =
    let last = record { data_bytes = drop s.au_start buf; is_keyframe = s.au_has_idr } ∷ [] in
    (record { buf = [] }, if ltb s.au_start (length buf) then s.aus ++ last else s.aus)
finish false buf s =
    (record { buf = if ltb 0 s.emitted_end then drop s.emitted_end buf else buf }, s.aus)

unfoldable pub drain_nalus : Bool → List ℕ → List NalUnit → Splitter × List AccessUnit
unfolding scan new_scan finish
drain_nalus final buf [] = (record { buf = buf }, [])
drain_nalus final buf (n ∷ ns) = finish final buf (scan buf (new_scan n) (n ∷ ns))

-- `drain`.
unfoldable pub drain : Splitter → Bool → Splitter × List AccessUnit
unfolding split_nalus drain_nalus
drain s final = drain_nalus final s.buf (split_nalus s.buf)

-- `Push`.
unfoldable pub push : Splitter → List ℕ → Splitter × List AccessUnit
unfolding drain
push s chunk = drain (record { buf = s.buf ++ chunk }) false

-- `Flush`.
unfoldable pub flush : Splitter → Splitter × List AccessUnit
unfolding drain
flush s = drain s true
