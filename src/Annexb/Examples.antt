-- ===== src/Annexb/Examples.antt =====
-- A stream of two pictures, the first of them with parameters and two slices, in three chunks.
use playgate.Common.{map, ℕ, suc, ◌≡◌, refl, true, false, some, List, [], ◌∷◌, length, arith}
use playgate.Annexb.{
  NalUnit, new_splitter, start_code_len, find_loop, find_start_code, new_nal, end_of, cons_nal,
  split_loop, or_nil, split_nalus, is_vcl_type, is_vcl, starts_new_au, cut, note_slice, scan_step,
  scan, new_scan, finish, drain_nalus, drain, push, flush,
}
use playgate.Annexb.Nalus.{Ordered, split_loop-Ordered}
use playgate.Annexb.Front.{Sync}
use playgate.Annexb.Kept.{bytes}
use playgate.Annexb.Stream.{concat, push_all, push_all-bytes}
use playgate.Annexb.Units.{Grouped, push-Grouped}

run_open : ℕ
unfolding start_code_len find_loop find_start_code new_nal end_of cons_nal split_loop or_nil
    split_nalus is_vcl_type is_vcl starts_new_au cut note_slice scan_step scan new_scan finish
    drain_nalus drain push flush push_all
run_open = 0

abbrev chunks : List (List ℕ)
chunks =
    (0 ∷ 0 ∷ [])
    ∷ (0 ∷ 1 ∷ 7 ∷ 66 ∷ 0 ∷ 0 ∷ 1 ∷ 5 ∷ 136 ∷ 0 ∷ 0 ∷ 1 ∷ 5 ∷ [])
    ∷ (40 ∷ 0 ∷ 0 ∷ 1 ∷ 1 ∷ 200 ∷ [])
    ∷ []

stream-Sync : Sync (concat chunks)
unfolding run_open
stream-Sync = record {
  code = 4;
  code_at = refl;
  code_pos = omega arith;
  room = omega arith;
  next_pos = omega arith;
}

two_pictures : map (λ au. au.is_keyframe) (push_all new_splitter chunks).1 ≡ true ∷ false ∷ []
unfolding run_open
two_pictures = refl

push_all-bytes_example :
    (bytes (push_all new_splitter chunks).1 ≡ concat chunks)
    × ((push_all new_splitter chunks).0 ≡ new_splitter)
push_all-bytes_example = push_all-bytes chunks stream-Sync

push-Grouped_example :
    Grouped (concat chunks) (split_nalus (concat chunks)) (push new_splitter (concat chunks)).1
unfolding run_open
push-Grouped_example = push-Grouped new_splitter (concat chunks)

split_loop-Ordered_example :
    (ns : List NalUnit) × (split_loop
        (suc (length (concat chunks)))
        (concat chunks)
        (find_start_code (concat chunks) 0)
      ≡ some ns)
    × (split_nalus (concat chunks) ≡ ns)
    × Ordered (concat chunks) 0 ns
split_loop-Ordered_example = split_loop-Ordered (concat chunks)
