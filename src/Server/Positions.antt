-- ===== src/Server/Positions.antt =====
-- playgate-server/internal/queue/queue.go: the positions that the queue gives out.
use playgate.Common.{
  ℕ, suc, ◌+◌, ◌<◌, ◌≤◌, ◌≡◌, refl, ap, ◌∙◌, String, true, false, List, [], ◌∷◌, length, str_eq,
  eq_iff, arith, if◌then◌else◌, inl, inr, Bool-cases,
}
use playgate.Common.Int.{pos, add64, ◌+ℤ◌, wrap64_of_IsInt64, half_word}
use playgate.Server.Queue as Queue

-- The redemptions of `rooms`, one after the other.
pub serve : Queue.Counters → List String → Queue.Counters
serve m [] = m
serve m (r ∷ rs) = serve (Queue.next m r).0 rs

pub count : String → List String → ℕ
count room [] = 0
count room (r ∷ rs) = let n = count room rs in if str_eq room r then suc n else n

pos-add64 : (n : ℕ) → n + 1 < half_word → add64 (pos n) (pos 1) ≡ pos (suc n)
unfolding add64 ◌+ℤ◌
pos-add64 n b = wrap64_of_IsInt64 (pos n +ℤ pos 1) (ground arith) ∙ ground arith

serve_from :
    (m : Queue.Counters) (rs : List String) (room : String) (n : ℕ)
    → m room ≡ pos n
    → n + length rs < half_word
    → serve m rs room ≡ pos (n + count room rs)
unfolding serve count
serve_from m [] room n h b = h ∙ ap pos (omega arith)
serve_from m (r ∷ rs) room n h b = elim (Bool-cases (str_eq room r)) [
  | inl e ↦ rw e (
      serve_from (Queue.next m r).0 rs room (suc n)
        (unfold Queue.next in rw (e, h) (pos-add64 n (omega (arith, b)))) (omega (arith, b))
      ∙ ap pos (omega arith))
  | inr e ↦
      rw e
        (serve_from (Queue.next m r).0 rs room n (unfold Queue.next in rw e h) (omega (arith, b)))
]

count_le : (room : String) (rs : List String) → count room rs ≤ length rs
unfolding count
count_le room [] = omega arith
count_le room (r ∷ rs) = ground (arith, count_le room rs)

-- After the redemptions of `rooms` in a new queue, fewer than 2^63, the next position in a room is one
-- more than the number of redemptions in that room, and no other room's counter moves.
pub next-serve :
    (rooms : List String) (room other : String)
    → length rooms + 1 < half_word
    → ((Queue.next (serve Queue.new rooms) room).1 ≡ pos (suc (count room rooms)))
      × (str_eq other room ≡ false
          → Queue.current (Queue.next (serve Queue.new rooms) room).0 other
            ≡ pos (count other rooms))
unfolding Queue.next Queue.current
next-serve rooms room other b =
    let at : (x : String) → serve Queue.new rooms x ≡ pos (count x rooms) = λ x.
      serve_from Queue.new rooms x 0 (unfold Queue.new in refl) (omega (arith, b))
      ∙ ap pos (omega arith) in
    let mine : str_eq room room ≡ true = (eq_iff room room).1 refl in
    (
      rw (mine, at room) (pos-add64 (count room rooms) (omega (arith, b, count_le room rooms))),
      λ e. rw e (at other),
    )
