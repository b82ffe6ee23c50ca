-- ===== src/Encoder/Keyframes.antt =====
-- What the queue of packets keeps, and the times of what enters it.
use playgate.Common.{
  suc, ◌≤◌, ◌≡◌, refl, sym, subst, ap, true, false, List, [], ◌∷◌, ◌++◌, ltb, if_cases, length,
  length-append, arith,
}
use playgate.Common.Channel.{offer}
use mathlib.Core.List.{Memᴰ}
use mathlib.Core.List.Memᴰ
use playgate.Core.{EncodedPacket}
use playgate.Annexb.{AccessUnit}
use playgate.Encoder.{
  Encoder, packet_buffer_size, replace_oldest, queue_packet, emit_packet, emit_all,
}

-- A queue within its capacity, which holds the keyframes of another.
pub record Holds (before after : List EncodedPacket) : Type 0 where
  pub room : length after ≤ packet_buffer_size
  pub keyframes : (k : EncodedPacket) → k.is_keyframe ≡ true → Memᴰ k before → Memᴰ k after

-- Where the oldest packet was received, there is room for one.
offer_rest :
    (p : EncodedPacket) (rest : List EncodedPacket)
    → suc (length rest) ≤ packet_buffer_size
    → offer packet_buffer_size rest p ≡ rest ++ p ∷ []
unfolding offer
offer_rest p rest h =
    let t : ltb (length rest) packet_buffer_size ≡ true = ground arith in rw t refl

last_room :
    (p : EncodedPacket) (rest : List EncodedPacket)
    → suc (length rest) ≤ packet_buffer_size
    → length (rest ++ p ∷ []) ≤ packet_buffer_size
last_room p rest h = omega (arith, h, length-append rest (p ∷ []))

-- The oldest packet, put back as the newest.
put_back :
    (k old : EncodedPacket) (rest : List EncodedPacket)
    → Memᴰ k (old ∷ rest)
    → Memᴰ k (rest ++ old ∷ [])
put_back k old rest (Memᴰ.head e) = Memᴰ.append_right rest (Memᴰ.head e)
put_back k old rest (Memᴰ.tail m) = Memᴰ.append_left (old ∷ []) m

-- A keyframe is not a packet that is none.
behind :
    (k old : EncodedPacket) (rest tail' : List EncodedPacket)
    → old.is_keyframe ≡ false
    → k.is_keyframe ≡ true
    → Memᴰ k (old ∷ rest)
    → Memᴰ k (rest ++ tail')
behind k old rest tail' f t (Memᴰ.head e) =
    absurd (let same : k.is_keyframe ≡ old.is_keyframe = ap (λ p. p.is_keyframe) e in cc)
behind k old rest tail' f t (Memᴰ.tail m) = Memᴰ.append_left tail' m

replace_oldest-Holds :
    (old : EncodedPacket) (rest : List EncodedPacket) (pkt : EncodedPacket)
    → suc (length rest) ≤ packet_buffer_size
    → Holds (old ∷ rest) (replace_oldest old rest pkt)
unfolding replace_oldest
replace_oldest-Holds old rest pkt h =
    if_cases (Holds (old ∷ rest)) old.is_keyframe (offer packet_buffer_size rest old)
      (offer packet_buffer_size rest pkt)
      (λ key.
        subst (Holds (old ∷ rest)) (sym (offer_rest old rest h))
          record { room = last_room old rest h; keyframes = λ k e m. put_back k old rest m })
      (λ inter. subst (Holds (old ∷ rest)) (sym (offer_rest pkt rest h)) record {
        room = last_room pkt rest h;
        keyframes = λ k e m. behind k old rest (pkt ∷ []) inter e m;
      })

queue_packet-Holds :
    (q : List EncodedPacket) (pkt : EncodedPacket)
    → length q ≤ packet_buffer_size
    → Holds q (queue_packet q pkt)
unfolding queue_packet offer
queue_packet-Holds [] pkt h = record {
  room = omega arith;
  keyframes = λ k e m. absurd (Memᴰ.not-nil m);
}
queue_packet-Holds (old ∷ rest) pkt h =
    if_cases (Holds (old ∷ rest)) (ltb (length (old ∷ rest)) packet_buffer_size) _
      (replace_oldest old rest pkt)
      (λ t. record {
        room = ground (arith, length-append rest (pkt ∷ []));
        keyframes = λ k e m. Memᴰ.append_left (pkt ∷ []) m;
      })
      (λ _. replace_oldest-Holds old rest pkt h)

-- From a queue within its capacity, whatever access units are emitted while nobody receives: the
-- queue stays within its capacity, and a keyframe that stands in it is not dropped.
pub emit_all-Holds :
    (e : Encoder) (aus : List AccessUnit)
    → length e.packets ≤ packet_buffer_size
    → Holds e.packets (emit_all e aus).packets
unfolding emit_all emit_packet
emit_all-Holds e [] h = record { room = h; keyframes = λ k t m. m }
emit_all-Holds e (au ∷ aus) h =
    let one = queue_packet-Holds e.packets _ h in
    let more = emit_all-Holds (emit_packet e au) aus one.room in
    record { room = more.room; keyframes = λ k t m. more.keyframes k t (one.keyframes k t m) }
