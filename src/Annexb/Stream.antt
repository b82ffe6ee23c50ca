-- ===== src/Annexb/Stream.antt =====
-- A stream in chunks, against the access units that it gives.
use playgate.Common.{
  ℕ, ◌≤◌, ◌≡◌, ◌∙◌, ◌⊎◌, inl, inr, refl, sym, subst, ap, true, false, List, [], ◌∷◌, ◌++◌,
  append_assoc, append-nil, ltb, if◌then◌else◌, Bool-cases, ltb→lt, if_cases, length, drop, arith,
}
use playgate.Annexb.{
  NalUnit, AccessUnit, Splitter, Scan, new_splitter, split_nalus, scan, new_scan, finish,
  drain_nalus, drain, push, flush,
}
use playgate.Annexb.Nalus.{Ordered, split_nalus-Ordered}
use playgate.Annexb.Front.{Sync, Sync-append, Sync-prefix, drop_all, split_front, split_short}
use playgate.Annexb.Kept.{
  bytes, bytes-append, Emitted, nothing, up_to, Kept, bytes_last, scan-Kept, new_scan-Kept,
}

-- What a call returned and left, against the bytes that it began with.
record Split (buf : List ℕ) (r : Splitter × List AccessUnit) : Type 0 where
  pub whole : bytes r.1 ++ r.0.buf ≡ buf
  pub front : (r.0.buf ≡ buf) ⊎ Sync r.0.buf

finish-Split :
    (buf : List ℕ) (s : Scan)
    → Kept buf 0 (length buf) s
    → Emitted buf 0 s
    → Split buf (finish false buf s)
unfolding finish
finish-Split buf s k (nothing a b c) =
    let r : (if ltb 0 s.emitted_end then drop s.emitted_end buf else buf) ≡ buf = ground arith in
    record { whole = rw r (rw a refl); front = inl r }
finish-Split buf s k (up_to a b c) =
    let r : (if ltb 0 s.emitted_end then drop s.emitted_end buf else buf) ≡ drop s.au_start buf =
      ground arith in
    record { whole = rw r k.whole; front = inr (subst Sync (sym r) c) }

-- A call on units of which the first stands at the front.
drain_nalus-Split :
    (buf : List ℕ) (ns : List NalUnit)
    → Ordered buf 0 ns
    → ((n : NalUnit) (ns' : List NalUnit) → ns ≡ n ∷ ns' → n.start ≡ 0)
    → Split buf (drain_nalus false buf ns)
unfolding drain_nalus
drain_nalus-Split buf [] h at_front = record { whole = refl; front = inl refl }
drain_nalus-Split buf (n ∷ ns) h at_front =
    let z = at_front n ns refl in
    let start = subst (λ i. Kept buf i i (new_scan n)) z (new_scan-Kept buf n) in
    let k = scan-Kept buf 0 0 (new_scan n) (n ∷ ns) (omega arith) start h in
    finish-Split buf _ k k.emitted

-- At the end of the stream all that is left is one unit.
drain_nalus_final :
    (buf : List ℕ) (n : NalUnit) (ns : List NalUnit)
    → Ordered buf 0 (n ∷ ns)
    → n.start ≡ 0
    → (bytes (drain_nalus true buf (n ∷ ns)).1 ≡ buf)
      × ((drain_nalus true buf (n ∷ ns)).0 ≡ new_splitter)
unfolding drain_nalus finish
drain_nalus_final buf n ns h z =
    let start = subst (λ i. Kept buf i i (new_scan n)) z (new_scan-Kept buf n) in
    let k = scan-Kept buf 0 0 (new_scan n) (n ∷ ns) (omega arith) start h in
    let s = scan buf (new_scan n) (n ∷ ns) in
    let last : AccessUnit = record {
      data_bytes = drop s.au_start buf;
      is_keyframe = s.au_has_idr;
    } in
    (
      if_cases (λ aus. bytes aus ≡ buf) (ltb s.au_start (length buf)) (s.aus ++ last ∷ []) s.aus
          (λ _.
            sym (append-nil _)
            ∙ bytes_last s.aus last []
            ∙ ap (λ l. bytes s.aus ++ l) (append-nil _)
            ∙ k.whole)
          (λ e.
            sym (append-nil _)
            ∙ ap (λ l. bytes s.aus ++ l) (sym (drop_all s.au_start buf (ground arith)))
            ∙ k.whole),
      refl,
    )

-- A push on a buffer at whose front a unit stands.
drain_front : (b : List ℕ) → Sync b → Split b (drain_nalus false b (split_nalus b))
drain_front b h =
    let f = split_front b h in
    drain_nalus-Split b (split_nalus b) (split_nalus-Ordered b)
      (λ n ns e. let same : n ≡ f.0 = cc in ap (λ m. m.start) same ∙ f.3)

drain_short :
    (b r : List ℕ) (h : Sync (b ++ r))
    → length b ≤ h.code
    → Split b (drain_nalus false b (split_nalus b))
unfolding drain_nalus
drain_short b r h le =
    subst (λ ns. Split b (drain_nalus false b ns)) (sym (split_short b r h le))
      record { whole = refl; front = inl refl }

drain_any : (b r : List ℕ) → Sync (b ++ r) → Split b (drain_nalus false b (split_nalus b))
drain_any b r h = elim (Bool-cases (ltb h.code (length b))) [
  | inl t ↦ drain_front b (Sync-prefix b r h (ltb→lt _ _ t))
  | inr f ↦ drain_short b r h (ground arith)
]

-- A push returns and keeps the bytes that it got, and what it keeps stands at the front of a unit as
-- soon as the bytes to come allow that.
push-Split :
    (s : Splitter) (chunk rest : List ℕ)
    → Sync ((s.buf ++ chunk) ++ rest)
    → (bytes (push s chunk).1 ++ (push s chunk).0.buf ≡ s.buf ++ chunk)
      × Sync ((push s chunk).0.buf ++ rest)
unfolding push drain
push-Split s chunk rest h =
    let split = drain_any (s.buf ++ chunk) rest h in
    (
      split.whole,
      elim split.front [
        | inl e ↦ subst (λ b. Sync (b ++ rest)) (sym e) h
        | inr front ↦ Sync-append _ rest front
      ],
    )

-- The pushes of a stream's chunks, and the end of the stream.
unfoldable pub push_all : Splitter → List (List ℕ) → Splitter × List AccessUnit
unfolding push
push_all s [] = flush s
push_all s (chunk ∷ chunks) =
    let r = push s chunk in let last = push_all r.0 chunks in (last.0, r.1 ++ last.1)

abbrev pub concat : List (List ℕ) → List ℕ
concat [] = []
concat (chunk ∷ chunks) = chunk ++ concat chunks

flush-Sync :
    (s : Splitter) → Sync s.buf → (bytes (flush s).1 ≡ s.buf) × ((flush s).0 ≡ new_splitter)
unfolding flush drain
flush-Sync s h =
    let f = split_front s.buf h in
    let o = subst (λ ns. Ordered s.buf 0 ns) f.2 (split_nalus-Ordered s.buf) in
    subst
      (λ ns.
        (bytes (drain_nalus true s.buf ns).1 ≡ s.buf)
        × ((drain_nalus true s.buf ns).0 ≡ new_splitter))
      (sym f.2) (drain_nalus_final s.buf f.0 f.1 o f.3)

run-bytes :
    (s : Splitter) (chunks : List (List ℕ))
    → Sync (s.buf ++ concat chunks)
    → (bytes (push_all s chunks).1 ≡ s.buf ++ concat chunks)
      × ((push_all s chunks).0 ≡ new_splitter)
unfolding push_all
run-bytes s [] h =
    let e = append-nil s.buf in let f = flush-Sync s (subst Sync e h) in (f.0 ∙ sym e, f.1)
run-bytes s (chunk ∷ chunks) h =
    let all = sym (append_assoc s.buf chunk (concat chunks)) in
    let p = push-Split s chunk (concat chunks) (subst Sync all h) in
    let rest = run-bytes (push s chunk).0 chunks p.1 in
    (
      bytes-append (push s chunk).1 _
          ∙ ap (λ l. bytes (push s chunk).1 ++ l) rest.0
          ∙ sym (append_assoc (bytes (push s chunk).1) (push s chunk).0.buf (concat chunks))
          ∙ ap (λ l. l ++ concat chunks) p.0
          ∙ append_assoc s.buf chunk (concat chunks),
      rest.1,
    )

-- A stream that begins with a start code and a byte other than 0 behind it, cut into chunks in any
-- way, pushed chunk by chunk and flushed: the access units, put together, are the stream, byte for
-- byte, and the splitter is empty at the end.
pub push_all-bytes :
    (chunks : List (List ℕ))
    → Sync (concat chunks)
    → (bytes (push_all new_splitter chunks).1 ≡ concat chunks)
      × ((push_all new_splitter chunks).0 ≡ new_splitter)
push_all-bytes chunks h = run-bytes new_splitter chunks h
