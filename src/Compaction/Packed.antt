-- ===== src/Compaction/Packed.antt =====
-- The packing of live records into output segments: their order and the limit on a segment.
use pqueue.Base.{
  ℕ, ◌+◌, ◌^◌, ◌≤◌, ◌<◌, ◌≡◌, refl, sym, ap, ◌∙◌, inl, inr, true, not, ◌&&◌, List, [], ◌∷◌, ◌++◌,
  arith, length, All, All-append, Bool-cases, append_assoc, append-nil, length-append, ltb,
  not_ltb→le,
}
use pqueue.Bytes.{IsU32}
use pqueue.LogFormat.{to_u32, serialize_segment_header, serialize_enqueue_event}
use pqueue.Replay.Events.{LogEvent}
use pqueue.Replay.Torn.{length-event_bytes}
use pqueue.Replay.Restore.{length-header}
use pqueue.Compaction.Plan.{is_nil}
use pqueue.Compaction.Output.{
  LiveRecord, OutputSegment, Packing, open_segment, pack_record, pack_loop, first_packing,
  pack_output, live_size, output_events, output_bytes, front_sequence,
}

-- The records of all segments, in the order in which they are written.
abbrev pub packed_records : List OutputSegment → List LiveRecord
packed_records [] = []
packed_records (seg ∷ segs) = seg.live ++ packed_records segs

packed_records-append :
    (xs : List OutputSegment) (seg : OutputSegment)
    → packed_records (xs ++ (seg ∷ [])) ≡ packed_records xs ++ seg.live
packed_records-append [] seg = append-nil seg.live
packed_records-append (x ∷ xs) seg =
    ap (λ t. x.live ++ t) (packed_records-append xs seg)
    ∙ sym (append_assoc x.live (packed_records xs) seg.live)

abbrev so_far : Packing → List LiveRecord
so_far p = packed_records p.closed ++ p.live

so_far-pack_record :
    (max : ℕ) (p : Packing) (r : LiveRecord) → so_far (pack_record max p r) ≡ so_far p ++ (r ∷ [])
unfolding pack_record
so_far-pack_record max p r =
    elim (Bool-cases (not (is_nil p.live) && ltb max (to_u32 (p.seg_bytes + live_size r)))) [
      | inl e ↦ rw e (ap (λ t. t ++ (r ∷ [])) (packed_records-append p.closed (open_segment p)))
      | inr e ↦ rw e (sym (append_assoc (packed_records p.closed) p.live (r ∷ [])))
    ]

so_far-pack_loop :
    (max : ℕ) (p : Packing) (rs : List LiveRecord) → so_far (pack_loop max p rs) ≡ so_far p ++ rs
unfolding pack_loop
so_far-pack_loop max p [] = sym (append-nil (so_far p))
so_far-pack_loop max p (r ∷ rs) =
    so_far-pack_loop max (pack_record max p r) rs
    ∙ ap (λ t. t ++ rs) (so_far-pack_record max p r)
    ∙ append_assoc (so_far p) (r ∷ []) rs

-- The output segments hold all live records, in order, and no others.
pub packed_records-pack_output :
    (max gen : ℕ) (live : List LiveRecord) → packed_records (pack_output max gen live) ≡ live
unfolding pack_output
packed_records-pack_output max gen live =
    let p = pack_loop max (first_packing gen) live in
    packed_records-append p.closed (open_segment p) ∙ so_far-pack_loop max (first_packing gen) live

-- A record that fits a segment of its own.
abbrev pub FitsSegment : ℕ → LiveRecord → Type 0
FitsSegment max r = IsU32 r.sequence × (44 + length r.payload ≤ max)

abbrev sum_sizes : List LiveRecord → ℕ
sum_sizes [] = 0
sum_sizes (r ∷ rs) = length r.payload + 24 + sum_sizes rs

sum_sizes-append :
    (xs : List LiveRecord) (r : LiveRecord)
    → sum_sizes (xs ++ (r ∷ [])) ≡ sum_sizes xs + (length r.payload + 24)
sum_sizes-append [] r = omega arith
sum_sizes-append (x ∷ xs) r = omega (arith, sum_sizes-append xs r)

module _ (max : ℕ) (small : max < 2 ^ 31) where
  length-output_events :
      (rs : List LiveRecord) → All (FitsSegment max) rs → length (output_events rs) ≡ sum_sizes rs
  unfolding output_events
  length-output_events [] hs = refl
  length-output_events (r ∷ rs) ((s, h), hs) = omega (
    arith,
    length-append (serialize_enqueue_event r.sequence r.payload) (output_events rs),
    length-event_bytes max (LogEvent.enqueue r.sequence r.payload)
        (s, omega (arith, h), omega (arith, small)),
    length-output_events rs hs,
  )

  length-output_bytes :
      (seg : OutputSegment)
      → All (FitsSegment max) seg.live
      → length (output_bytes seg) ≡ 20 + sum_sizes seg.live
  unfolding output_bytes
  length-output_bytes seg hs = omega (
    arith,
    length-append (serialize_segment_header seg.generation (front_sequence seg.live))
        (output_events seg.live),
    length-header seg.generation (front_sequence seg.live),
    length-output_events seg.live hs,
  )

  abbrev pub Bounded : OutputSegment → Type 0
  Bounded seg = length (output_bytes seg) ≤ max

  -- The packing between two records.
  record IsPacking (p : Packing) : Type 0 where
    closed_fit : All Bounded p.closed
    live_fit : All (FitsSegment max) p.live
    bytes_are : p.seg_bytes ≡ 20 + sum_sizes p.live
    bytes_fit : p.seg_bytes ≤ max

  open-Bounded : (p : Packing) → IsPacking p → Bounded (open_segment p)
  open-Bounded p h =
      omega (arith, length-output_bytes (open_segment p) h.live_fit, h.bytes_are, h.bytes_fit)

  not_nil : (rs : List LiveRecord) → is_nil rs ≡ true → sum_sizes rs ≡ 0
  not_nil [] e = refl
  not_nil (r ∷ rs) e = cc

  pack_record-IsPacking :
      (p : Packing) (r : LiveRecord)
      → IsPacking p
      → FitsSegment max r
      → IsPacking (pack_record max p r)
  unfolding pack_record
  pack_record-IsPacking p r h f =
      let size : live_size r ≡ length r.payload + 24 = omega (arith, f, small) in
      let before = h.bytes_are in
      let under = h.bytes_fit in
      let sum : to_u32 (p.seg_bytes + live_size r) ≡ p.seg_bytes + (length r.payload + 24) =
        omega (arith, size, under, f, small) in
      let first : to_u32 (20 + live_size r) ≡ 20 + (length r.payload + 24) =
        omega (arith, size, f, small) in
      elim (Bool-cases (is_nil p.live)) [
        | inl e ↦
            let empty = not_nil p.live e in
            rw e (record {
              closed_fit = h.closed_fit;
              live_fit = All-append (FitsSegment max) p.live (r ∷ []) h.live_fit (f, tt);
              bytes_are = omega (arith, sum, before, sum_sizes-append p.live r);
              bytes_fit = omega (arith, sum, before, empty, f);
            })
        | inr e ↦ rw e (elim (Bool-cases (ltb max (to_u32 (p.seg_bytes + live_size r)))) [
          | inl full ↦ rw full (record {
            closed_fit =
                All-append Bounded p.closed (open_segment p ∷ []) h.closed_fit
                  (open-Bounded p h, tt);
            live_fit = (f, tt);
            bytes_are = omega (arith, first);
            bytes_fit = omega (arith, first, f);
          })
          | inr fits ↦
              let room = not_ltb→le max (to_u32 (p.seg_bytes + live_size r)) fits in
              rw fits (record {
                closed_fit = h.closed_fit;
                live_fit = All-append (FitsSegment max) p.live (r ∷ []) h.live_fit (f, tt);
                bytes_are = omega (arith, sum, before, sum_sizes-append p.live r);
                bytes_fit = room;
              })
        ])
      ]

  pack_loop-IsPacking :
      (p : Packing) (rs : List LiveRecord)
      → IsPacking p
      → All (FitsSegment max) rs
      → IsPacking (pack_loop max p rs)
  unfolding pack_loop
  pack_loop-IsPacking p [] h fs = h
  pack_loop-IsPacking p (r ∷ rs) h (f, fs) =
      pack_loop-IsPacking (pack_record max p r) rs (pack_record-IsPacking p r h f) fs

  -- Where each record fits a segment of its own, no output segment's file is longer than the limit.
  pub pack_output-Bounded :
      (gen : ℕ) (live : List LiveRecord)
      → 20 ≤ max
      → All (FitsSegment max) live
      → All Bounded (pack_output max gen live)
  unfolding pack_output
  pack_output-Bounded gen live least fs =
      let p = pack_loop max (first_packing gen) live in
      let h =
        pack_loop-IsPacking (first_packing gen) live
          (record { closed_fit = tt; live_fit = tt; bytes_are = refl; bytes_fit = least }) fs in
      All-append Bounded p.closed (open_segment p ∷ []) h.closed_fit (open-Bounded p h, tt)
