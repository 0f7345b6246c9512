-- ===== src/Guest/Webcam/Reassembly.antt =====
-- The reassembly of frames from payloads, and the slices of a transfer that its packets are.
use masters_sibren_wieme.Prelude.{
  ℕ, zero, suc, ◌≡◌, ◌≢◌, ◌≤◌, ◌+◌, ◌-◌, min, Bool, true, false, not, ◌||◌, ◌==◌, Option, none,
  some, List, [], ◌∷◌, ◌++◌, refl, ap, sym, subst, ◌∙◌, arith, length, take, drop, drop-append_self,
  length-append, append_assoc, append-nil, ltb, low_bits, has_bit, ==_refl, ne→==_false, leb,
  Bool-cases, inl, inr,
}
use masters_sibren_wieme.Guest.Webcam.Jpeg.{is_complete_jpeg}
use masters_sibren_wieme.Guest.Webcam.{
  scan_slice, ReassemblyState, is_empty, continue_frame, feed, packet_data, Scan, panicked,
  captured, scanned, judge_frame, judge_fed, feed_packet, payload_of, scan_packets,
}

abbrev pub concat : List (List ℕ) → List ℕ
concat [] = []
concat (p ∷ ps) = p ++ concat ps

-- Payloads of one frame, before the one with the end.
abbrev pub feed_many : ℕ → List (List ℕ) → ReassemblyState → ReassemblyState
feed_many fid [] st = st
feed_many fid (p ∷ ps) st = feed_many fid ps (feed p fid false st).1

abbrev pub state : List ℕ → ℕ → Bool → ReassemblyState
state buffer fid started = record { frame_buffer = buffer; last_fid = fid; frame_started = started }

-- A state within a frame: a buffer is not filled before the frame has started.
feed-more :
    (p buffer : List ℕ) (fid : ℕ) (started : Bool)
    → (started ≡ false → buffer ≡ [])
    → feed p fid false (state buffer fid started)
      ≡ (none, state (buffer ++ p) fid (started || not (is_empty p)))
unfolding feed continue_frame
feed-more p [] fid true h = refl
feed-more p (x ∷ buffer) fid true h = rw (==_refl fid)
feed-more [] [] fid false h = refl
feed-more (y ∷ p) [] fid false h = refl
feed-more p (x ∷ buffer) fid false h = absurd (cons-ne-nil (h refl))
  where
    cons-ne-nil : ◌≢◌ {A = List ℕ} (x ∷ buffer) []
    cons-ne-nil q = absurd (cc)

take-append_le : (n : ℕ) (xs ys : List ℕ) → n ≤ length xs → take n (xs ++ ys) ≡ take n xs
take-append_le zero xs ys h = refl
take-append_le (suc n) [] ys h = absurd (omega arith)
take-append_le (suc n) (x ∷ xs) ys h = ap (◌∷◌ x) (take-append_le n xs ys (omega arith))

-- A packet's slice of a transfer whose blocks have the stride's length is the start of its block.
pub packet_data-block :
    (stride actual_len : ℕ) (before block after : List ℕ)
    → length block ≡ stride
    → actual_len ≤ stride
    → packet_data stride (before ++ (block ++ after)) (length before) actual_len
      ≡ some (take actual_len block)
unfolding packet_data
packet_data-block stride actual_len before block after h k = rw (
  drop-append_self before (block ++ after),
  end_of_slice,
  leb_self,
  sub_self,
  take-append_le actual_len block after (omega (arith, h, k)),
)
  where
    end_of_slice :
        min (length before + min actual_len stride) (length (before ++ (block ++ after)))
        ≡ length before + actual_len
    end_of_slice =
        omega (arith, length-append before (block ++ after), length-append block after, h, k)

    leb_self : leb (length before) (length before + actual_len) ≡ true
    leb_self = ground arith

    sub_self : length before + actual_len - length before ≡ actual_len
    sub_self = omega arith

started-append :
    (started : Bool) (p q : List ℕ)
    → ((started || not (is_empty p)) || not (is_empty q)) ≡ (started || not (is_empty (p ++ q)))
started-append true p q = refl
started-append false [] q = refl
started-append false (x ∷ p) q = refl

unstarted-append :
    (started : Bool) (buffer p : List ℕ)
    → (started ≡ false → buffer ≡ [])
    → (started || not (is_empty p)) ≡ false
    → buffer ++ p ≡ []
unstarted-append true buffer p h k = absurd (cc)
unstarted-append false buffer [] h k = append-nil buffer ∙ h refl
unstarted-append false buffer (x ∷ p) h k = absurd (cc)

or_false : (b : Bool) → (b || false) ≡ b
or_false true = refl
or_false false = refl

feed_many-state :
    (ps : List (List ℕ)) (buffer : List ℕ) (fid : ℕ) (started : Bool)
    → (started ≡ false → buffer ≡ [])
    → feed_many fid ps (state buffer fid started)
      ≡ state (buffer ++ concat ps) fid (started || not (is_empty (concat ps)))
feed_many-state [] buffer fid started h = rw (append-nil buffer, or_false started)
feed_many-state (p ∷ ps) buffer fid started h =
    ap (λ r. feed_many fid ps r.1) (feed-more p buffer fid started h)
    ∙ feed_many-state ps (buffer ++ p) fid (started || not (is_empty p))
        (unstarted-append started buffer p h)
    ∙ rw (append_assoc buffer p (concat ps), started-append started p (concat ps))

-- Between two frames the buffer is empty.
abbrev pub between : ℕ → ReassemblyState
between last_fid = state [] last_fid false

feed-first :
    (p : List ℕ) (last_fid fid : ℕ) (is_eof : Bool)
    → feed p fid is_eof (between last_fid) ≡ feed p fid is_eof (between fid)
unfolding feed continue_frame
feed-first p last_fid fid is_eof = refl

feed-last :
    (q buffer : List ℕ) (fid : ℕ)
    → is_empty (buffer ++ q) ≡ false
    → feed q fid true (state buffer fid (not (is_empty buffer))) ≡ (some (buffer ++ q), between fid)
unfolding feed continue_frame
feed-last [] [] fid h = absurd (cc)
feed-last (y ∷ q) [] fid h = refl
feed-last q (x ∷ buffer) fid h = rw (==_refl fid)

feed-toggle :
    (q buffer : List ℕ) (fid other : ℕ) (is_eof : Bool)
    → is_empty buffer ≡ false
    → other ≢ fid
    → feed q other is_eof (state buffer fid (not (is_empty buffer)))
      ≡ (some buffer, state q other true)
unfolding feed
feed-toggle q [] fid other is_eof h k = absurd (cc)
feed-toggle q (x ∷ buffer) fid other is_eof h k = rw (ne→==_false other fid k)

feed_many-between :
    (p : List ℕ) (ps : List (List ℕ)) (last_fid fid : ℕ)
    → feed_many fid (p ∷ ps) (between last_fid)
      ≡ state (concat (p ∷ ps)) fid (not (is_empty (concat (p ∷ ps))))
feed_many-between p ps last_fid fid =
    ap (λ r. feed_many fid ps r.1) (feed-first p last_fid fid false)
    ∙ feed_many-state (p ∷ ps) [] fid false (λ h. refl)

-- The payloads of a frame, one after the other, are what comes out as the frame, whichever way it
-- ends: with the payload that has the end-of-frame bit, which then belongs to it, or at the first
-- payload with the other FID, which begins the next frame.
pub feed_many-frame :
    (p : List ℕ) (ps : List (List ℕ)) (q : List ℕ) (last_fid fid other : ℕ) (is_eof : Bool)
    → other ≢ fid
    → (is_empty (concat (p ∷ ps) ++ q) ≡ false
        → feed q fid true (feed_many fid (p ∷ ps) (between last_fid))
          ≡ (some (concat (p ∷ ps) ++ q), between fid))
      × (is_empty (concat (p ∷ ps)) ≡ false
          → feed q other is_eof (feed_many fid (p ∷ ps) (between last_fid))
            ≡ (some (concat (p ∷ ps)), state q other true))
feed_many-frame p ps q last_fid fid other is_eof h = (
  λ k.
      ap (feed q fid true) (feed_many-between p ps last_fid fid)
      ∙ feed-last q (concat (p ∷ ps)) fid k,
  λ k.
      ap (feed q other is_eof) (feed_many-between p ps last_fid fid)
      ∙ feed-toggle q (concat (p ∷ ps)) fid other is_eof k h,
)

abbrev pub is_panic : Scan → Bool
is_panic panicked = true
is_panic (captured _ _) = false
is_panic (scanned _) = false

judge_frame-is_panic :
    (frame_size : ℕ) (r : Option (List ℕ) × ReassemblyState) (continue : ReassemblyState → Scan)
    → ((st : ReassemblyState) → is_panic (continue st) ≡ false)
    → is_panic (judge_frame frame_size r continue) ≡ false
judge_frame-is_panic frame_size (none, st) continue h = h st
judge_frame-is_panic frame_size (some complete, st) continue h =
    elim (Bool-cases (is_complete_jpeg complete)) [
      | inl yes' ↦ simp yes' refl
      | inr no' ↦ simp no' (h st)
    ]

packet_data-some :
    (stride : ℕ) (bytes : List ℕ) (offset actual_len : ℕ)
    → offset ≤ length bytes
    → (slice : List ℕ) × (packet_data stride bytes offset actual_len ≡ some slice)
unfolding packet_data
packet_data-some stride bytes offset actual_len h = (
  take (min (offset + min actual_len stride) (length bytes) - offset) (drop offset bytes),
  rw in_range,
)
  where
    in_range : leb offset (min (offset + min actual_len stride) (length bytes)) ≡ true
    in_range = ground arith

-- The header of a packet that is not left out fits into it.
feed_packet-some :
    (pkt_data : List ℕ) (st : ReassemblyState)
    → (r : Option (List ℕ) × ReassemblyState) × (feed_packet pkt_data st ≡ some r)
unfolding feed_packet payload_of
feed_packet-some [] st = ((none, st), refl)
feed_packet-some (hdr_len ∷ []) st = ((none, st), refl)
feed_packet-some (hdr_len ∷ hdr_flags ∷ rest) st =
    let pkt_data = hdr_len ∷ hdr_flags ∷ rest in
    elim (Bool-cases (ltb hdr_len 2 || ltb (length pkt_data) hdr_len)) [
      | inl left_out ↦ ((none, st), rw left_out refl)
      | inr taken ↦
          let fits : leb hdr_len (length pkt_data) ≡ true = ground arith in
          (
            feed (drop hdr_len pkt_data) (low_bits hdr_flags 1) (has_bit 1 hdr_flags) st,
            rw (taken, fits) refl,
          )
    ]

-- A stride for each packet.
abbrev pub strides : ℕ → List ℕ → ℕ
strides stride [] = 0
strides stride (_ ∷ packets) = stride + strides stride packets

-- The packets of a transfer whose bytes hold a stride for each of them are scanned without a panic,
-- whatever their lengths and headers say.
pub scan_packets-is_panic :
    (stride frame_size : ℕ) (bytes packets : List ℕ) (offset : ℕ) (st : ReassemblyState)
    → offset + strides stride packets ≤ length bytes
    → is_panic (scan_packets stride frame_size bytes packets offset st) ≡ false
unfolding scan_packets
scan_packets-is_panic stride frame_size bytes [] offset st h = refl
scan_packets-is_panic stride frame_size bytes (actual_len ∷ packets) offset st h =
    let rest = scan_packets stride frame_size bytes packets (offset + stride) in
    let later : (st' : ReassemblyState) → is_panic (rest st') ≡ false = λ st'.
      scan_packets-is_panic stride frame_size bytes packets (offset + stride) st'
        (omega (arith, h)) in
    let slice = packet_data-some stride bytes offset actual_len (omega (arith, h)) in
    elim (Bool-cases (actual_len == 0)) [
      | inl empty ↦ simp empty (later st)
      | inr full ↦ simp full (
          subst (λ o. is_panic (scan_slice frame_size o st rest) ≡ false) (sym slice.1)
            (let fed = feed_packet-some slice.0 st in
              subst (λ o. is_panic (judge_fed frame_size o rest) ≡ false) (sym fed.1)
                (judge_frame-is_panic frame_size fed.0 rest later)))
    ]
