-- ===== src/Server/FecState/Recovery.antt =====
-- Recovery from parity: a frame over a group of payloads gives back the one that is missing.
use irohsion.Prelude.{
  ℕ, ◌+◌, ◌≤◌, ◌≡◌, refl, sym, ap, ◌∙◌, ◌==◌, if◌then◌else◌, ltb, arith, Bool, true, false, List,
  [], ◌∷◌, ◌++◌, map, Option, none, some, length, replicate, All, All-append_inv, length-replicate,
  ◌⊎◌, inl, inr, Bool-cases, Option-cases, ==_iff, le→ltb,
}
use mathlib.Core.List.{map-append, append-nil}
use irohsion.Prelude.Parity.{
  xor_into, xor_all, length-xor_into, take-xor_into_zero, length-xor_all, xor_all_but_one,
  xor_all-append,
}
use irohsion.Prelude.Map.{lookup, remove, keys, lookup-remove, member}
use irohsion.Protocol.{FecFrame}
use irohsion.Server.Sequence.{sequence_after}
use irohsion.Server.FecState.{
  FecState, BufferedPacket, scanned, scan, conclude, recover_frame, recover_bases, recover_ready,
  payload_for,
}
use irohsion.Server.FecState.InRange.{xor_bytes-fits, recover_frame_total, recover_bases_total}

-- The payloads of the sequences from `index` on are at hand.
abbrev pub Knows : (ℕ → Option (List ℕ)) → ℕ → ℕ → List (List ℕ) → Type 0
Knows known base index [] = Unit {0}
Knows known base index (p ∷ ps) =
    (known (sequence_after base index) ≡ some p) × Knows known base (index + 1) ps

scan_known :
    (known : ℕ → Option (List ℕ)) (base index : ℕ) (p ls parity : List ℕ) (missing : Option (ℕ × ℕ))
    → known (sequence_after base index) ≡ some p
    → length p ≤ length parity
    → scan known base index (length p ∷ ls) parity missing
      ≡ scan known base (index + 1) ls (xor_into parity p) missing
unfolding scan
scan_known known base index p ls parity missing k h = ground (arith, xor_bytes-fits parity p h)

-- The first payload that is not at hand is noted.
scan_gap :
    (known : ℕ → Option (List ℕ)) (base index l : ℕ) (ls parity : List ℕ)
    → known (sequence_after base index) ≡ none
    → l ≤ length parity
    → scan known base index (l ∷ ls) parity none
      ≡ scan known base (index + 1) ls parity (some (sequence_after base index, l))
unfolding scan
scan_gap known base index l ls parity k h = ground arith

scan_end :
    (known : ℕ → Option (List ℕ)) (base index : ℕ) (parity : List ℕ) (missing : Option (ℕ × ℕ))
    → scan known base index [] parity missing ≡ scanned parity missing
unfolding scan
scan_end known base index parity missing = refl

-- Known payloads are folded into the parity.
scan-Knows :
    (n : ℕ) (known : ℕ → Option (List ℕ)) (base index : ℕ) (ps : List (List ℕ)) (ls parity : List ℕ)
    (missing : Option (ℕ × ℕ))
    → Knows known base index ps
    → All (λ p. length p ≤ n) ps
    → n ≤ length parity
    → scan known base index (map length ps ++ ls) parity missing
      ≡ scan known base (index + length ps) ls (xor_all parity ps) missing
unfolding xor_all
scan-Knows n known base index [] ls parity missing k h b =
    ap (λ (t : ℕ). scan known base t ls parity missing) (omega arith)
scan-Knows n known base index (p ∷ ps) ls parity missing k h b =
    scan_known known base index p (map length ps ++ ls) parity missing k.0 (omega arith)
    ∙ scan-Knows n known base (index + 1) ps ls (xor_into parity p) missing k.1 h.1
        (omega (arith, length-xor_into parity p))
    ∙ ap (λ (t : ℕ). scan known base t ls (xor_all (xor_into parity p) ps) missing) (omega arith)

-- A frame whose parity covers the group `before ++ p ∷ after`, of which all but `p` are at hand.
pub record Covers (known : ℕ → Option (List ℕ)) (frame : FecFrame) (before : List (List ℕ))
    (p : List ℕ) (after : List (List ℕ)) (n : ℕ) : Type 0 where
  pub lengths : frame.payload_lengths ≡ map length (before ++ (p ∷ after))
  pub parity : frame.parity ≡ xor_all (replicate n 0) (before ++ (p ∷ after))
  pub bounded : All (λ q. length q ≤ n) (before ++ (p ∷ after))
  pub know_before : Knows known frame.base_sequence 0 before
  pub know_after : Knows known frame.base_sequence (length before + 1) after
  pub lacks : known (sequence_after frame.base_sequence (length before)) ≡ none

-- The scan of such a frame ends with the missing payload, padded by zeros, as its parity.
scan-Covers :
    (known : ℕ → Option (List ℕ)) (frame : FecFrame) (before : List (List ℕ)) (p : List ℕ)
    (after : List (List ℕ)) (n : ℕ)
    → Covers known frame before p after n
    → scan known frame.base_sequence 0 frame.payload_lengths frame.parity none
      ≡ scanned
          (xor_into (replicate n 0) p)
          (some (sequence_after frame.base_sequence (length before), length p))
scan-Covers known frame before p after n c =
    let full : List ℕ = xor_all (replicate n 0) (before ++ (p ∷ after)) in
    let base : ℕ = frame.base_sequence in
    let at : ℕ × ℕ = (sequence_after base (length before), length p) in
    let (fits_before, fits_rest) =
      All-append_inv (λ q. length q ≤ n) before (p ∷ after) c.bounded in
    let size : length full ≡ n =
      length-xor_all (before ++ (p ∷ after)) (replicate n 0) ∙ length-replicate n 0 in
    rw (c.lengths, c.parity, map-append length before (p ∷ after))
      (scan-Knows n known base 0 before (map length (p ∷ after)) full none c.know_before fits_before
          (omega arith)
        ∙ ap (λ (t : ℕ). scan known base t (map length (p ∷ after)) (xor_all full before) none)
            (omega arith)
        ∙ scan_gap known base (length before) (length p) (map length after) (xor_all full before)
            c.lacks (omega (arith, length-xor_all before full))
        ∙ ap (λ t. scan known base (length before + 1) t (xor_all full before) (some at))
            (sym (append-nil (map length after)))
        ∙ scan-Knows n known base (length before + 1) after [] (xor_all full before) (some at)
            c.know_after fits_rest.1 (omega (arith, length-xor_all before full))
        ∙ scan_end known base _ _ (some at)
        ∙ ap (λ t. scanned t (some at))
            (sym (xor_all-append before after full)
              ∙ xor_all_but_one before after p (replicate n 0)))

-- Such a frame is used up. It yields the missing payload under its sequence, unless that sequence
-- lies below `next_seq`.
pub recover_frame-Covers :
    (next_seq : ℕ) (known : ℕ → Option (List ℕ)) (frame : FecFrame) (before : List (List ℕ))
    (p : List ℕ) (after : List (List ℕ)) (n : ℕ)
    → Covers known frame before p after n
    → let sequence = sequence_after frame.base_sequence (length before) in
      recover_frame next_seq known frame
      ≡ some (true, if ltb sequence next_seq then [] else (sequence, p) ∷ [])
unfolding recover_frame conclude
recover_frame-Covers next_seq known frame before p after n c = rw (
  scan-Covers known frame before p after n c,
  take-xor_into_zero n p ((All-append_inv (λ q. length q ≤ n) before (p ∷ after) c.bounded).1.0),
)

-- `xs` is among the recovered packets.
abbrev pub Among : ℕ → List ℕ → List (ℕ × List ℕ) → Type 0
Among s p [] = ⊥
Among s p ((t, q) ∷ rs) = ((t ≡ s) × (q ≡ p)) ⊎ Among s p rs

Among-append_right :
    (s : ℕ) (p : List ℕ) (xs ys : List (ℕ × List ℕ)) → Among s p ys → Among s p (xs ++ ys)
Among-append_right s p [] ys h = h
Among-append_right s p ((t, q) ∷ xs) ys h = inr (Among-append_right s p xs ys h)

still_there :
    (d : Bool) (b base : ℕ) (frame : FecFrame) (frames : List (ℕ × FecFrame))
    → (b == base) ≡ false
    → lookup base frames ≡ some frame
    → lookup base (if d then remove b frames else frames) ≡ some frame
still_there true b base frame frames h f = rw (lookup-remove b base frames, h) f
still_there false b base frame frames h f = f

module _ (next_seq : ℕ) (known : ℕ → Option (List ℕ)) (base : ℕ) (frame : FecFrame) (s : ℕ)
    (p : List ℕ) (yields : recover_frame next_seq known frame ≡ some (true, (s, p) ∷ [])) where
  recover_bases-Among :
      (bases : List ℕ) (frames : List (ℕ × FecFrame))
      → lookup base frames ≡ some frame
      → member base bases ≡ true
      → (r : List (ℕ × FecFrame) × List (ℕ × List ℕ)) × (recover_bases next_seq known bases frames
          ≡ some r)
        × Among s p r.1
  unfolding recover_bases member
  recover_bases-Among [] frames f m = absurd (cc)
  recover_bases-Among (b ∷ bases) frames f m = elim (Bool-cases (b == base)) [
    | inl same ↦
        let here : lookup b frames ≡ some frame = rw ((==_iff b base).0 same) f in
        let (rest, e) = recover_bases_total next_seq known bases (remove b frames) in
        (
          (rest.0, (s, p) ∷ rest.1),
          rw (here, recover_bases) (rw yields (rw e refl)),
          inl (refl, refl),
        )
    | inr other ↦
        let later : member base bases ≡ true = ground arith in
        elim (Option-cases (lookup b frames)) [
          | inl gone ↦ rw (gone, recover_bases) (recover_bases-Among bases frames f later)
          | inr (fr, e) ↦
              let ((dropped, packets), g) = recover_frame_total next_seq known fr in
              let (rest, i, found) =
                recover_bases-Among bases (if dropped then remove b frames else frames)
                  (still_there dropped b base frame frames other f) later in
              (
                (rest.0, packets ++ rest.1),
                rw (e, recover_bases) (rw g (rw i refl)),
                Among-append_right s p packets rest.1 found,
              )
        ]
  ]

keys-member :
    {V : Type 0} (k : ℕ) (m : List (ℕ × V)) {v : V} → lookup k m ≡ some v → member k (keys m) ≡ true
unfolding lookup member
keys-member k [] h = absurd (cc)
keys-member k ((j, w) ∷ m) {v} h = ground (arith, keys-member k m {v = v})

-- One missing packet of a group is recovered, without a panic: if a frame of the state covers a group of which all
-- payloads but `p` are at hand, and the sequence of `p` is not below `next_seq`, then `p` is among
-- the recovered packets, under its sequence.
pub recover_ready-Among :
    (next_seq : ℕ) (buffered : List (ℕ × BufferedPacket)) (s : FecState) (base : ℕ)
    (frame : FecFrame) (before : List (List ℕ)) (p : List ℕ) (after : List (List ℕ)) (n : ℕ)
    → lookup base s.frames ≡ some frame
    → Covers (payload_for s buffered) frame before p after n
    → next_seq ≤ sequence_after frame.base_sequence (length before)
    → (r : FecState × List (ℕ × List ℕ)) × (recover_ready next_seq buffered s ≡ some r)
      × Among (sequence_after frame.base_sequence (length before)) p r.1
unfolding recover_ready
recover_ready-Among next_seq buffered s base frame before p after n f c h =
    let (r, e, found) =
      recover_bases-Among next_seq (payload_for s buffered) base frame _ p
        (rw (
          recover_frame-Covers next_seq (payload_for s buffered) frame before p after n c,
          le→ltb (sequence_after frame.base_sequence (length before)) next_seq h,
        ))
        (keys s.frames) s.frames f (keys-member base s.frames f) in
    ((record s { frames = r.0 }, r.1), rw (e, recover_ready) refl, found)
