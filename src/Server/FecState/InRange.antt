-- ===== src/Server/FecState/InRange.antt =====
-- `recover_ready` of crates/server/src/main.rs folds payloads into a frame's parity by index; here is why
-- no index is out of range.
use irohsion.Prelude.{
  ℕ, ◌+◌, ◌≤◌, ◌≡◌, refl, not, ◌||◌, ◌==◌, if◌then◌else◌, ltb, arith, Bool, List, [], ◌∷◌, ◌++◌,
  Option, none, some, length, inl, inr, Bool-cases, Option-cases,
}
use irohsion.Prelude.Parity.{xor_into}
use irohsion.Prelude.Map.{lookup, remove, keys}
use irohsion.Protocol.{FecFrame}
use irohsion.Server.Sequence.{sequence_after}
use irohsion.Server.FecState.{
  FecState, BufferedPacket, Scan, unusable, multiple_missing, out_of_range, scanned, xor_bytes,
  scan, conclude, recover_frame, recover_bases, recover_ready, payload_for,
}

-- No index is out of range on a payload that is no longer than the parity.
pub xor_bytes-fits :
    (parity p : List ℕ) → length p ≤ length parity → xor_bytes parity p ≡ some (xor_into parity p)
unfolding xor_bytes xor_into
xor_bytes-fits [] [] h = refl
xor_bytes-fits (x ∷ xs) [] h = refl
xor_bytes-fits [] (b ∷ bs) h = absurd (omega arith)
xor_bytes-fits (x ∷ xs) (b ∷ bs) h = rw (xor_bytes-fits xs bs (omega arith)) refl

abbrev InRange : Scan → Type 0
InRange out_of_range = ⊥
InRange unusable = Unit {0}
InRange multiple_missing = Unit {0}
InRange (scanned parity missing) = Unit {0}

-- The guards on the lengths keep the scan of any frame in range.
scan-InRange :
    (known : ℕ → Option (List ℕ)) (base index : ℕ) (ls parity : List ℕ) (missing : Option (ℕ × ℕ))
    → InRange (scan known base index ls parity missing)
unfolding scan
scan-InRange known base index [] parity missing = tt
scan-InRange known base index (l ∷ ls) parity missing = elim (Bool-cases (ltb (length parity) l)) [
  | inl short ↦ rw (short, scan) tt
  | inr enough ↦ elim (Option-cases (known (sequence_after base index))) [
    | inl e ↦
        rw (enough, e, scan)
          (gap missing
            (scan-InRange known base (index + 1) ls parity (some (sequence_after base index, l))))
    | inr (p, e) ↦ elim (Bool-cases (not (length p == l) || ltb (length parity) (length p))) [
      | inl bad ↦ rw (enough, e, bad, scan) tt
      | inr good ↦
          rw (enough, e, good, scan, xor_bytes-fits parity p (ground (arith, good)))
            (scan-InRange known base (index + 1) ls (xor_into parity p) missing)
    ]
  ]
]
  where
    gap :
        (m : Option (ℕ × ℕ))
        → InRange (scan known base (index + 1) ls parity (some (sequence_after base index, l)))
        → InRange (elim m [
          | none ↦ scan known base (index + 1) ls parity (some (sequence_after base index, l))
          | some earlier ↦ multiple_missing
        ])
    gap none rest = rest
    gap (some earlier) rest = tt

conclude_total :
    (next_seq : ℕ) (c : Scan)
    → InRange c
    → (r : Bool × List (ℕ × List ℕ)) × (conclude next_seq c ≡ some r)
unfolding conclude
conclude_total next_seq unusable h = (_, refl)
conclude_total next_seq multiple_missing h = (_, refl)
conclude_total next_seq out_of_range h = elim h [ ]
conclude_total next_seq (scanned parity none) h = (_, refl)
conclude_total next_seq (scanned parity (some (s, l))) h = (_, refl)

pub recover_frame_total :
    (next_seq : ℕ) (known : ℕ → Option (List ℕ)) (frame : FecFrame)
    → (r : Bool × List (ℕ × List ℕ)) × (recover_frame next_seq known frame ≡ some r)
unfolding recover_frame
recover_frame_total next_seq known frame =
    conclude_total next_seq _
      (scan-InRange known frame.base_sequence 0 frame.payload_lengths frame.parity none)

pub recover_bases_total :
    (next_seq : ℕ) (known : ℕ → Option (List ℕ)) (bases : List ℕ) (frames : List (ℕ × FecFrame))
    → (r : List (ℕ × FecFrame) × List (ℕ × List ℕ)) × (recover_bases next_seq known bases frames
        ≡ some r)
unfolding recover_bases
recover_bases_total next_seq known [] frames = (_, refl)
recover_bases_total next_seq known (b ∷ bases) frames = elim (Option-cases (lookup b frames)) [
  | inl gone ↦ rw (gone, recover_bases) (recover_bases_total next_seq known bases frames)
  | inr (frame, e) ↦
      let ((dropped, packets), f) = recover_frame_total next_seq known frame in
      let (rest, g) =
        recover_bases_total next_seq known bases (if dropped then remove b frames else frames) in
      ((rest.0, packets ++ rest.1), rw (e, recover_bases) (rw f (rw g refl)))
]

-- Whatever the state, recovery ends without an index out of range.
pub recover_ready_total :
    (next_seq : ℕ) (buffered : List (ℕ × BufferedPacket)) (s : FecState)
    → (r : FecState × List (ℕ × List ℕ)) × (recover_ready next_seq buffered s ≡ some r)
unfolding recover_ready
recover_ready_total next_seq buffered s =
    let (r, e) = recover_bases_total next_seq (payload_for s buffered) (keys s.frames) s.frames in
    ((record s { frames = r.0 }, r.1), rw (e, recover_ready) refl)
