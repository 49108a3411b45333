-- ===== src/Server/FecState.antt =====
-- `FecState` of crates/server/src/main.rs: parity frames and the payloads that they cover.
pub mod InRange
pub mod Recovery
use irohsion.Prelude.{
  ℕ, zero, suc, ◌+◌, ◌≤◌, ◌<◌, ◌≡◌, refl, ◌==◌, if◌then◌else◌, ltb, leb, arith, Bool, true, false,
  not, ◌||◌, List, [], ◌∷◌, ◌++◌, Option, none, some, length, take, bit_xor,
}
use irohsion.Prelude.Map.{lookup, insert, remove, contains_key, keys}
use irohsion.Protocol.{max_media_sequence, FecFrame}
use irohsion.Server.Sequence.{sequence_after}

abbrev pub fec_frame_track_limit : ℕ
fec_frame_track_limit = 256

abbrev pub fec_payload_track_limit : ℕ
fec_payload_track_limit = 4096

pub record BufferedPacket : Type 0 where
  pub payload : List ℕ
  pub received_at : ℕ

pub record FecState : Type 0 where
  pub frames : List (ℕ × FecFrame)
  pub frame_order : List ℕ
  pub payloads : List (ℕ × List ℕ)
  pub payload_order : List ℕ

abbrev pub empty : FecState
empty = record { frames = []; frame_order = []; payloads = []; payload_order = [] }

-- `while map.len() > limit { map.remove(order.pop_front()?); }`
unfoldable pub evict {ℓ} : {V : Type ℓ} → ℕ → List ℕ → List (ℕ × V) → List ℕ × List (ℕ × V)
evict limit [] m = ([], m)
evict limit (oldest ∷ order) m =
    if ltb limit (length m) then evict limit order (remove oldest m) else (oldest ∷ order, m)

unfoldable pub enforce_frame_limit : FecState → FecState
enforce_frame_limit s =
    let r = evict fec_frame_track_limit s.frame_order s.frames in
    record s { frame_order = r.0; frames = r.1 }

unfoldable pub enforce_payload_limit : FecState → FecState
enforce_payload_limit s =
    let r = evict fec_payload_track_limit s.payload_order s.payloads in
    record s { payload_order = r.0; payloads = r.1 }

unfoldable pub insert_frame : FecFrame → FecState → FecState
unfolding enforce_frame_limit
insert_frame frame s =
    let base = frame.base_sequence in
    enforce_frame_limit (record s {
      frame_order =
          if contains_key base s.frames then s.frame_order else s.frame_order ++ (base ∷ []);
      frames = insert base frame s.frames;
    })

unfoldable pub insert_payload : ℕ → List ℕ → FecState → FecState
unfolding enforce_payload_limit
insert_payload sequence payload s =
    if ltb max_media_sequence sequence || contains_key sequence s.payloads
    then s
    else enforce_payload_limit (record s {
      payload_order = s.payload_order ++ (sequence ∷ []);
      payloads = insert sequence payload s.payloads;
    })

unfoldable pub payload_for : FecState → List (ℕ × BufferedPacket) → ℕ → Option (List ℕ)
payload_for s buffered sequence = elim (lookup sequence s.payloads) [
  | some payload ↦ some payload
  | none ↦ elim (lookup sequence buffered) [ some packet ↦ some packet.payload | none ↦ none ]
]

-- `parity[byte_index] ^= *byte` for every byte of a payload; `none` is the panic of an index that is
-- out of range.
unfoldable pub xor_bytes : List ℕ → List ℕ → Option (List ℕ)
xor_bytes parity [] = some parity
xor_bytes [] (byte ∷ bytes) = none
xor_bytes (x ∷ xs) (byte ∷ bytes) = elim (xor_bytes xs bytes) [
  | none ↦ none
  | some rest ↦ some (bit_xor x byte ∷ rest)
]

-- How the loop over one frame's lengths ends; `out_of_range` is its panic.
pub data Scan : Type 0 where
  unusable : Scan
  multiple_missing : Scan
  out_of_range : Scan
  scanned : List ℕ → Option (ℕ × ℕ) → Scan

-- The loop over `frame.payload_lengths` from `index` on; `known` is `payload_for`.
unfoldable pub scan : (ℕ → Option (List ℕ)) → ℕ → ℕ → List ℕ → List ℕ → Option (ℕ × ℕ) → Scan
unfolding xor_bytes
scan known base index [] parity missing = scanned parity missing
scan known base index (expected_len ∷ lengths) parity missing =
    let sequence = sequence_after base index in
    elim (ltb (length parity) expected_len) [
      | true ↦ unusable
      | false ↦ elim (known sequence) [
        | some payload ↦
            elim (not (length payload == expected_len) || ltb (length parity) (length payload)) [
              | true ↦ unusable
              | false ↦ elim (xor_bytes parity payload) [
                | none ↦ out_of_range
                | some mixed ↦ scan known base (index + 1) lengths mixed missing
              ]
            ]
        | none ↦ elim missing [
          | none ↦ scan known base (index + 1) lengths parity (some (sequence, expected_len))
          | some earlier ↦ multiple_missing
        ]
      ]
    ]

-- What one frame yields: whether the frame is dropped, and the recovered packet. Here and below
-- `none` is the panic.
unfoldable pub conclude : ℕ → Scan → Option (Bool × List (ℕ × List ℕ))
conclude next_seq unusable = some (true, [])
conclude next_seq multiple_missing = some (false, [])
conclude next_seq out_of_range = none
conclude next_seq (scanned parity none) = some (true, [])
conclude next_seq (scanned parity (some (sequence, expected_len))) =
    some (true, if ltb sequence next_seq then [] else (sequence, take expected_len parity) ∷ [])

unfoldable pub recover_frame :
    ℕ → (ℕ → Option (List ℕ)) → FecFrame → Option (Bool × List (ℕ × List ℕ))
unfolding scan conclude
recover_frame next_seq known frame =
    conclude next_seq (scan known frame.base_sequence 0 frame.payload_lengths frame.parity none)

-- The `for base in bases` loop. It changes `frames` alone, so `payload_for` stays the same.
unfoldable pub recover_bases :
    ℕ
    → (ℕ → Option (List ℕ))
    → List ℕ
    → List (ℕ × FecFrame)
    → Option (List (ℕ × FecFrame) × List (ℕ × List ℕ))
unfolding recover_frame
recover_bases next_seq known [] frames = some (frames, [])
recover_bases next_seq known (base ∷ bases) frames = elim (lookup base frames) [
  | none ↦ recover_bases next_seq known bases frames
  | some frame ↦ elim (recover_frame next_seq known frame) [
    | none ↦ none
    | some (drop_frame, packets) ↦
        elim (recover_bases next_seq known bases
          (if drop_frame then remove base frames else frames)) [
            | none ↦ none
            | some (left, more) ↦ some (left, packets ++ more)
          ]
  ]
]

unfoldable pub recover_ready :
    ℕ → List (ℕ × BufferedPacket) → FecState → Option (FecState × List (ℕ × List ℕ))
unfolding recover_bases payload_for
recover_ready next_seq buffered s =
    elim (recover_bases next_seq (payload_for s buffered) (keys s.frames) s.frames) [
      | none ↦ none
      | some (left, packets) ↦ some (record s { frames = left }, packets)
    ]
