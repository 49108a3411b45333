-- ===== src/Tests/Client.antt =====
-- The client of crates/client/src/main.rs on concrete payloads.
use irohsion.Prelude.{
  ℕ, ◌≡◌, ◌==◌, ◌*◌, ◌/◌, refl, ◌+◌, ◌≤◌, List, [], ◌∷◌, Option, some, none, true, length, arith,
  All, ltb, if◌then◌else◌, ◌⊎◌,
}
use irohsion.Prelude.Map.{lookup}
use irohsion.Protocol.{RepairRequest, max_fragments}
use irohsion.Protocol.Fec.{IsFrame}
use irohsion.Server.Sequence.{sequence_after}
use irohsion.Server.Assembly.{FragmentAssembly, into_payload}
use irohsion.Server.FecState.{recover_frame}
use irohsion.Client.Split.{
  Float, packet_split_ranges, mtu_chunked_split_ranges, weighted_split_ranges,
}
use irohsion.Client.Split.Ranges.{Pieces, packet_split_ranges-Pieces}
use irohsion.Client.Split.Reassembly.{filled, slices, into_payload-packet_split_ranges}
use irohsion.Client.Fec.{FecEncoder, fixed, group_frame, record_source}
use irohsion.Client.Fec.Recovery.{
  IsEncoder, HasGroups, record_source-IsEncoder, recover-group_frame,
}
use irohsion.Client.RepairCache
use irohsion.Client.RepairCache.{CachedPacket, RepairCache, insert_packet, fragments_for, requested}
use irohsion.Client.RepairCache.Limits.{IsCache, insert_packet-IsCache, fragments_for-IsCache}

-- Weights in percent, and a rounding down.
abbrev pub percent : Float
percent = record {
  F = ℕ;
  zero_float = 0;
  add_float = λ a b. a + b;
  scaled_round = λ n w. n * w / 100;
}

abbrev cut : List (ℕ × ℕ × ℕ)
cut = (0, 0, 3) ∷ (1, 3, 6) ∷ (1, 6, 7) ∷ []

cut_is : packet_split_ranges percent 7 (50 ∷ 50 ∷ []) (some 3) ≡ some (some cut)
unfolding packet_split_ranges mtu_chunked_split_ranges weighted_split_ranges
cut_is = refl

packet_split_ranges-Pieces_example : Pieces 2 3 0 7 cut × (length cut ≤ max_fragments)
packet_split_ranges-Pieces_example =
    packet_split_ranges-Pieces percent 7 50 (50 ∷ []) (some 3) cut cut_is

abbrev seven : List ℕ
seven = 1 ∷ 2 ∷ 3 ∷ 4 ∷ 5 ∷ 6 ∷ 7 ∷ []

abbrev arrived : FragmentAssembly
arrived = record {
  fragments = filled (slices seven cut);
  received = 3;
  first_seen = 0;
  last_repair_request = none;
}

into_payload-packet_split_ranges_example : into_payload arrived ≡ some seven
into_payload-packet_split_ranges_example =
    into_payload-packet_split_ranges percent seven 50 (50 ∷ []) (some 3) cut arrived cut_is refl

abbrev encoder : FecEncoder
encoder = record {
  mode = fixed 2;
  mtu = none;
  packets = record { sequence = 4; payload = 1 ∷ 2 ∷ [] } ∷ [];
}

encoder-IsEncoder : IsEncoder encoder
encoder-IsEncoder = (4, (refl, omega arith, omega arith, tt), omega arith)

encoder-HasGroups : HasGroups 8 encoder
encoder-HasGroups = (omega arith, λ n e. ground arith)

record_source-IsEncoder_example :
    IsEncoder (record_source 8 5 (7 ∷ []) encoder).0
    × All IsFrame (record_source 8 5 (7 ∷ []) encoder).1
record_source-IsEncoder_example =
    record_source-IsEncoder 8 5 (7 ∷ []) encoder encoder-IsEncoder encoder-HasGroups (omega arith)

abbrev known : ℕ → Option (List ℕ)
known s = if s == 4 then some (1 ∷ 2 ∷ []) else none

recover-group_frame_example :
    recover_frame 5 known (group_frame 4 ((1 ∷ 2 ∷ []) ∷ (7 ∷ []) ∷ []))
    ≡ some (true, if ltb (sequence_after 4 1) 5 then [] else (sequence_after 4 1, 7 ∷ []) ∷ [])
recover-group_frame_example =
    recover-group_frame 5 known 4 ((1 ∷ 2 ∷ []) ∷ []) (7 ∷ []) [] known_4 tt unknown_5
  where
    known_4 : (known (sequence_after 4 0) ≡ some (1 ∷ 2 ∷ [])) × Unit {0}
    known_4 = unfold sequence_after in (refl, tt)

    unknown_5 : known (sequence_after 4 1) ≡ none
    unknown_5 = unfold sequence_after in refl

new-IsCache : IsCache (RepairCache.new 1000 2)
new-IsCache = record {
  packets_queued = λ k h. unfold lookup in refl;
  requests_queued = λ k h. unfold lookup in refl;
  packets_bounded = omega arith;
  requests_bounded = omega arith;
}

abbrev stored : RepairCache
stored =
    insert_packet 5 9 (record { packet = 1 ∷ []; payload_len = 1 } ∷ []) (RepairCache.new 1000 2)

abbrev ask : RepairRequest
ask = record { sequence = 9; missing_mask = 1 }

stored-IsCache : IsCache stored
stored-IsCache =
    insert_packet-IsCache 5 9 (record { packet = 1 ∷ []; payload_len = 1 } ∷ [])
      (RepairCache.new 1000 2) new-IsCache

fragments_for-IsCache_example :
    IsCache (fragments_for 6 ask stored).0
    × (((fragments_for 6 ask stored).1 ≡ [])
        ⊎ ((packet : CachedPacket) × (lookup 9 stored.packets ≡ some packet)
            × ((fragments_for 6 ask stored).1 ≡ requested 1 packet.fragments)))
fragments_for-IsCache_example = fragments_for-IsCache 6 ask stored stored-IsCache
