-- ===== src/Server/Sequence.antt =====
-- `next_sequence` and `sequence_after` of crates/server/src/main.rs.
use irohsion.Prelude.{ℕ, zero, suc, ◌+◌, ◌%◌, ◌≤◌, ◌≡◌, ◌==◌, if◌then◌else◌, arith}
use irohsion.Protocol.{max_media_sequence}

unfoldable pub next_sequence : ℕ → ℕ
next_sequence sequence = if sequence == max_media_sequence then 0 else sequence + 1

-- `for _ in 0..offset { sequence = next_sequence(sequence); }`
unfoldable pub sequence_after : ℕ → ℕ → ℕ
unfolding next_sequence
sequence_after sequence zero = sequence
sequence_after sequence (suc offset) = sequence_after (next_sequence sequence) offset

pub next_sequence-le : (s : ℕ) → s ≤ max_media_sequence → next_sequence s ≤ max_media_sequence
unfolding next_sequence
next_sequence-le s h = ground arith

-- On media sequences the loop adds the offset modulo the number of media sequences.
pub sequence_after-mod :
    (n s : ℕ) → s ≤ max_media_sequence → sequence_after s n ≡ (s + n) % (max_media_sequence + 1)
unfolding sequence_after
sequence_after-mod zero s h = omega arith
sequence_after-mod (suc n) s h =
    ground (arith, sequence_after-mod n (next_sequence s) (next_sequence-le s h))
