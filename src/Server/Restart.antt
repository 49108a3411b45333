-- ===== src/Server/Restart.antt =====
-- `RestartDetector` of crates/server/src/main.rs: a sender that starts over shows as a run of
-- packets far behind the expected sequence. `usize` is 64 bits wide.
use irohsion.Prelude.{ℕ, ◌+◌, ◌-◌, ◌^◌, ◌==◌, if◌then◌else◌, ltb, leb, Bool, false, ◌||◌, min, max}
use irohsion.Protocol.{max_fragments}

abbrev pub restart_backward_gap : ℕ
restart_backward_gap = 4096

abbrev pub restart_confirm_packets : ℕ
restart_confirm_packets = max_fragments + 1

pub record RestartDetector : Type 0 where
  pub count : ℕ
  pub highest_seq : ℕ

abbrev pub cleared : RestartDetector
cleared = record { count = 0; highest_seq = 0 }

abbrev usize_max : ℕ
usize_max = 2 ^ 64 - 1

unfoldable pub observe : ℕ → ℕ → RestartDetector → RestartDetector × Bool
observe sequence next_seq d =
    if ltb (next_seq - sequence) restart_backward_gap
    then (cleared, false)
    else let d' : RestartDetector =
        if d.count == 0 || leb d.highest_seq sequence
        then record {
          count = min (d.count + 1) usize_max;
          highest_seq = max d.highest_seq sequence;
        }
        else record { count = 1; highest_seq = sequence } in
      (d', leb restart_confirm_packets d'.count)
