-- ===== src/Client/Strategy/Backlog.antt =====
-- `parse_tc_backlog` and `parse_backlog_bytes` of crates/client/src/path_strategy.rs, which read the
-- output of `tc -s qdisc show`.
use irohsion.Prelude.{
  ℕ, ◌<◌, ◌^◌, ◌≡◌, refl, ◌==◌, if◌then◌else◌, leb, Bool, true, false, not, ◌&&◌, ◌||◌, List, [],
  ◌∷◌, ◌++◌, Option, none, some, All,
}
use irohsion.Prelude.Bytes.{bytes_eq}
use irohsion.Transport.Decimal.{to_string, parse_u64, parse_u64-to_string}
use irohsion.Transport.Fields.{lines}

abbrev pub backlog_word : List ℕ
backlog_word = b'b' ∷ b'a' ∷ b'c' ∷ b'k' ∷ b'l' ∷ b'o' ∷ b'g' ∷ []

unfoldable pub starts_with : List ℕ → List ℕ → Bool
starts_with [] text = true
starts_with (p ∷ ps) [] = false
starts_with (p ∷ ps) (c ∷ text) = p == c && starts_with ps text

-- `text.contains(pattern)`
unfoldable pub contains_text : List ℕ → List ℕ → Bool
unfolding starts_with
contains_text pattern [] = starts_with pattern []
contains_text pattern (c ∷ text) =
    let rest = contains_text pattern text in if starts_with pattern (c ∷ text) then true else rest

-- `char::is_whitespace`, the Unicode property.
abbrev is_whitespace : ℕ → Bool
is_whitespace c =
    (leb 9 c && leb c 13)
    || (c == 32
        || (c == 133
            || (c == 160
                || (c == 5760
                    || ((leb 8192 c && leb c 8202)
                        || (c == 8232
                            || (c == 8233 || (c == 8239 || (c == 8287 || c == 12288)))))))))

abbrev push_word : List ℕ → List (List ℕ) → List (List ℕ)
push_word [] words = words
push_word (c ∷ word) words = (c ∷ word) ∷ words

-- `split_whitespace`: the words, with the one that the text starts in by itself.
unfoldable pub words_from : List ℕ → List ℕ × List (List ℕ)
words_from [] = ([], [])
words_from (c ∷ text) =
    let rest = words_from text in
    if is_whitespace c then ([], push_word rest.0 rest.1) else (c ∷ rest.0, rest.1)

unfoldable pub split_whitespace : List ℕ → List (List ℕ)
unfolding words_from
split_whitespace text = let r = words_from text in push_word r.0 r.1

-- `value.strip_suffix('b')`
unfoldable pub strip_b : List ℕ → Option (List ℕ)
strip_b [] = none
strip_b (c ∷ []) = if c == b'b' then some [] else none
strip_b (c ∷ d ∷ value) = elim (strip_b (d ∷ value)) [ none ↦ none | some front ↦ some (c ∷ front) ]

unfoldable pub parse_backlog_bytes : List ℕ → Option ℕ
unfolding strip_b
parse_backlog_bytes value = elim (strip_b value) [ none ↦ none | some front ↦ parse_u64 front ]

-- The loop over the words: `none` if it goes to its end, and else what the function returns.
unfoldable pub find_backlog : List (List ℕ) → Option (Option ℕ)
unfolding parse_backlog_bytes
find_backlog [] = none
find_backlog (word ∷ []) = if bytes_eq word backlog_word then some none else none
find_backlog (word ∷ value ∷ words) =
    let rest = find_backlog (value ∷ words) in
    if bytes_eq word backlog_word then some (parse_backlog_bytes value) else rest

unfoldable pub find_in_lines : List (List ℕ) → Option ℕ
unfolding contains_text split_whitespace find_backlog
find_in_lines [] = none
find_in_lines (line ∷ rest) =
    let later = find_in_lines rest in
    if not (contains_text backlog_word line)
    then later
    else elim (find_backlog (split_whitespace line)) [ none ↦ later | some answer ↦ answer ]

unfoldable pub parse_tc_backlog : List ℕ → Option ℕ
unfolding find_in_lines
parse_tc_backlog stdout = find_in_lines (lines stdout)

strip_b-append : (front : List ℕ) → strip_b (front ++ (b'b' ∷ [])) ≡ some front
unfolding strip_b
strip_b-append [] = refl
strip_b-append (c ∷ []) = refl
strip_b-append (c ∷ d ∷ front) = rw (strip_b-append (d ∷ front)) refl

parse_backlog_bytes-to_string :
    (n : ℕ) → n < 2 ^ 64 → parse_backlog_bytes (to_string n ++ (b'b' ∷ [])) ≡ some n
unfolding parse_backlog_bytes
parse_backlog_bytes-to_string n k =
    rw (strip_b-append (to_string n), parse_backlog_bytes) (parse_u64-to_string n k)

-- The count behind the first word `backlog` of a line is read, whatever stands around it: `backlog
-- 1234b` gives 1234, for every number of 64 bits.
pub find_backlog-to_string :
    (before : List (List ℕ)) (n : ℕ) (after : List (List ℕ))
    → All (λ word. bytes_eq word backlog_word ≡ false) before
    → n < 2 ^ 64
    → find_backlog (before ++ (backlog_word ∷ (to_string n ++ (b'b' ∷ [])) ∷ after)) ≡ some (some n)
unfolding find_backlog
find_backlog-to_string [] n after h k = rw (parse_backlog_bytes-to_string n k) refl
find_backlog-to_string (word ∷ []) n after h k = rw (h.0) (find_backlog-to_string [] n after tt k)
find_backlog-to_string (word ∷ next ∷ before) n after h k =
    rw (h.0) (find_backlog-to_string (next ∷ before) n after h.1 k)
