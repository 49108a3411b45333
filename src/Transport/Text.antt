-- ===== src/Transport/Text.antt =====
-- `encode_health_text` and `decode_health_text` of crates/transport/src/lib.rs.
use irohsion.Prelude.{
  ℕ, ◌≡◌, ◌≢◌, refl, ◌==◌, if◌then◌else◌, arith, Bool, true, false, List, [], ◌∷◌, ◌++◌, All,
  All-append,
}

abbrev pub tab : ℕ
tab = 9

abbrev pub newline : ℕ
newline = 10

abbrev pub carriage_return : ℕ
carriage_return = 13

abbrev pub backslash : ℕ
backslash = 92

-- The `match` on one character.
unfoldable pub encode_char : ℕ → List ℕ
encode_char ch =
    if ch == backslash
    then backslash ∷ backslash ∷ []
    else if ch == tab
    then backslash ∷ b't' ∷ []
    else if ch == newline
    then backslash ∷ b'n' ∷ []
    else if ch == carriage_return
    then backslash ∷ b'r' ∷ []
    else ch ∷ []

unfoldable pub encode_health_text : List ℕ → List ℕ
unfolding encode_char
encode_health_text [] = []
encode_health_text (ch ∷ text) = encode_char ch ++ encode_health_text text

-- What a backslash and the character behind it stand for.
unfoldable pub decode_escape : ℕ → List ℕ
decode_escape other =
    if other == backslash
    then backslash ∷ []
    else if other == b't'
    then tab ∷ []
    else if other == b'n'
    then newline ∷ []
    else if other == b'r'
    then carriage_return ∷ []
    else backslash ∷ other ∷ []

-- The loop over the characters; the flag is set behind a backslash that waits for its character.
unfoldable pub decode_from : Bool → List ℕ → List ℕ
unfolding decode_escape
decode_from false [] = []
decode_from true [] = backslash ∷ []
decode_from false (ch ∷ text) =
    let rest = decode_from (ch == backslash) text in if ch == backslash then rest else ch ∷ rest
decode_from true (other ∷ text) = decode_escape other ++ decode_from false text

unfoldable pub decode_health_text : List ℕ → List ℕ
unfolding decode_from
decode_health_text = decode_from false

-- A character that ends neither a field nor a line.
abbrev pub IsPlain : ℕ → Type 0
IsPlain c = (c ≢ tab) × (c ≢ newline) × (c ≢ carriage_return)

decode-encode_char :
    (ch : ℕ) (rest : List ℕ)
    → decode_from false (encode_char ch ++ rest) ≡ ch ∷ decode_from false rest
unfolding decode_from encode_char decode_escape
decode-encode_char ch rest = ground arith

-- Decoding gives back every text that was encoded, whatever its characters.
pub decode-encode_health_text :
    (text : List ℕ) → decode_health_text (encode_health_text text) ≡ text
unfolding decode_health_text encode_health_text
decode-encode_health_text [] = unfold decode_from in refl
decode-encode_health_text (ch ∷ text) =
    rw (decode-encode_char ch (encode_health_text text), decode-encode_health_text text) refl

encode_char-IsPlain : (ch : ℕ) → All IsPlain (encode_char ch)
unfolding encode_char
encode_char-IsPlain ch = ground arith

-- An encoded text ends neither a field nor a line.
pub encode_health_text-IsPlain : (text : List ℕ) → All IsPlain (encode_health_text text)
unfolding encode_health_text
encode_health_text-IsPlain [] = tt
encode_health_text-IsPlain (ch ∷ text) =
    All-append IsPlain (encode_char ch) (encode_health_text text) (encode_char-IsPlain ch)
      (encode_health_text-IsPlain text)
