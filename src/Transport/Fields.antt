-- ===== src/Transport/Fields.antt =====
-- What crates/transport/src/lib.rs uses of Rust's `str::split` and `str::lines`.
use irohsion.Prelude.{
  ℕ, ◌≡◌, ◌≢◌, refl, ◌==◌, if◌then◌else◌, arith, List, [], ◌∷◌, ◌++◌, All, Bool-cases, inl, inr,
}
use irohsion.Transport.Text.{IsPlain, tab, newline, carriage_return}

-- The text up to the next separator, and what follows it.
abbrev push_first : ℕ → List (List ℕ) → List (List ℕ)
push_first c [] = (c ∷ []) ∷ []
push_first c (field ∷ fields) = (c ∷ field) ∷ fields

-- `text.split(separator)`: always one field or more.
unfoldable pub split : ℕ → List ℕ → List (List ℕ)
split separator [] = [] ∷ []
split separator (c ∷ text) =
    let rest = split separator text in if c == separator then [] ∷ rest else push_first c rest

-- A line without the carriage return at its end.
unfoldable pub trim_end : List ℕ → List ℕ
trim_end [] = []
trim_end (c ∷ []) = if c == carriage_return then [] else c ∷ []
trim_end (c ∷ d ∷ line) = c ∷ trim_end (d ∷ line)

-- The fields between newlines, less an empty one at the end; all but one that no newline ends lose a
-- carriage return.
unfoldable pub ended_lines : List (List ℕ) → List (List ℕ)
unfolding trim_end
ended_lines [] = []
ended_lines ([] ∷ []) = []
ended_lines ((c ∷ line) ∷ []) = (c ∷ line) ∷ []
ended_lines (line ∷ next ∷ rest) = trim_end line ∷ ended_lines (next ∷ rest)

-- `text.lines()`
unfoldable pub lines : List ℕ → List (List ℕ)
unfolding split ended_lines
lines text = ended_lines (split newline text)

-- A character other than a separator.
abbrev Other : ℕ → ℕ → Type 0
Other separator c = c ≢ separator

split-Other :
    (separator : ℕ) (field : List ℕ)
    → All (Other separator) field
    → split separator field ≡ field ∷ []
unfolding split
split-Other separator [] h = refl
split-Other separator (c ∷ field) h = rw (split-Other separator field h.1) (ground arith)

split-append :
    (separator : ℕ) (field text : List ℕ)
    → All (Other separator) field
    → split separator (field ++ (separator ∷ text)) ≡ field ∷ split separator text
unfolding split
split-append separator [] text h = ground arith
split-append separator (c ∷ field) text h =
    rw (split-append separator field text h.1) (ground arith)

-- Fields with a tab between each two.
abbrev pub tabbed : List (List ℕ) → List ℕ
tabbed [] = []
tabbed (field ∷ []) = field
tabbed (field ∷ next ∷ fields) = field ++ (tab ∷ tabbed (next ∷ fields))

-- Lines with a newline behind each.
abbrev pub ended : List (List ℕ) → List ℕ
ended [] = []
ended (line ∷ rest) = line ++ (newline ∷ ended rest)

All-weaken : (P Q : ℕ → Type 0) → ((c : ℕ) → P c → Q c) → (xs : List ℕ) → All P xs → All Q xs
All-weaken P Q f [] h = tt
All-weaken P Q f (x ∷ xs) h = (f x h.0, All-weaken P Q f xs h.1)

-- Fields without tabs are found again.
pub split-tabbed :
    (field : List ℕ) (fields : List (List ℕ))
    → All IsPlain field
    → All (λ f. All IsPlain f) fields
    → split tab (tabbed (field ∷ fields)) ≡ field ∷ fields
split-tabbed field [] h k = split-Other tab field (All-weaken IsPlain _ (λ c p. p.0) field h)
split-tabbed field (next ∷ fields) h k =
    rw
      (
        split-append tab field (tabbed (next ∷ fields)) (All-weaken IsPlain _ (λ c p. p.0) field h),
        split-tabbed next fields k.0 k.1,
      )
      refl

-- A line holds neither a newline nor a carriage return.
abbrev pub IsLineChar : ℕ → Type 0
IsLineChar c = (c ≢ newline) × (c ≢ carriage_return)

trim_end-IsLineChar : (line : List ℕ) → All IsLineChar line → trim_end line ≡ line
unfolding trim_end
trim_end-IsLineChar [] h = refl
trim_end-IsLineChar (c ∷ []) h = ground arith
trim_end-IsLineChar (c ∷ d ∷ line) h = rw (trim_end-IsLineChar (d ∷ line) h.1) refl

split-cons :
    (text : List ℕ)
    → (first : List ℕ) × (rest : List (List ℕ)) × (split newline text ≡ first ∷ rest)
unfolding split
split-cons [] = ([], [], refl)
split-cons (c ∷ text) =
    let (first, rest, e) = split-cons text in
    elim (Bool-cases (c == newline)) [
      | inl end ↦ rw end ([], split newline text, refl)
      | inr other ↦ rw (other, e) (c ∷ first, rest, refl)
    ]

ended_lines-cons :
    (line first : List ℕ) (rest : List (List ℕ))
    → ended_lines (line ∷ first ∷ rest) ≡ trim_end line ∷ ended_lines (first ∷ rest)
unfolding ended_lines
ended_lines-cons [] first rest = refl
ended_lines-cons (c ∷ line) first rest = refl

-- Lines that end in newlines are found again.
pub lines-ended :
    (texts : List (List ℕ)) → All (λ line. All IsLineChar line) texts → lines (ended texts) ≡ texts
unfolding lines
lines-ended [] h = unfold split in unfold ended_lines in refl
lines-ended (line ∷ texts) h =
    let (first, rest, e) = split-cons (ended texts) in
    let later : ended_lines (first ∷ rest) ≡ texts = rw e at (lines-ended texts h.1) in
    rw
      (
        split-append newline line (ended texts) (All-weaken IsLineChar _ (λ c p. p.0) line h.0),
        e,
        ended_lines-cons line first rest,
        trim_end-IsLineChar line h.0,
        later,
      )
      refl
