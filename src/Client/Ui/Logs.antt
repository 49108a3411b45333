-- ===== src/Client/Ui/Logs.antt =====
-- The log lines of `ClientUiState` of crates/client/src/tui.rs.
use irohsion.Prelude.{
  ℕ, zero, suc, ◌+◌, ◌-◌, ◌≤◌, ◌≡◌, refl, sym, ap, ◌∙◌, if◌then◌else◌, leb, leb→le, leb→lt, arith,
  List, [], ◌∷◌, ◌++◌, length, drop, Bool-cases, inl, inr, length-append, length-drop, append-nil,
  append_assoc, subst,
}
use irohsion.Transport.Report.{Float32}
use irohsion.Client.Split.Ranges.{drop-drop}
use irohsion.Client.Ui.{max_log_lines, ClientUiState, push_log_line, push_all}

-- The last 120 lines.
abbrev pub last_lines : List (List ℕ) → List (List ℕ)
last_lines lines = drop (length lines - max_log_lines) lines

drop-left : (n : ℕ) (xs ys : List (List ℕ)) → n ≤ length xs → drop n (xs ++ ys) ≡ drop n xs ++ ys
drop-left zero xs ys h = refl
drop-left (suc n) [] ys h = absurd (omega arith)
drop-left (suc n) (x ∷ xs) ys h = drop-left n xs ys (omega arith)

pushed :
    (line : List ℕ) (all : List (List ℕ))
    → (if leb max_log_lines (length (last_lines all))
          then drop 1 (last_lines all)
          else last_lines all)
        ++ (line ∷ [])
      ≡ last_lines (all ++ (line ∷ []))
pushed line all =
    let size : length (last_lines all) ≡ length all - (length all - 120) = length-drop _ all in
    let more : length (all ++ (line ∷ [])) ≡ length all + 1 =
      omega (arith, length-append all (line ∷ [])) in
    elim (Bool-cases (leb max_log_lines (length (last_lines all)))) [
      | inl full ↦
          let long = leb→le max_log_lines (length (last_lines all)) full in
          let start : (length all - 120) + 1 ≡ length (all ++ (line ∷ [])) - 120 =
            omega (arith, size, more, long) in
          rw full (
            ap (λ t. t ++ (line ∷ [])) (drop-drop (length all - 120) 1 all)
            ∙ sym (drop-left ((length all - 120) + 1) all (line ∷ []) (omega (arith, size, long)))
            ∙ ap (λ (n : ℕ). drop n (all ++ (line ∷ []))) start)
      | inr short ↦
          let small = leb→lt max_log_lines (length (last_lines all)) short in
          let start : length all - 120 ≡ length (all ++ (line ∷ [])) - 120 =
            omega (arith, size, more, small) in
          rw short (
            sym (drop-left (length all - 120) all (line ∷ []) (omega arith))
            ∙ ap (λ (n : ℕ). drop n (all ++ (line ∷ []))) start)
    ]

module _ (float : Float32) (F : Type 0) (two_decimals : float.F → List ℕ) where
  abbrev State : Type 0
  State = ClientUiState float F two_decimals

  push_log_line-last_lines :
      (line : List ℕ) (all : List (List ℕ)) (u : State)
      → u.logs ≡ last_lines all
      → (push_log_line float F two_decimals line u).logs ≡ last_lines (all ++ (line ∷ []))
  unfolding push_log_line
  push_log_line-last_lines line all u e =
      subst
        (λ logs.
          (if leb max_log_lines (length logs) then drop 1 logs else logs) ++ (line ∷ [])
          ≡ last_lines (all ++ (line ∷ [])))
        (sym e) (pushed line all)

  -- The terminal keeps the last 120 lines of the log: whatever lines are pushed, in any number, what
  -- is kept of them and of the lines before is what is at their end.
  pub push_all-last_lines :
      (lines all : List (List ℕ)) (u : State)
      → u.logs ≡ last_lines all
      → (push_all float F two_decimals lines u).logs ≡ last_lines (all ++ lines)
  unfolding push_all
  push_all-last_lines [] all u e = e ∙ ap last_lines (sym (append-nil all))
  push_all-last_lines (line ∷ lines) all u e =
      push_all-last_lines lines (all ++ (line ∷ [])) (push_log_line float F two_decimals line u)
        (push_log_line-last_lines line all u e)
      ∙ ap last_lines (append_assoc all (line ∷ []) lines)
