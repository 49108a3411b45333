-- ===== src/Server/Skipped.antt =====
-- `RecentSkippedSequences` of crates/server/src/main.rs: the last sequences that were given up.
use irohsion.Prelude.{
  ℕ, suc, ◌≤◌, ◌<◌, ◌≡◌, refl, if◌then◌else◌, ltb, arith, Bool, true, false, List, [], ◌∷◌, ◌++◌,
  length, Bool-cases, ltb→le, inl, inr,
}
use irohsion.Prelude.Map.{member, add, discard, member-add, member-discard, member-append_one}

abbrev pub skipped_sequence_track_limit : ℕ
skipped_sequence_track_limit = 4096

pub record RecentSkippedSequences : Type 0 where
  pub order : List ℕ
  pub lookup : List ℕ

abbrev pub empty : RecentSkippedSequences
empty = record { order = []; lookup = [] }

-- `while self.order.len() > limit { expired = order.pop_front(); lookup.remove(expired); }`
unfoldable pub trim : ℕ → List ℕ → List ℕ → RecentSkippedSequences
trim limit [] seen = record { order = []; lookup = seen }
trim limit (expired ∷ order) seen =
    if ltb limit (length (expired ∷ order))
    then trim limit order (discard expired seen)
    else record { order = expired ∷ order; lookup = seen }

unfoldable pub insert : ℕ → RecentSkippedSequences → RecentSkippedSequences
unfolding trim
insert sequence s =
    trim skipped_sequence_track_limit
      (if member sequence s.lookup then s.order else s.order ++ (sequence ∷ []))
      (add sequence s.lookup)

unfoldable pub contains : ℕ → RecentSkippedSequences → Bool
contains sequence s = member sequence s.lookup

-- The set holds what the queue holds, once, within the limit.
abbrev pub Distinct : List ℕ → Type 0
Distinct [] = Unit {0}
Distinct (x ∷ xs) = (member x xs ≡ false) × Distinct xs

pub record Agrees (s : RecentSkippedSequences) : Type 0 where
  pub same : (j : ℕ) → member j s.lookup ≡ member j s.order
  pub distinct : Distinct s.order

pub record IsTracking (s : RecentSkippedSequences) : Type 0 where
  pub agrees : Agrees s
  pub bounded : length s.order ≤ skipped_sequence_track_limit

-- Dropping the oldest entry from both keeps them in agreement.
shorter-Agrees :
    (x : ℕ) (order seen : List ℕ)
    → Agrees (record { order = x ∷ order; lookup = seen })
    → Agrees (record { order = order; lookup = discard x seen })
shorter-Agrees x order seen a = record { same = λ j. smaller j; distinct = a.distinct.1 }
  where
    smaller : (j : ℕ) → member j (discard x seen) ≡ member j order
    smaller j = unfold member in ground (arith, member-discard x j seen, a.same j, a.distinct.0)

trim-IsTracking :
    (limit : ℕ) (order seen : List ℕ)
    → Agrees (record { order = order; lookup = seen })
    → Agrees (trim limit order seen) × (length (trim limit order seen).order ≤ limit)
unfolding trim
trim-IsTracking limit [] seen a = (a, omega arith)
trim-IsTracking limit (x ∷ order) seen a = elim (Bool-cases (ltb limit (suc (length order)))) [
  | inl long ↦
      rw long (trim-IsTracking limit order (discard x seen) (shorter-Agrees x order seen a))
  | inr fits ↦ rw fits (a, ltb→le limit (suc (length order)) fits)
]

Distinct-append_one :
    (k : ℕ) (xs : List ℕ) → member k xs ≡ false → Distinct xs → Distinct (xs ++ (k ∷ []))
unfolding member
Distinct-append_one k [] h d = (refl, tt)
Distinct-append_one k (x ∷ xs) h d =
    (ground (arith, member-append_one k x xs), Distinct-append_one k xs (ground arith) d.1)

added-Agrees :
    (k : ℕ) (s : RecentSkippedSequences)
    → Agrees s
    → Agrees (record {
      order = if member k s.lookup then s.order else s.order ++ (k ∷ []);
      lookup = add k s.lookup;
    })
added-Agrees k s a = elim (Bool-cases (member k s.lookup)) [
  | inl old ↦ rw old (record {
    same = λ j. ground (arith, member-add k j s.lookup, a.same j);
    distinct = a.distinct;
  })
  | inr fresh ↦ rw fresh (record {
    same = λ j. ground (arith, member-add k j s.lookup, a.same j, member-append_one k j s.order);
    distinct = Distinct-append_one k s.order (ground (arith, a.same k)) a.distinct;
  })
]

-- Recording a skip keeps the set and the queue in agreement, without repetition and within 4096
-- entries.
pub insert-IsTracking :
    (k : ℕ) (s : RecentSkippedSequences) → IsTracking s → IsTracking (insert k s)
unfolding insert
insert-IsTracking k s v =
    let (agrees, bounded) = trim-IsTracking 4096 _ _ (added-Agrees k s v.agrees) in
    record { agrees = agrees; bounded = bounded }

last_kept :
    (limit k : ℕ) (xs seen : List ℕ)
    → 0 < limit
    → Agrees (record { order = xs ++ (k ∷ []); lookup = seen })
    → member k (trim limit (xs ++ (k ∷ [])) seen).lookup ≡ true
unfolding trim
last_kept limit k [] seen h a = unfold member in ground (arith, a.same k)
last_kept limit k (x ∷ xs) seen h a =
    elim (Bool-cases (ltb limit (suc (length (xs ++ (k ∷ [])))))) [
      | inl long ↦
          rw long
            (last_kept limit k xs (discard x seen) h (shorter-Agrees x (xs ++ (k ∷ [])) seen a))
      | inr fits ↦ rw fits (unfold member in ground (arith, a.same k, member-append_one k k xs))
    ]

trim_short :
    (limit : ℕ) (order seen : List ℕ)
    → length order ≤ limit
    → trim limit order seen ≡ record { order = order; lookup = seen }
unfolding trim
trim_short limit [] seen h = refl
trim_short limit (x ∷ order) seen h = ground arith

-- A sequence that has just been recorded as skipped is contained.
pub contains-insert :
    (k : ℕ) (s : RecentSkippedSequences) → IsTracking s → contains k (insert k s) ≡ true
unfolding insert contains
contains-insert k s v = elim (Bool-cases (member k s.lookup)) [
  | inl old ↦
      rw (old, trim_short 4096 s.order (add k s.lookup) v.bounded)
        (ground (arith, member-add k k s.lookup))
  | inr fresh ↦
      let a = added-Agrees k s v.agrees in
      rw fresh (last_kept 4096 k s.order (add k s.lookup) (omega arith) (rw fresh at a))
]
