-- ===== src/Server/Assembly.antt =====
-- `FragmentAssembly` of crates/server/src/main.rs. An instant is a number of nanoseconds.
pub mod Mask
use irohsion.Prelude.{
  ℕ, zero, suc, ◌+◌, ◌^◌, ◌%◌, ◌≤◌, ◌<◌, ◌≡◌, refl, ◌==◌, arith, Bool, true, false, List, [], ◌∷◌,
  ◌++◌, Option, none, some, length, get_elem?, set, replicate, bit_or, length-set, length-replicate,
  ◌⊎◌, inl, inr, Bool-cases, ==_iff,
}
use mathlib.Core.Option

pub record FragmentAssembly : Type 0 where
  pub fragments : List (Option (List ℕ))
  pub received : ℕ
  pub first_seen : ℕ
  pub last_repair_request : Option ℕ

unfoldable pub new : ℕ → ℕ → FragmentAssembly
new fragments first_seen = record {
  fragments = replicate fragments none;
  received = 0;
  first_seen = first_seen;
  last_repair_request = none;
}

unfoldable pub fragments_count : FragmentAssembly → ℕ
fragments_count a = length a.fragments

-- `none` is the panic of an index out of range.
unfoldable pub insert_fragment : ℕ → List ℕ → FragmentAssembly → Option (FragmentAssembly × Bool)
insert_fragment fragment payload a = elim (get_elem? a.fragments fragment) [
  | none ↦ none
  | some (some old) ↦ some (a, false)
  | some none ↦ some (
    record a { fragments = set a.fragments fragment (some payload); received = a.received + 1 },
    true,
  )
]

unfoldable pub is_complete : FragmentAssembly → Bool
is_complete a = a.received == length a.fragments

-- The fold over the fragments from `index` on; `1_u8 << index` is a `u8`.
unfoldable pub mask_from : ℕ → ℕ → List (Option (List ℕ)) → ℕ
mask_from index mask [] = mask
mask_from index mask (some f ∷ fs) = mask_from (index + 1) mask fs
mask_from index mask (none ∷ fs) = mask_from (index + 1) (bit_or mask (2 ^ index % 256)) fs

unfoldable pub missing_mask : FragmentAssembly → ℕ
unfolding mask_from
missing_mask a = mask_from 0 0 a.fragments

-- The loop of `into_payload`; `none` is the panic on a fragment that is missing.
unfoldable pub join_fragments : List (Option (List ℕ)) → Option (List ℕ)
join_fragments [] = some []
join_fragments (none ∷ fs) = none
join_fragments (some f ∷ fs) = Option.map (λ rest. f ++ rest) (join_fragments fs)

unfoldable pub into_payload : FragmentAssembly → Option (List ℕ)
unfolding join_fragments
into_payload a = join_fragments a.fragments

-- How many fragments are there.
pub present : List (Option (List ℕ)) → ℕ
present [] = 0
present (none ∷ fs) = present fs
present (some f ∷ fs) = suc (present fs)

-- An assembly that still waits: its count is right, and one fragment at least is missing.
pub record IsAssembly (a : FragmentAssembly) : Type 0 where
  pub counted : a.received ≡ present a.fragments
  pub waits : a.received < length a.fragments
  pub several : 2 ≤ length a.fragments
  pub fits : length a.fragments ≤ 7

present-set :
    (fs : List (Option (List ℕ))) (i : ℕ) (p : List ℕ)
    → get_elem? fs i ≡ some none
    → present (set fs i (some p)) ≡ suc (present fs)
unfolding present
present-set [] i p h = cc
present-set (none ∷ fs) zero p h = refl
present-set (some f ∷ fs) zero p h = absurd (ground arith)
present-set (none ∷ fs) (suc i) p h = present-set fs i p h
present-set (some f ∷ fs) (suc i) p h = omega (arith, present-set fs i p h)

pub present-le : (fs : List (Option (List ℕ))) → present fs ≤ length fs
unfolding present
present-le [] = omega arith
present-le (none ∷ fs) = omega (arith, present-le fs)
present-le (some f ∷ fs) = omega (arith, present-le fs)

-- All fragments there: joining them gives a payload.
pub join_fragments_full :
    (fs : List (Option (List ℕ)))
    → present fs ≡ length fs
    → (payload : List ℕ) × (join_fragments fs ≡ some payload)
unfolding present join_fragments
join_fragments_full [] h = ([], refl)
join_fragments_full (none ∷ fs) h = absurd (omega (arith, present-le fs))
join_fragments_full (some f ∷ fs) h =
    let (payload, e) = join_fragments_full fs (omega arith) in (f ++ payload, rw e)

present-replicate : (n : ℕ) → present (replicate n none) ≡ 0
unfolding present
present-replicate zero = refl
present-replicate (suc n) = present-replicate n

pub new-IsAssembly : (n t : ℕ) → 2 ≤ n → n ≤ 7 → IsAssembly (new n t)
unfolding new
new-IsAssembly n t h k = record {
  counted = rw present-replicate;
  waits = rw length-replicate (omega arith);
  several = rw length-replicate h;
  fits = rw length-replicate k;
}

get_elem?-some :
    (fs : List (Option (List ℕ))) (i : ℕ)
    → i < length fs
    → (x : Option (List ℕ)) × (get_elem? fs i ≡ some x)
get_elem?-some [] i h = absurd (omega arith)
get_elem?-some (f ∷ fs) zero h = (f, refl)
get_elem?-some (f ∷ fs) (suc i) h = get_elem?-some fs i (omega arith)

-- Filling an empty slot of a waiting assembly.
fill_slot :
    (i : ℕ) (p : List ℕ) (a : FragmentAssembly)
    → IsAssembly a
    → get_elem? a.fragments i ≡ some none
    → let b : FragmentAssembly = record a {
      fragments = set a.fragments i (some p);
      received = a.received + 1;
    } in
      (IsAssembly b × (is_complete b ≡ false))
      ⊎ ((is_complete b ≡ true) × (payload : List ℕ) × (into_payload b ≡ some payload))
unfolding is_complete into_payload
fill_slot i p a v e =
    let fs : List (Option (List ℕ)) = set a.fragments i (some p) in
    let len : length fs ≡ length a.fragments = length-set a.fragments i (some p) in
    let count : present fs ≡ suc (present a.fragments) = present-set a.fragments i p e in
    elim (Bool-cases ((a.received + 1) == length fs)) [
      | inl full ↦
          let (payload, joined) =
            join_fragments_full fs
              (omega (arith, v.counted, (==_iff (a.received + 1) (length fs)).0 full)) in
          inr (full, payload, joined)
      | inr waits ↦ inl (
        record {
          counted = omega (arith, v.counted);
          waits = ground (arith, v.waits, len);
          several = omega (arith, v.several);
          fits = omega (arith, v.fits);
        },
        waits,
      )
    ]

-- `b` is `a` with the payload in slot `i`, and nothing else in it has changed but the count.
pub record Filled (i : ℕ) (p : List ℕ) (a b : FragmentAssembly) : Type 0 where
  pub slot : get_elem? b.fragments i ≡ some (some p)
  pub others : (j : ℕ) → (j == i) ≡ false → get_elem? b.fragments j ≡ get_elem? a.fragments j
  pub size : length b.fragments ≡ length a.fragments
  pub count : b.received ≡ a.received + 1
  pub since : b.first_seen ≡ a.first_seen
  pub asked : b.last_repair_request ≡ a.last_repair_request

-- What an insertion within range answers: a slot that was filled stays as it was, and one that was
-- empty gets the payload; then the assembly waits on, or is complete and joins to a payload.
abbrev pub Inserted : ℕ → List ℕ → FragmentAssembly → Option (FragmentAssembly × Bool) → Type 0
Inserted i p a result =
    ((old : List ℕ) × (get_elem? a.fragments i ≡ some (some old)) × (result ≡ some (a, false)))
    ⊎ ((b : FragmentAssembly) × (get_elem? a.fragments i ≡ some none)
        × (result ≡ some (b, true))
        × Filled i p a b
        × ((IsAssembly b × (is_complete b ≡ false))
            ⊎ ((is_complete b ≡ true) × (payload : List ℕ) × (into_payload b ≡ some payload))))

get_elem?-set :
    (fs : List (Option (List ℕ))) (i : ℕ) (x y : Option (List ℕ))
    → get_elem? fs i ≡ some y
    → get_elem? (set fs i x) i ≡ some x
get_elem?-set [] i x y h = absurd (cc)
get_elem?-set (f ∷ fs) zero x y h = refl
get_elem?-set (f ∷ fs) (suc i) x y h = get_elem?-set fs i x y h

get_elem?-set_other :
    (fs : List (Option (List ℕ))) (i j : ℕ) (x : Option (List ℕ))
    → (j == i) ≡ false
    → get_elem? (set fs i x) j ≡ get_elem? fs j
get_elem?-set_other [] i j x h = refl
get_elem?-set_other (f ∷ fs) zero zero x h = absurd (ground arith)
get_elem?-set_other (f ∷ fs) zero (suc j) x h = refl
get_elem?-set_other (f ∷ fs) (suc i) zero x h = refl
get_elem?-set_other (f ∷ fs) (suc i) (suc j) x h = get_elem?-set_other fs i j x (ground arith)

insert_slot :
    (i : ℕ) (p : List ℕ) (a : FragmentAssembly) (x : Option (List ℕ))
    → IsAssembly a
    → get_elem? a.fragments i ≡ some x
    → Inserted i p a (insert_fragment i p a)
unfolding insert_fragment
insert_slot i p a (some old) v e = inl (old, e, rw (e, insert_fragment))
insert_slot i p a none v e = inr (
  record a { fragments = set a.fragments i (some p); received = a.received + 1 },
  e,
  rw (e, insert_fragment),
  record {
    slot = get_elem?-set a.fragments i (some p) none e;
    others = λ j d. get_elem?-set_other a.fragments i j (some p) d;
    size = length-set a.fragments i (some p);
    count = refl;
    since = refl;
    asked = refl;
  },
  fill_slot i p a v e,
)

-- Inserting a fragment whose index is in range into an assembly that waits for at least one. If its
-- slot is filled already, nothing changes. If the slot is empty, the payload is in it afterwards,
-- the other slots, the first instant and the last request are as before, one more is counted, and
-- the assembly waits on, or it is complete and joins to a payload.
pub insert_fragment-Inserted :
    (i : ℕ) (p : List ℕ) (a : FragmentAssembly)
    → IsAssembly a
    → i < length a.fragments
    → Inserted i p a (insert_fragment i p a)
insert_fragment-Inserted i p a v h =
    let (x, e) = get_elem?-some a.fragments i h in insert_slot i p a x v e
