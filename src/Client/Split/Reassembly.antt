-- ===== src/Client/Split/Reassembly.antt =====
-- The fragments that the client cuts (crates/client/src/main.rs) and the payload that the server's
-- `FragmentAssembly` joins of them (crates/server/src/main.rs).
use irohsion.Prelude.{
  ℕ, ◌-◌, ◌≤◌, ◌≡◌, refl, sym, ap, ◌∙◌, arith, List, [], ◌∷◌, ◌++◌, map, Option, some, length, take,
  drop, take-append-drop,
}
use irohsion.Server.Assembly.{FragmentAssembly, into_payload, join_fragments}
use irohsion.Client.Split.{Float, packet_split_ranges}
use irohsion.Client.Split.Ranges.{Pieces, packet_split_ranges-Pieces, drop-drop, sum_back}

-- `&payload[start..end]` for each range.
abbrev pub slices : List ℕ → List (ℕ × ℕ × ℕ) → List (List ℕ)
slices payload [] = []
slices payload ((path, start, end) ∷ ranges) =
    take (end - start) (drop start payload) ∷ slices payload ranges

abbrev pub filled : List (List ℕ) → List (Option (List ℕ))
filled fragments = map (λ (f : List ℕ). some f) fragments

pub drop_all {ℓ} : {A : Type ℓ} (xs : List A) → drop (length xs) xs ≡ []
drop_all [] = refl
drop_all (x ∷ xs) = drop_all xs

-- What `a .. b` leaves out is what follows it.
pub take-append-drop_between :
    {A : Type 0} (a b : ℕ) (xs : List A) → a ≤ b → take (b - a) (drop a xs) ++ drop b xs ≡ drop a xs
take-append-drop_between a b xs h =
    ap (λ t. take (b - a) (drop a xs) ++ t)
      (sym (drop-drop a (b - a) xs ∙ ap (λ (t : ℕ). drop t xs) (sum_back a b h)))
    ∙ take-append-drop (b - a) (drop a xs)

join_fragments-slices :
    (count limit start : ℕ) (payload : List ℕ) (ranges : List (ℕ × ℕ × ℕ))
    → Pieces count limit start (length payload) ranges
    → join_fragments (filled (slices payload ranges)) ≡ some (drop start payload)
unfolding join_fragments
join_fragments-slices count limit start payload [] h = rw (h, drop_all payload) refl
join_fragments-slices count limit start payload ((path, a, b) ∷ ranges) h =
    let rest = join_fragments-slices count limit b payload ranges h.4 in
    rw (rest, take-append-drop_between a b payload (omega arith), h.1) refl

-- What the client cuts, the server joins: when every slot of an assembly holds the fragment that
-- `packet_split_ranges` cut for it, on one or more paths, `into_payload` gives the payload back.
pub into_payload-packet_split_ranges :
    (float : Float) (payload : List ℕ) (w : float.F) (ws : List float.F) (mtu : Option ℕ)
    (ranges : List (ℕ × ℕ × ℕ)) (a : FragmentAssembly)
    → packet_split_ranges float (length payload) (w ∷ ws) mtu ≡ some (some ranges)
    → a.fragments ≡ filled (slices payload ranges)
    → into_payload a ≡ some payload
unfolding into_payload
into_payload-packet_split_ranges float payload w ws mtu ranges a e f = rw f (
    join_fragments-slices _ _ 0 payload ranges
      (packet_split_ranges-Pieces float (length payload) w ws mtu ranges e).0)
