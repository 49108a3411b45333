-- ===== src/Prelude/Parity.antt =====
-- `parity[index] ^= *byte` for every byte of a payload that is no longer than the parity: the loop of
-- the client's encoder (crates/client/src/main.rs), and its laws. The server's recovery has the same loop,
-- with the panic of an index that is out of range, in Server/FecState.
use Prim.Native.Nat.{ℕ, zero, suc, ◌≤◌, bit_xor}
use mathlib.Core.Path.{◌≡◌, refl, sym, ap, ◌∙◌}
use mathlib.Core.List.{List, [], ◌∷◌, ◌++◌}
use native.Mathlib.Omega.{arith}
use irohsion.Prelude.Lists.{length, replicate, take}
use irohsion.Prelude.Bits.{bit_xor_cancel, bit_xor_right_comm, zero-bit_xor}

unfoldable pub xor_into : List ℕ → List ℕ → List ℕ
xor_into [] payload = []
xor_into (x ∷ xs) [] = x ∷ xs
xor_into (x ∷ xs) (b ∷ bs) = bit_xor x b ∷ xor_into xs bs

unfoldable pub xor_all : List ℕ → List (List ℕ) → List ℕ
xor_all parity [] = parity
xor_all parity (p ∷ ps) = xor_all (xor_into parity p) ps

pub length-xor_into : (xs p : List ℕ) → length (xor_into xs p) ≡ length xs
unfolding xor_into
length-xor_into [] p = refl
length-xor_into (x ∷ xs) [] = refl
length-xor_into (x ∷ xs) (b ∷ bs) = ap suc (length-xor_into xs bs)

pub xor_into_comm : (xs p q : List ℕ) → xor_into (xor_into xs p) q ≡ xor_into (xor_into xs q) p
unfolding xor_into
xor_into_comm [] p q = refl
xor_into_comm (x ∷ xs) [] [] = refl
xor_into_comm (x ∷ xs) [] (c ∷ cs) = refl
xor_into_comm (x ∷ xs) (b ∷ bs) [] = refl
xor_into_comm (x ∷ xs) (b ∷ bs) (c ∷ cs) = cc (bit_xor_right_comm x b c, xor_into_comm xs bs cs)

pub xor_into_cancel : (xs p : List ℕ) → xor_into (xor_into xs p) p ≡ xs
unfolding xor_into
xor_into_cancel [] p = refl
xor_into_cancel (x ∷ xs) [] = refl
xor_into_cancel (x ∷ xs) (b ∷ bs) = cc (bit_xor_cancel x b, xor_into_cancel xs bs)

pub take-xor_into_zero :
    (n : ℕ) (p : List ℕ) → length p ≤ n → take (length p) (xor_into (replicate n 0) p) ≡ p
unfolding xor_into
take-xor_into_zero n [] h = refl
take-xor_into_zero zero (b ∷ bs) h = absurd (omega arith)
take-xor_into_zero (suc n) (b ∷ bs) h = cc (zero-bit_xor b, take-xor_into_zero n bs (omega arith))

pub length-xor_all : (ps : List (List ℕ)) (xs : List ℕ) → length (xor_all xs ps) ≡ length xs
unfolding xor_all
length-xor_all [] xs = refl
length-xor_all (p ∷ ps) xs = length-xor_all ps (xor_into xs p) ∙ length-xor_into xs p

xor_all-xor_into :
    (ps : List (List ℕ)) (xs q : List ℕ) → xor_all (xor_into xs q) ps ≡ xor_into (xor_all xs ps) q
unfolding xor_all
xor_all-xor_into [] xs q = refl
xor_all-xor_into (p ∷ ps) xs q = rw (xor_into_comm xs q p) (xor_all-xor_into ps (xor_into xs p) q)

xor_all_cancel : (ps : List (List ℕ)) (xs : List ℕ) → xor_all (xor_all xs ps) ps ≡ xs
unfolding xor_all
xor_all_cancel [] xs = refl
xor_all_cancel (p ∷ ps) xs =
    ap (λ t. xor_all t ps) (sym (xor_all-xor_into ps (xor_into xs p) p))
    ∙ (rw (xor_into_cancel xs p) (xor_all_cancel ps xs))

move_out :
    (before after : List (List ℕ)) (p xs : List ℕ)
    → xor_all xs (before ++ (p ∷ after)) ≡ xor_into (xor_all xs (before ++ after)) p
unfolding xor_all
move_out [] after p xs = xor_all-xor_into after xs p
move_out (q ∷ before) after p xs = move_out before after p (xor_into xs q)

-- Folding every payload of a group but one into the group's parity leaves that one.
pub xor_all_but_one :
    (before after : List (List ℕ)) (p xs : List ℕ)
    → xor_all (xor_all xs (before ++ (p ∷ after))) (before ++ after) ≡ xor_into xs p
xor_all_but_one before after p xs = rw (
  move_out before after p xs,
  xor_all-xor_into (before ++ after) (xor_all xs (before ++ after)) p,
  xor_all_cancel (before ++ after) xs,
)

pub xor_all-append :
    (ps qs : List (List ℕ)) (xs : List ℕ) → xor_all xs (ps ++ qs) ≡ xor_all (xor_all xs ps) qs
unfolding xor_all
xor_all-append [] qs xs = refl
xor_all-append (p ∷ ps) qs xs = xor_all-append ps qs (xor_into xs p)
