-- ===== src/Prelude/Join.antt =====
-- The parts of a layout one behind the other, and where each stands.
use Prim.Native.Nat.{ℕ, suc, ◌+◌}
use mathlib.Core.Path.{◌≡◌, refl, ap, ◌∙◌}
use mathlib.Core.Option.{some}
use mathlib.Core.List.{List, [], ◌∷◌, ◌++◌}
use native.Mathlib.Omega.{arith}
use a.Prelude.Equality.{Bytes}
use a.Prelude.Seq.{length, length-append, get_elem?}
use a.Prelude.Slices.{get_range, get_range-skip, get_range-head}

-- Parts one behind the other, in front of `rest`.
abbrev pub join : List Bytes → Bytes → Bytes
join [] rest = rest
join (part ∷ parts) rest = part ++ join parts rest

abbrev pub total : List Bytes → ℕ
total [] = 0
total (part ∷ parts) = length part + total parts

pub range-join :
    (parts : List Bytes) (part rest : Bytes) (lo hi : ℕ)
    → lo ≡ total parts
    → hi ≡ total parts + length part
    → get_range (join parts (part ++ rest)) lo hi ≡ some part
range-join [] part rest lo hi e f =
    let end : hi ≡ length part = omega arith in
    rw (e, end) (get_range-head (length part) part rest refl)
range-join (p ∷ ps) part rest lo hi e f =
    let end : hi ≡ length p + (total ps + length part) = omega arith in
    rw (e, end)
      (get_range-skip (length p) (total ps) (total ps + length part) p (join ps (part ++ rest)) refl
        ∙ range-join ps part rest (total ps) (total ps + length part) refl refl)

pub length-join :
    (parts : List Bytes) (rest : Bytes) → length (join parts rest) ≡ total parts + length rest
length-join [] rest = omega arith
length-join (p ∷ ps) rest = omega (arith, length-append p (join ps rest), length-join ps rest)

get_elem?-skip : (p xs : Bytes) (i : ℕ) → get_elem? (p ++ xs) (length p + i) ≡ get_elem? xs i
get_elem?-skip [] xs i = ap (get_elem? xs) (omega arith)
get_elem?-skip (b ∷ p) xs i =
    let e : suc (length p) + i ≡ suc (length p + i) = omega arith in rw e (get_elem?-skip p xs i)

pub elem-join :
    (parts : List Bytes) (b : ℕ) (rest : Bytes) (i : ℕ)
    → i ≡ total parts
    → get_elem? (join parts (b ∷ rest)) i ≡ some b
elem-join [] b rest i e = rw e refl
elem-join (p ∷ ps) b rest i e =
    rw e (get_elem?-skip p (join ps (b ∷ rest)) (total ps) ∙ elem-join ps b rest (total ps) refl)
