-- ===== src/Log/Logging/SourceFiles.antt =====
-- The name of a file without its directories.
use thread_library.Prelude.{
  ℕ, suc, ◌+◌, ◌-◌, ◌≡◌, ◌≢◌, refl, ap, ◌∙◌, List, [], ◌∷◌, ◌++◌, Option, none, some, length, drop,
  ◌==◌, arith, All, Bool-cases, inl, inr, ◌⊎◌, length-drop, if◌then◌else◌, ==_iff, ==_true,
}
use thread_library.Log.Logging.{strrchr, SourceFile, from_array, from_name}

-- Where the last `c` stands in `xs`.
abbrev Last : ℕ → List ℕ → Option ℕ → Type 0
Last c xs none = All (λ x. x ≢ c) xs
Last c xs (some i) =
    (dir : List ℕ) × (base : List ℕ) × (xs ≡ dir ++ c ∷ base)
    × (length dir ≡ i)
    × All (λ x. x ≢ c) base

Last-cons :
    (c x : ℕ) (xs : List ℕ) (o : Option ℕ)
    → Last c xs o
    → Last c (x ∷ xs) (elim o [ some i ↦ some (i + 1) | none ↦ if x == c then some 0 else none ])
Last-cons c x xs (some i) (dir, base, e, n, free) =
    (x ∷ dir, base, ap (λ t. x ∷ t) e, omega (arith, n), free)
Last-cons c x xs none free = elim (Bool-cases (x == c)) [
  | inl here ↦ rw here ([], xs, ap (λ t. t ∷ xs) ((==_iff x c).0 here), refl, free)
  | inr other ↦ rw other (λ e. cc (==_true x c e, other), free)
]

strrchr_lem : (c : ℕ) (xs : List ℕ) → Last c xs (strrchr xs c)
unfolding strrchr
strrchr_lem c [] = tt
strrchr_lem c (x ∷ xs) = Last-cons c x xs (strrchr xs c) (strrchr_lem c xs)

drop-dir :
    (dir : List ℕ) (c : ℕ) (base : List ℕ) (i : ℕ)
    → length dir ≡ i
    → drop (i + 1) (dir ++ c ∷ base) ≡ base
drop-dir [] c base i e = rw (← e) refl
drop-dir (d ∷ dir) c base i e =
    let s : i + 1 ≡ suc (length dir + 1) = omega (arith, e) in
    rw s (drop-dir dir c base (length dir) refl)

-- `base` has no slash, and is `path` or what comes after a slash of it.
pub record IsBase (path base : List ℕ) : Type 0 where
  pub free : All (λ x. x ≢ b'/') base
  pub ends : (path ≡ base) ⊎ ((dir : List ℕ) × (path ≡ dir ++ b'/' ∷ base))

from_name-by :
    (path : List ℕ) (o : Option ℕ)
    → Last b'/' path o
    → IsBase path (elim o [ none ↦ path | some slash ↦ drop (slash + 1) path ])
from_name-by path none free = record { free = free; ends = inl refl }
from_name-by path (some i) (dir, base, e, n, free) =
    let d : drop (i + 1) path ≡ base = ap (drop (i + 1)) e ∙ drop-dir dir b'/' base i n in
    rw d (record { free = free; ends = inr (dir, e) })

same-by :
    (path : List ℕ) (o : Option ℕ)
    → let base : List ℕ = elim o [ none ↦ path | some slash ↦ drop (slash + 1) path ] in
      let both : SourceFile = record { base = base; size = length base } in
      (elim o [
        | none ↦ record { base = path; size = length path }
        | some slash ↦ record { base = drop (slash + 1) path; size = length path - (slash + 1) }
      ])
      ≡ both
same-by path none = refl
same-by path (some i) = rw (length-drop (i + 1) path) refl

-- The file name of a SourceFile has no slash and is the path or what comes after a slash of it, its size
-- is the length of that name, and the constructor from an array makes the same of a path as the one from
-- a string.
pub from_name-IsBase :
    (path : List ℕ)
    → IsBase path (from_name path).base
      × ((from_name path).size ≡ length (from_name path).base)
      × (from_array path ≡ from_name path)
unfolding from_name from_array
from_name-IsBase path = (
  from_name-by path (strrchr path b'/') (strrchr_lem b'/' path),
  refl,
  same-by path (strrchr path b'/'),
)
