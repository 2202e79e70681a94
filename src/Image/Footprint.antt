-- ===== src/Image/Footprint.antt =====
-- The range of pages of an image: `footprint` and `coarsen_footprint` of
-- crates/common/src/utils.rs.
use rust_root_task_demo_mi_d.Prelude.{
  ℕ, ◌+◌, ◌-◌, ◌/◌, ◌%◌, ◌^◌, ◌≤◌, ◌<◌, ◌≡◌, ◌≢◌, refl, ap, ◌∙◌, min, max, List, [], ◌∷◌, some, All,
  arith, wrap64, ◌==◌, ==_iff, Bool-cases, inl, inr, ok,
}
use native.Mathlib.Nat.{mod-lt, mod-le, mul-div-le, mod-add-div, mod-eq-sub-mul-div, mul-mod_right}
use rust_root_task_demo_mi_d.Image.{
  Range, Segment, round_down, next_multiple_of, coarsen_footprint, least, greatest, starts, ends,
  footprint,
}

-- The multiples of `b` next to `n`, below and above.
round_down_lem :
    (n b : ℕ) → 0 < b → (round_down n b ≤ n) × (n < round_down n b + b) × (round_down n b % b ≡ 0)
unfolding round_down
round_down_lem n b h = (
  omega arith,
  omega (arith, mod-lt n h, mod-le n b),
  ap (λ t. t % b) (omega (arith, mod-eq-sub-mul-div n b, mul-div-le n b)) ∙ mul-mod_right b (n / b),
)

next_multiple_of_lem :
    (n b : ℕ)
    → 0 < b
    → n + b < 2 ^ 64
    → (n ≤ next_multiple_of n b) × (next_multiple_of n b < n + b) × (next_multiple_of n b % b ≡ 0)
next_multiple_of_lem n b h fits = elim (Bool-cases (n % b == 0)) [
  | inl even ↦ rw even (omega arith, omega arith, (==_iff _ _).0 even)
  | inr odd ↦
      let small : n % b < b = mod-lt n h in
      let sum : wrap64 (n + (b - n % b)) ≡ n + (b - n % b) = omega arith in
      let nonzero : n % b ≢ 0 = ground arith in
      rw (odd, sum)
        (
          omega arith,
          omega arith,
          ap (λ t. t % b) (omega (arith, mod-add-div n b)) ∙ mul-mod_right b (n / b + 1),
        )
]

-- Coarsening a range to a granularity of one byte or more covers it with whole granules, and adds
-- less than a granule at either end, where the end does not come near the end of the address space.
pub coarsen_footprint_bounds :
    (r : Range) (b : ℕ)
    → 0 < b
    → r.end + b < 2 ^ 64
    → ((coarsen_footprint r b).start ≤ r.start)
      × (r.start < (coarsen_footprint r b).start + b)
      × (r.end ≤ (coarsen_footprint r b).end)
      × ((coarsen_footprint r b).end < r.end + b)
      × ((coarsen_footprint r b).start % b ≡ 0)
      × ((coarsen_footprint r b).end % b ≡ 0)
unfolding coarsen_footprint
coarsen_footprint_bounds r b h fits =
    let (below, near, whole) = round_down_lem r.start b h in
    let (above, near', whole') = next_multiple_of_lem r.end b h fits in
    (below, near, above, near', whole, whole')

least_lem :
    (x : ℕ) (xs : List ℕ) → (m : ℕ) × (least (x ∷ xs) ≡ some m) × (m ≤ x) × All (λ y. m ≤ y) xs
least_lem x [] = (x, refl, omega arith, tt)
least_lem x (y ∷ xs) =
    let (m, e, l, rest) = least_lem (min x y) xs in (m, e, omega arith, (omega arith, rest))

greatest_lem :
    (x : ℕ) (xs : List ℕ) → (m : ℕ) × (greatest (x ∷ xs) ≡ some m) × (x ≤ m) × All (λ y. y ≤ m) xs
greatest_lem x [] = (x, refl, omega arith, tt)
greatest_lem x (y ∷ xs) =
    let (m, e, l, rest) = greatest_lem (max x y) xs in (m, e, omega arith, (omega arith, rest))

-- A segment that ends well below the end of the address space, and one inside a range.
abbrev pub Fits : Segment → Type 0
Fits s = s.address + s.size + 4096 < 2 ^ 64

abbrev pub Inside : Range → Segment → Type 0
Inside r s = (r.start ≤ s.address) × (s.address + s.size ≤ r.end)

All-Inside :
    (segments : List Segment) (r : Range)
    → All Fits segments
    → All (λ a. r.start ≤ a) (starts segments)
    → All (λ a. a ≤ r.end) (ends segments)
    → All (Inside r) segments
All-Inside [] r fit from to = tt
All-Inside (s ∷ segments) r fit from to =
    let whole : wrap64 (s.address + s.size) ≡ s.address + s.size = omega arith in
    ((from.0, omega arith), All-Inside segments r fit.1 from.1 to.1)

All-mono : (P Q : ℕ → Type 0) (xs : List ℕ) → ((x : ℕ) → P x → Q x) → All P xs → All Q xs
All-mono P Q [] f h = tt
All-mono P Q (x ∷ xs) f h = (f x h.0, All-mono P Q xs f h.1)

greatest_below :
    (x : ℕ) (xs : List ℕ) (bound m : ℕ)
    → x < bound
    → All (λ y. y < bound) xs
    → greatest (x ∷ xs) ≡ some m
    → m < bound
greatest_below x [] bound m h all e = ground arith
greatest_below x (y ∷ xs) bound m h all e =
    greatest_below (max x y) xs bound m (omega arith) all.1 e

ends_below :
    (segments : List Segment) → All Fits segments → All (λ y. y < 2 ^ 64 - 4096) (ends segments)
ends_below [] fit = tt
ends_below (s ∷ segments) fit = (omega arith, ends_below segments fit.1)

-- The pages of an image with a segment or more contain every segment, from a page's start to a
-- page's end, where the segments end a page before the end of the address space.
pub footprint-Inside :
    {S E : Type 0} (s : Segment) (segments : List Segment) (state : S)
    → All Fits (s ∷ segments)
    → (r : Range) × (footprint {E = E} (s ∷ segments) state ≡ (state, ok r))
      × All (Inside r) (s ∷ segments)
      × (r.start % 4096 ≡ 0)
      × (r.end % 4096 ≡ 0)
unfolding footprint
footprint-Inside s segments state fit =
    let (first, e₁, l₁, all₁) = least_lem s.address (starts segments) in
    let (last, e₂, l₂, all₂) = greatest_lem (wrap64 (s.address + s.size)) (ends segments) in
    let largest : last < 2 ^ 64 - 4096 =
      greatest_below (wrap64 (s.address + s.size)) (ends segments) (2 ^ 64 - 4096) last
        (omega arith) (ends_below segments fit.1) e₂ in
    let (below, near, above, near', whole, whole') =
      coarsen_footprint_bounds (record { start = first; end = last }) 4096 (omega arith)
        (omega (arith, largest)) in
    let r : Range = coarsen_footprint (record { start = first; end = last }) 4096 in
    (
      r,
      simp (e₁, e₂),
      All-Inside (s ∷ segments) r fit
          (
            omega arith,
            All-mono (λ a. first ≤ a) (λ a. r.start ≤ a) (starts segments) (λ x h. omega arith)
                all₁,
          )
          (
            omega arith,
            All-mono (λ a. a ≤ last) (λ a. a ≤ r.end) (ends segments) (λ x h. omega arith) all₂,
          ),
      whole,
      whole',
    )
