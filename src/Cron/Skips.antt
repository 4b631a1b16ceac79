-- ===== src/Cron/Skips.antt =====
-- The sorted values of a field (src/istos/queue/cron.py), and what lies between them.
use istos.Prelude.{
  ℕ, suc, ◌≤◌, ◌<◌, ◌≡◌, refl, inl, inr, true, false, ◌||◌, none, some, List, [], ◌∷◌, ltb, leb,
  number_key, ◌==◌, keep_if, arith, Bool-cases,
}
use istos.Cron.Field.{among}
use istos.Cron.Next.{put, in_order, first}

abbrev pub IsAscending : List ℕ → Type 0
IsAscending [] = Unit
IsAscending (x ∷ xs) = ((w : ℕ) → among w xs ≡ true → x ≤ w) × IsAscending xs

among-put : (w x : ℕ) (l : List ℕ) → among w (put x l) ≡ (x == w || among w l)
unfolding put
among-put w x [] = refl
among-put w x (y ∷ ys) = ground (arith, among-put w x ys)

put-IsAscending : (x : ℕ) (l : List ℕ) → IsAscending l → IsAscending (put x l)
unfolding put
put-IsAscending x [] h = (λ w m. absurd (ground (arith, m)), tt)
put-IsAscending x (y ∷ ys) h = elim (Bool-cases (leb x y)) [
  | inl low ↦ rw (low) (λ w m. ground (arith, low, m, h.0 w), h)
  | inr high ↦
      rw (high) (λ w m. ground (arith, high, m, among-put w x ys, h.0 w), put-IsAscending x ys h.1)
]

pub among-in_order : (w : ℕ) (l : List ℕ) → among w (in_order l) ≡ among w l
unfolding in_order
among-in_order w [] = refl
among-in_order w (x ∷ xs) = ground (arith, among-put w x (in_order xs), among-in_order w xs)

pub in_order-IsAscending : (l : List ℕ) → IsAscending (in_order l)
unfolding in_order
in_order-IsAscending [] = tt
in_order-IsAscending (x ∷ xs) = put-IsAscending x (in_order xs) (in_order-IsAscending xs)

-- Nothing of the list lies between the bounds, the lower one included.
abbrev pub Lacks : List ℕ → ℕ → ℕ → Type 0
Lacks l a b = (w : ℕ) → a ≤ w → w < b → among w l ≡ false

pub first-Lacks :
    (l : List ℕ) (v : ℕ) → IsAscending l → first l ≡ some v → (among v l ≡ true) × Lacks l 0 v
unfolding first
first-Lacks [] v h e = absurd (ground (arith, e))
first-Lacks (x ∷ xs) v h e = (
  ground (arith, e),
  λ w low below. elim (Bool-cases (among w xs)) [
    | inl there ↦ absurd (ground (arith, e, h.0 w there, below))
    | inr gone ↦ ground (arith, e, gone, below)
  ],
)

pub above-Lacks :
    (b : ℕ) (l : List ℕ) (v : ℕ)
    → IsAscending l
    → first (keep_if (λ h. ltb b h) l) ≡ some v
    → (b < v) × (among v l ≡ true) × Lacks l (suc b) v
unfolding first
above-Lacks b [] v h e = absurd (ground (arith, e))
above-Lacks b (x ∷ xs) v h e = elim (Bool-cases (ltb b x)) [
  | inl over ↦
      let is : x ≡ v = ground (arith, e, over) in
      (
        ground (arith, over, is),
        ground (arith, is),
        λ w low below. elim (Bool-cases (among w xs)) [
          | inl there ↦ absurd (ground (arith, is, h.0 w there, below))
          | inr gone ↦ ground (arith, is, gone, below)
        ],
      )
  | inr under ↦
      let later : first (keep_if (λ h. ltb b h) xs) ≡ some v = ground (arith, e, under) in
      let (over, there, lacks) = above-Lacks b xs v h.1 later in
      (over, ground (arith, there), λ w low below. ground (arith, under, lacks w low below, low))
]

pub none-Lacks :
    (b : ℕ) (l : List ℕ)
    → first (keep_if (λ h. ltb b h) l) ≡ none
    → (w : ℕ) → b < w
    → among w l ≡ false
unfolding first
none-Lacks b [] e w low = refl
none-Lacks b (x ∷ xs) e w low = elim (Bool-cases (ltb b x)) [
  | inl over ↦ absurd (ground (arith, e, over))
  | inr under ↦
      let later : first (keep_if (λ h. ltb b h) xs) ≡ none = ground (arith, e, under) in
      ground (arith, under, none-Lacks b xs later w low, low)
]
