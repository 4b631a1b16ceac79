-- ===== src/Heap.antt =====
-- Python's `heapq`, over entries with a total order. The list is kept in the order in which the
-- heap pops, smallest first, so `h[0]` is the head and `heappop` is the tail. Entries are compared
-- whole, so which entry comes out next does not depend on how the heap is laid out.
use istos.Prelude.{
  ◌≡◌, refl, Bool, true, List, [], ◌∷◌, arith, if◌then◌else◌, In, All, All-In, inl, inr, ◌⊎◌,
}

pub record TotalOrder {ℓ} (A : Type ℓ) : Type ℓ where
  pub le : A → A → Bool
  pub le_total : (a b : A) → (le a b ≡ true) ⊎ (le b a ≡ true)
  pub le_trans : (a b c : A) → le a b ≡ true → le b c ≡ true → le a c ≡ true

module _ {A : Type 0} ⦃o : TotalOrder A⦄ where
  -- heapq.heappush(h, a)
  unfoldable pub push : A → List A → List A
  push a [] = a ∷ []
  push a (b ∷ h) = if o.le a b then a ∷ b ∷ h else b ∷ push a h

  -- Pushing adds the entry and keeps the others.
  pub In-push_self : (a : A) (h : List A) → In a (push a h)
  unfolding push
  In-push_self a [] = inl refl
  In-push_self a (b ∷ h) = ground (arith, In-push_self a h)

  pub In-push_old : (a b : A) (h : List A) → In b h → In b (push a h)
  unfolding push
  In-push_old a b [] m = absurd m
  In-push_old a b (c ∷ h) m = ground (arith, In-push_old a b h)

  pub In-push-cases : (a b : A) (h : List A) → In b (push a h) → (b ≡ a) ⊎ In b h
  unfolding push
  In-push-cases a b [] m = m
  In-push-cases a b (c ∷ h) m = ground (arith, In-push-cases a b h)

  -- Every entry is at most each of those behind it.
  abbrev pub IsSorted : List A → Type 0
  IsSorted [] = Unit
  IsSorted (a ∷ h) = All (λ b. o.le a b ≡ true) h × IsSorted h

  All-push :
      (c a : A) (h : List A)
      → o.le c a ≡ true
      → All (λ b. o.le c b ≡ true) h
      → All (λ b. o.le c b ≡ true) (push a h)
  unfolding push
  All-push c a [] p q = (p, tt)
  All-push c a (b ∷ h) p q = ground (arith, All-push c a h)

  All-weaken :
      (c a : A) (h : List A)
      → o.le c a ≡ true
      → All (λ b. o.le a b ≡ true) h
      → All (λ b. o.le c b ≡ true) h
  All-weaken c a [] p q = tt
  All-weaken c a (b ∷ h) p q = (o.le_trans c a b p q.0, All-weaken c a h p q.1)

  pub push-IsSorted : (a : A) (h : List A) → IsSorted h → IsSorted (push a h)
  unfolding push
  push-IsSorted a [] s = (tt, tt)
  push-IsSorted a (b ∷ h) s =
      ground (arith, o.le_total a b, All-push b a h, All-weaken a b h, push-IsSorted a h)

  -- The head of a heap is at most every entry in it.
  pub head_least : (a b : A) (h : List A) → IsSorted (a ∷ h) → In b (a ∷ h) → o.le a b ≡ true
  head_least a b h s (inl e) = ground (arith, o.le_total a a, e)
  head_least a b h s (inr m) = All-In (λ c. o.le a c ≡ true) h b s.0 m
