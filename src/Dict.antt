-- ===== src/Dict.antt =====
-- Python's `dict`: entries in insertion order, each key once. A write to a present key keeps its
-- place, a new key goes to the end. Clients have the laws below; the representation is private.
use istos.Prelude.{
  ◌||◌, ◌&&◌, keep_if, Bool, true, false, ◌≢◌, ◌≡◌, refl, Option, none, some, List, [], ◌∷◌, arith,
  Key, ◌==◌, map, if◌then◌else◌, In, number_key, text_key, ◌⊎◌, inl, inr, ◌∙◌, sym, Bool-cases,
}
use mathlib.Core.Option.{some-injective}

pub record Dict {ℓ} (K V : Type ℓ) : Type ℓ where
  entries : List (K × V)

module _ {ℓ} {K V : Type ℓ} where
  unfoldable pub empty : Dict K V
  empty = record { entries = [] }

  -- d.items()
  unfoldable pub items : Dict K V → List (K × V)
  items d = d.entries

  -- d.values()
  unfoldable pub values : Dict K V → List V
  unfolding items
  values d = map (λ e. e.1) d.entries

module _ {ℓ} {K V : Type ℓ} ⦃key : Key K⦄ where
  find : K → List (K × V) → Option V
  find k [] = none
  find k ((j, v) ∷ l) = if j == k then some v else find k l

  without : K → List (K × V) → List (K × V)
  without k [] = []
  without k ((j, v) ∷ l) = let rest = without k l in if j == k then rest else (j, v) ∷ rest

  write : K → V → List (K × V) → List (K × V)
  write k v [] = (k, v) ∷ []
  write k v ((j, w) ∷ l) = if j == k then (k, v) ∷ l else (j, w) ∷ write k v l

  -- d.get(k)
  unfoldable pub get : Dict K V → K → Option V
  unfolding find
  get d k = find k d.entries

  -- d.pop(k, None), del d[k]
  unfoldable pub remove : Dict K V → K → Dict K V
  unfolding without
  remove d k = record { entries = without k d.entries }

  -- d[k] = v
  unfoldable pub set : Dict K V → K → V → Dict K V
  unfolding write
  set d k v = record { entries = write k v d.entries }

  find-without :
      (k j : K) (l : List (K × V)) → find j (without k l) ≡ (if k == j then none else find j l)
  unfolding find without
  find-without k j [] = ground arith
  find-without k j ((i, v) ∷ l) =
      ground (arith, find-without k j l, key.same_iff i k, key.same_iff i j, key.same_iff k j)

  find-write :
      (k j : K) (v : V) (l : List (K × V))
      → find j (write k v l) ≡ (if k == j then some v else find j l)
  unfolding find write
  find-write k j v [] = refl
  find-write k j v ((i, w) ∷ l) =
      ground (arith, find-write k j v l, key.same_iff i k, key.same_iff i j, key.same_iff k j)

  pub get-remove :
      (d : Dict K V) (k j : K) → get (remove d k) j ≡ (if k == j then none else get d j)
  unfolding get remove
  get-remove d k j = find-without k j d.entries

  pub get-set :
      (d : Dict K V) (k j : K) (v : V) → get (set d k v) j ≡ (if k == j then some v else get d j)
  unfolding get set
  get-set d k j v = find-write k j v d.entries

module _ {K V : Type 0} ⦃key : Key K⦄ where
  find-In : (k : K) (v : V) (l : List (K × V)) → find k l ≡ some v → In (k, v) l
  unfolding find
  find-In k v [] h = absurd (cc)
  find-In k v ((j, w) ∷ l) h = ground (arith, key.same_iff j k, find-In k v l)

  -- What a lookup finds is among the items.
  pub get-In-items : (d : Dict K V) (k : K) (v : V) → get d k ≡ some v → In (k, v) (items d)
  unfolding get items
  get-In-items d k v h = find-In k v d.entries h

pub get-empty {ℓ} : {K V : Type ℓ} ⦃key : Key K⦄ (k : K) → get (empty {K = K} {V = V}) k ≡ none
unfolding get empty
get-empty k = refl

pub ruleset dict_laws = (get-empty, get-remove, get-set)

module _ {K : Type 0} ⦃key : Key K⦄ where
  pub contains : K → List K → Bool
  contains j [] = false
  contains j (k ∷ l) = k == j || contains j l

  pub contains-keep_if :
      (p : K → Bool) (l : List K) (j : K) → contains j (keep_if p l) ≡ (contains j l && p j)
  unfolding contains
  contains-keep_if p [] j = refl
  contains-keep_if p (k ∷ l) j = ground (arith, contains-keep_if p l j, key.same_iff k j)

module _ {K V : Type 0} ⦃key : Key K⦄ where
  -- for k in l: del d[k]
  unfoldable pub remove_all : List K → Dict K V → Dict K V
  remove_all [] d = d
  remove_all (k ∷ l) d = remove_all l (remove d k)

  pub get-remove_all :
      (l : List K) (d : Dict K V) (j : K)
      → get (remove_all l d) j ≡ (if contains j l then none else get d j)
  unfolding remove_all contains
  get-remove_all [] d j = refl
  get-remove_all (k ∷ l) d j = ground (arith, get-remove_all l (remove d k) j, get-remove d k j)

  -- list(d)
  unfoldable pub keys : Dict K V → List K
  keys d = map (λ e. e.0) (items d)

  find-contains :
      (l : List (K × V)) (j : K) → find j l ≢ none → contains j (map (λ e. e.0) l) ≡ true
  unfolding find contains
  find-contains [] j h = absurd (h refl)
  find-contains ((k, v) ∷ l) j h = ground (arith, find-contains l j)

  pub contains-keys : (d : Dict K V) (j : K) → get d j ≢ none → contains j (keys d) ≡ true
  unfolding get keys items
  contains-keys d j h = find-contains d.entries j h

module _ {K V : Type 0} ⦃key : Key K⦄ (d : Dict K V) (k : K) where
  pub get-set_self : (v : V) → get (set d k v) k ≡ some v
  get-set_self v = ground (arith, get-set d k k v, key.same_iff k k)

  pub get-set_other : (v : V) (j : K) → k == j ≡ false → get (set d k v) j ≡ get d j
  get-set_other v j other = rw (get-set d k j v, other) refl

  -- What is found after a write has been written, or was there.
  pub get-set_Either :
      (v : V) (j : K) (x : V)
      → get (set d k v) j ≡ some x
      → ((k ≡ j) × (v ≡ x)) ⊎ ((k == j ≡ false) × (get d j ≡ some x))
  get-set_Either v j x h = elim (Bool-cases (k == j)) [
    | inl here ↦
        inl (
          (key.same_iff k j).0 here,
          some-injective v x (sym (rw (get-set d k j v, here) refl) ∙ h),
        )
    | inr other ↦ inr (other, sym (get-set_other v j other) ∙ h)
  ]

  pub get-remove_old : (j : K) (x : V) → get (remove d k) j ≡ some x → get d j ≡ some x
  get-remove_old j x h = ground (arith, get-remove d k j)
