-- ===== src/Dict.antt =====
-- Python's `dict` with `str` keys, in the order of first insertion.
use atlasmirror.Prelude.{◌≡◌, refl, Text, arith, text_eq, text_eq_iff}
use atlasmirror.Prelude.{Option, none, some, List, [], ◌∷◌, if◌then◌else◌}

abbrev pub Dict {ℓ} : Type ℓ → Type ℓ
Dict V = List (Text × V)

module _ {ℓ} {V : Type ℓ} where
  -- d.get(k)
  unfoldable pub get : Text → Dict V → Option V
  get k [] = none
  get k ((j, v) ∷ d) = if text_eq j k then some v else get k d

  -- d[k] = v
  unfoldable pub put : Text → V → Dict V → Dict V
  put k v [] = (k, v) ∷ []
  put k v ((j, w) ∷ d) = if text_eq j k then (j, v) ∷ d else (j, w) ∷ put k v d

  -- del d[k], for a key that is there
  unfoldable pub remove : Text → Dict V → Dict V
  remove k [] = []
  remove k ((j, w) ∷ d) = if text_eq j k then remove k d else (j, w) ∷ remove k d

  pub get-put :
      (k j : Text) (v : V) (d : Dict V)
      → get j (put k v d) ≡ (if text_eq k j then some v else get j d)
  unfolding get put
  get-put k j v [] = refl
  get-put k j v ((i, w) ∷ d) =
      ground (arith, text_eq_iff k j, text_eq_iff i k, text_eq_iff i j, get-put k j v d)

  pub get-remove :
      (k j : Text) (d : Dict V) → get j (remove k d) ≡ (if text_eq k j then none else get j d)
  unfolding get remove
  get-remove k j [] = ground arith
  get-remove k j ((i, w) ∷ d) =
      ground (arith, text_eq_iff k j, text_eq_iff i k, text_eq_iff i j, get-remove k j d)

-- {key(x): x for x in xs}
unfoldable pub index_by {ℓ} : {V : Type ℓ} → (V → Text) → List V → Dict V → Dict V
index_by key [] d = d
index_by key (x ∷ xs) d = index_by key xs (put (key x) x d)

-- The last item with a key, which is the one that the index keeps.
abbrev pub find_last {ℓ} : {V : Type ℓ} → (V → Text) → Text → List V → Option V → Option V
find_last key k [] found = found
find_last key k (x ∷ xs) found = find_last key k xs (if text_eq (key x) k then some x else found)

pub get-index_by {ℓ} :
    {V : Type ℓ} (key : V → Text) (k : Text) (xs : List V) (d : Dict V)
    → get k (index_by key xs d) ≡ find_last key k xs (get k d)
unfolding index_by
get-index_by key k [] d = refl
get-index_by key k (x ∷ xs) d =
    ground (arith, get-index_by key k xs (put (key x) x d), get-put (key x) k x d)
