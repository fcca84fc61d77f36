-- ===== src/Federated/Columns.antt =====
-- services/edge_fabric/federated_learning/homomorphic.py: the two loops of secure_aggregate.
-- The specification adds up the clients' models one after the other; the code goes through the parameters,
-- and for each one through the clients. CKKS is approximate: `near n` says that a decrypted vector is within
-- the errors of `n` fresh ciphertexts of a vector.
use qervan_ai.Common.{
  length-map, Option-cases, Result-cases, inl, inr, ℕ, suc, ◌+◌, List, [], ◌∷◌, ok, ◌≡◌, refl, sym,
  ◌∙◌, subst, get_elem?, length, map, arith, All,
}
use qervan_ai.Federated.{Array, Libraries, add_updates, aggregate_from}

module _ {F : Type 0} (plus : F → F → F) where
  abbrev pub vec_add : List F → List F → List F
  vec_add [] ys = []
  vec_add (x ∷ xs) [] = []
  vec_add (x ∷ xs) (y ∷ ys) = plus x y ∷ vec_add xs ys

  abbrev pub model_add : List (List F) → List (List F) → List (List F)
  model_add [] ys = []
  model_add (x ∷ xs) [] = []
  model_add (x ∷ xs) (y ∷ ys) = vec_add x y ∷ model_add xs ys

  -- The specification: the sum of the models, client after client.
  abbrev pub total : List (List F) → List (List (List F)) → List (List F)
  total model [] = model
  total model (next ∷ models) = total (model_add model next) models

  length-vec_add : (xs ys : List F) → length xs ≡ length ys → length (vec_add xs ys) ≡ length xs
  length-vec_add [] ys h = refl
  length-vec_add (x ∷ xs) [] h = absurd (omega (arith, h))
  length-vec_add (x ∷ xs) (y ∷ ys) h = omega (arith, length-vec_add xs ys (omega (arith, h)))

-- As many parameters, each of the same size.
abbrev pub SameShape : {F : Type 0} → List (List F) → List (List F) → Type 0
SameShape [] [] = Unit
SameShape [] (y ∷ ys) = ⊥
SameShape (x ∷ xs) [] = ⊥
SameShape (x ∷ xs) (y ∷ ys) = (length x ≡ length y) × SameShape xs ys

abbrev pub parameters : {F : Type 0} → List (Array F) → List (List F)
parameters [] = []
parameters (a ∷ arrays) = a.values ∷ parameters arrays

pub SameShape-self : {F : Type 0} (xs : List (List F)) → SameShape xs xs
SameShape-self [] = tt
SameShape-self (x ∷ xs) = (refl, SameShape-self xs)

abbrev tail : {A : Type 0} → List A → List A
tail [] = []
tail (x ∷ xs) = xs

module _ {F : Type 0} (plus : F → F → F) where
  abbrev sum_heads : List F → List (List (List F)) → List F
  sum_heads x [] = x
  sum_heads x ([] ∷ yss) = sum_heads x yss
  sum_heads x ((y ∷ ys) ∷ yss) = sum_heads (vec_add plus x y) yss

  total-nil : (yss : List (List (List F))) → total plus [] yss ≡ []
  total-nil [] = refl
  total-nil (ys ∷ yss) = total-nil yss

  total-cons :
      (x : List F) (xs : List (List F)) (shape : List (List F)) (k : List F)
      (yss : List (List (List F)))
      → All (SameShape (k ∷ shape)) yss
      → total plus (x ∷ xs) yss ≡ sum_heads x yss ∷ total plus xs (map tail yss)
  total-cons x xs shape k [] h = refl
  total-cons x xs shape k ([] ∷ yss) h = absurd h.0
  total-cons x xs shape k ((y ∷ ys) ∷ yss) h =
      total-cons (vec_add plus x y) (model_add plus xs ys) shape k yss h.1

module _ {Context Vector Key F Seed : Type 0} (l : Libraries Context Vector Key F Seed) where
  get_elem?-tail : {A : Type 0} (xs : List A) (i : ℕ) → get_elem? xs (suc i) ≡ get_elem? (tail xs) i
  get_elem?-tail [] i = refl
  get_elem?-tail (x ∷ xs) i = refl

  add_updates-suc :
      (i : ℕ) (c : Vector) (us : List (List Vector))
      → add_updates l (suc i) c us ≡ add_updates l i c (map tail us)
  unfolding add_updates
  add_updates-suc i c [] = refl
  add_updates-suc i c ([] ∷ us) = refl
  add_updates-suc i c ((d ∷ u) ∷ us) = elim (Option-cases (get_elem? u i)) [
    | inl missing ↦ rw (missing, add_updates) refl
    | inr (v, found) ↦
        rw (found, add_updates)
          (elim (Result-cases (l.add c v)) [
            | inl (sum, added) ↦ rw added (add_updates-suc i sum us)
            | inr (x, raised) ↦ rw raised refl
          ])
  ]

  aggregate_from-suc :
      (i : ℕ) (cs : List Vector) (us : List (List Vector))
      → aggregate_from l (suc i) cs us ≡ aggregate_from l i cs (map tail us)
  unfolding aggregate_from
  aggregate_from-suc i [] us = refl
  aggregate_from-suc i (c ∷ cs) us =
      rw (add_updates-suc i c us, aggregate_from-suc (suc i) cs us) refl

  module _ (near : ℕ → List F → List F → Type 0) where
    abbrev pub AllNear : ℕ → List Vector → List (List F) → Type 0
    AllNear n [] [] = Unit
    AllNear n [] (x ∷ xs) = ⊥
    AllNear n (c ∷ cs) [] = ⊥
    AllNear n (c ∷ cs) (x ∷ xs) = near n (l.decrypt c) x × AllNear n cs xs

    abbrev pub Updates : List (List Vector) → List (List (List F)) → Type 0
    Updates [] [] = Unit
    Updates [] (ys ∷ yss) = ⊥
    Updates (u ∷ us) [] = ⊥
    Updates (u ∷ us) (ys ∷ yss) = AllNear 1 u ys × Updates us yss

  module _ (near : ℕ → List F → List F → Type 0) (plus : F → F → F)
      (adds : (c d : Vector) (m n : ℕ) (xs ys : List F)
        → length xs ≡ length ys
        → near m (l.decrypt c) xs
        → near n (l.decrypt d) ys
        → (e : Vector) × (l.add c d ≡ ok e) × near (m + n) (l.decrypt e) (vec_add plus xs ys)) where
    -- One parameter, through the clients.
    add_updates-near :
        (us : List (List Vector)) (yss : List (List (List F))) (k : List F) (shape : List (List F))
        (c : Vector) (x : List F) (n : ℕ)
        → near n (l.decrypt c) x
        → length k ≡ length x
        → Updates near us yss
        → All (SameShape (k ∷ shape)) yss
        → (e : Vector) × (add_updates l 0 c us ≡ ok e)
          × near (n + length us) (l.decrypt e) (sum_heads plus x yss)
    unfolding add_updates
    add_updates-near [] [] k shape c x n h size sent same =
        (c, refl, subst (λ m. near m (l.decrypt c) x) (omega arith) h)
    add_updates-near [] (ys ∷ yss) k shape c x n h size sent same = absurd sent
    add_updates-near (u ∷ us) [] k shape c x n h size sent same = absurd sent
    add_updates-near (u ∷ us) ([] ∷ yss) k shape c x n h size sent same = absurd same.0
    add_updates-near ([] ∷ us) ((y ∷ ys) ∷ yss) k shape c x n h size sent same = absurd sent.0
    add_updates-near ((d ∷ u) ∷ us) ((y ∷ ys) ∷ yss) k shape c x n h size sent same =
        let equal : length x ≡ length y = omega (arith, size, same.0.0) in
        let (sum, added, close) = adds c d n 1 x y equal h sent.0.0 in
        let (e, rest, near_rest) =
          add_updates-near us yss k shape sum (vec_add plus x y) (n + 1) close
            (omega (arith, size, length-vec_add plus x y equal)) sent.1 same.1 in
        (
          e,
          rw added rest,
          subst (λ m. near m (l.decrypt e) (sum_heads plus (vec_add plus x y) yss)) (omega arith)
              near_rest,
        )

    Updates-tail :
        (us : List (List Vector)) (yss : List (List (List F))) (k : List F) (shape : List (List F))
        → Updates near us yss
        → All (SameShape (k ∷ shape)) yss
        → Updates near (map tail us) (map tail yss) × All (SameShape shape) (map tail yss)
    Updates-tail [] [] k shape sent same = (tt, tt)
    Updates-tail [] (ys ∷ yss) k shape sent same = absurd sent
    Updates-tail (u ∷ us) [] k shape sent same = absurd sent
    Updates-tail (u ∷ us) ([] ∷ yss) k shape sent same = absurd same.0
    Updates-tail ([] ∷ us) ((y ∷ ys) ∷ yss) k shape sent same = absurd sent.0
    Updates-tail ((d ∷ u) ∷ us) ((y ∷ ys) ∷ yss) k shape sent same =
        let (later, shapes) = Updates-tail us yss k shape sent.1 same.1 in
        ((sent.0.1, later), (same.0.1, shapes))

    -- All parameters: as many as the first update has.
    pub aggregate_from-near :
        (cs : List Vector) (xs : List (List F)) (shape : List (List F)) (us : List (List Vector))
        (yss : List (List (List F)))
        → AllNear near 1 cs xs
        → SameShape shape xs
        → Updates near us yss
        → All (SameShape shape) yss
        → (es : List Vector) × (aggregate_from l 0 cs us ≡ ok es)
          × AllNear near (suc (length us)) es (total plus xs yss)
    unfolding aggregate_from
    aggregate_from-near [] [] shape us yss h fits sent same =
        ([], refl, subst (AllNear near (suc (length us)) []) (sym (total-nil plus yss)) tt)
    aggregate_from-near [] (x ∷ xs) shape us yss h fits sent same = absurd h
    aggregate_from-near (c ∷ cs) [] shape us yss h fits sent same = absurd h
    aggregate_from-near (c ∷ cs) (x ∷ xs) [] us yss h fits sent same = absurd fits
    aggregate_from-near (c ∷ cs) (x ∷ xs) (k ∷ shape) us yss h fits sent same =
        let (e, first_sum, close) = add_updates-near us yss k shape c x 1 h.0 fits.0 sent same in
        let (later, shapes) = Updates-tail us yss k shape sent same in
        let (es, others, all_close) =
          aggregate_from-near cs xs shape (map tail us) (map tail yss) h.1 fits.1 later shapes in
        (
          e ∷ es,
          rw (first_sum, aggregate_from-suc 0 cs us ∙ others) refl,
          subst (AllNear near (suc (length us)) (e ∷ es))
              (sym (total-cons plus x xs shape k yss same))
              (
                subst (λ n. near n (l.decrypt e) (sum_heads plus x yss)) (omega arith) close,
                subst (λ n. AllNear near (suc n) es (total plus xs (map tail yss)))
                    (length-map tail us) all_close,
              ),
        )
