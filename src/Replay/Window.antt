-- ===== src/Replay/Window.antt =====
-- What the buffer holds.
use mathlib.Core.List.{append_assoc, append-nil}
use qervan_ai.Common.{
  min, ℕ, zero, suc, ◌-◌, ◌≤◌, ◌<◌, ◌≡◌, refl, sym, ap, ◌∙◌, inl, inr, List, [], ◌∷◌, ◌++◌, length,
  length-append, ltb, Bool-cases, arith, map,
}
use qervan_ai.Replay.{drop, append_max, Buffer, new_buffer, add}

-- The last n values.
pub last_n : {A : Type 0} → ℕ → List A → List A
last_n n xs = drop (length xs - n) xs

length-drop : {A : Type 0} (k : ℕ) (xs : List A) → length (drop k xs) ≡ length xs - k
unfolding drop
length-drop zero xs = omega arith
length-drop (suc k) [] = omega arith
length-drop (suc k) (x ∷ xs) = let rest = length-drop k xs in omega (arith, rest)

drop-append :
    {A : Type 0} (k : ℕ) (xs : List A) (x : A)
    → k ≤ length xs
    → drop k (xs ++ x ∷ []) ≡ drop k xs ++ x ∷ []
unfolding drop
drop-append zero xs x l = refl
drop-append (suc k) [] x l = absurd (omega (arith, l))
drop-append (suc k) (y ∷ xs) x l = drop-append k xs x (omega (arith, l))

drop-drop : {A : Type 0} (k : ℕ) (xs : List A) → drop 1 (drop k xs) ≡ drop (suc k) xs
unfolding drop
drop-drop zero xs = refl
drop-drop (suc k) [] = refl
drop-drop (suc k) (x ∷ xs) = drop-drop k xs

append_max-last_n :
    {A : Type 0} (n : ℕ) (past : List A) (x : A)
    → append_max n (last_n n past) x ≡ last_n n (past ++ x ∷ [])
unfolding append_max last_n
append_max-last_n n past x =
    let k = length past - n in
    let kept = length-drop k past in
    let grown = length-append past (x ∷ []) in
    let joined = sym (drop-append k past x (omega arith)) in
    elim (Bool-cases (ltb (length (drop k past)) n)) [
      | inl less ↦
          let small : length (drop k past) < n = ground (arith, less) in
          let at : k ≡ length (past ++ x ∷ []) - n = omega (arith, small, kept, grown) in
          rw less (joined ∙ ap (λ m. drop m (past ++ x ∷ [])) at)
      | inr full ↦
          let big : n ≤ length (drop k past) = ground (arith, full) in
          let at : suc k ≡ length (past ++ x ∷ []) - n = omega (arith, big, kept, grown) in
          rw full (
            ap (drop 1) joined
            ∙ drop-drop k (past ++ x ∷ [])
            ∙ ap (λ m. drop m (past ++ x ∷ [])) at)
    ]

-- Appends one after another.
push_all : {A : Type 0} → ℕ → List A → List A → List A
push_all n [] ys = ys
push_all n (x ∷ xs) ys = push_all n xs (append_max n ys x)

push_all-last_n :
    {A : Type 0} (n : ℕ) (xs past : List A) → push_all n xs (last_n n past) ≡ last_n n (past ++ xs)
unfolding push_all
push_all-last_n n [] past = ap (last_n n) (sym (append-nil past))
push_all-last_n n (x ∷ xs) past =
    ap (push_all n xs) (append_max-last_n n past x)
    ∙ push_all-last_n n xs (past ++ x ∷ [])
    ∙ ap (last_n n) (append_assoc past (x ∷ []) xs)

-- The buffer after these experiences, added one after another.
pub add_all : {E P : Type 0} → P → List E → Buffer E P → Buffer E P
add_all p [] b = b
add_all p (e ∷ es) b = add_all p es (add p e b)

add_all-push_all :
    {E P : Type 0} (p : P) (es : List E) (b : Buffer E P)
    → ((add_all p es b).buffer ≡ push_all b.buffer_size es b.buffer)
      × ((add_all p es b).priorities ≡ push_all b.buffer_size (map (λ e. p) es) b.priorities)
unfolding add_all push_all add
add_all-push_all p [] b = (refl, refl)
add_all-push_all p (e ∷ es) b = add_all-push_all p es (add p e b)

last_n-nil : {A : Type 0} (n : ℕ) → [] ≡ last_n {A = A} n []
unfolding last_n drop
last_n-nil n = let none_left : 0 - n ≡ 0 = omega arith in ap (λ k. drop k []) (sym none_left)

length-last_n : {A : Type 0} (n : ℕ) (xs : List A) → length (last_n n xs) ≡ min n (length xs)
unfolding last_n
length-last_n n xs = let l = length-drop (length xs - n) xs in omega (arith, l)

length-map : {E P : Type 0} (p : P) (es : List E) → length (map (λ (e : E). p) es) ≡ length es
length-map p [] = refl
length-map p (e ∷ es) = ap suc (length-map p es)

-- After any experiences a new buffer holds the last ones, as many as its size allows, in order, and as many priorities as
-- experiences.
pub add_all-last_n :
    {E P : Type 0} (size : ℕ) (p : P) (es : List E)
    → let b = add_all p es (new_buffer size) in
      (b.buffer ≡ last_n size es)
      × (length b.buffer ≡ min size (length es))
      × (length b.priorities ≡ length b.buffer)
unfolding new_buffer
add_all-last_n size p es =
    let (held, given) = add_all-push_all p es (new_buffer size) in
    let buffer_is = held ∙ ap (push_all size es) (last_n-nil size) ∙ push_all-last_n size es [] in
    let priorities_are =
      given
      ∙ ap (push_all size (map (λ e. p) es)) (last_n-nil size)
      ∙ push_all-last_n size (map (λ e. p) es) [] in
    let held_size = ap length buffer_is ∙ length-last_n size es in
    let given_size =
      ap length priorities_are
      ∙ length-last_n size (map (λ e. p) es)
      ∙ ap (min size) (length-map p es) in
    (buffer_is, held_size, given_size ∙ sym held_size)
