-- ===== src/ModelMonitor/Window.antt =====
-- The window of observations of services/model_monitor/veripay_model_monitor/service.py keeps
-- exactly the latest ones.
use veri_pay.Common.{
  Bool-cases, List, [], ap, append-nil, append_assoc, arith, inl, inr, length, length-append, ltb,
  ltb→lt, min, refl, suc, sym, zero, ℕ, ◌++◌, ◌+◌, ◌-◌, ◌∙◌, ◌∷◌, ◌≡◌, ◌≤◌,
}
use veri_pay.DecisionEngine.Float.{Float}
use veri_pay.ModelMonitor.{Observation, add_observation, pop_to}

module _ (f : Float) where
  -- `add` for each observation in turn.
  abbrev pub add_all : ℕ → List (Observation f) → List (Observation f) → List (Observation f)
  add_all maxlen [] os = os
  add_all maxlen (x ∷ xs) os = add_all maxlen xs (add_observation f maxlen x os)

  -- `observations[n:]`
  abbrev pub drop : ℕ → List (Observation f) → List (Observation f)
  drop n [] = []
  drop zero (o ∷ os) = o ∷ os
  drop (suc n) (o ∷ os) = drop n os

  drop-zero : (os : List (Observation f)) → drop 0 os ≡ os
  drop-zero [] = refl
  drop-zero (o ∷ os) = refl

  length-drop : (n : ℕ) (os : List (Observation f)) → length (drop n os) ≡ length os - n
  length-drop n [] = omega arith
  length-drop zero (o ∷ os) = omega arith
  length-drop (suc n) (o ∷ os) = omega (arith, length-drop n os)

  drop-append :
      (n : ℕ) (os xs : List (Observation f)) → n ≤ length os → drop n (os ++ xs) ≡ drop n os ++ xs
  drop-append zero [] xs h = drop-zero xs
  drop-append zero (o ∷ os) xs h = refl
  drop-append (suc n) [] xs h = absurd (omega arith)
  drop-append (suc n) (o ∷ os) xs h = drop-append n os xs (omega arith)

  drop-drop : (m n : ℕ) (os : List (Observation f)) → drop m (drop n os) ≡ drop (n + m) os
  drop-drop m n [] = refl
  drop-drop m zero (o ∷ os) = ap (λ k. drop k (o ∷ os)) (omega arith)
  drop-drop m (suc n) (o ∷ os) =
      let shift : suc (n + m) ≡ suc n + m = omega arith in
      drop-drop m n os ∙ ap (λ k. drop k (o ∷ os)) shift

  pop_to-drop :
      (maxlen : ℕ) (os : List (Observation f)) → pop_to f maxlen os ≡ drop (length os - maxlen) os
  pop_to-drop maxlen [] = refl
  pop_to-drop maxlen (o ∷ os) = elim (Bool-cases (ltb maxlen (length (o ∷ os)))) [
    | inl e ↦
        let less = ltb→lt maxlen (length (o ∷ os)) e in
        let count : length (o ∷ os) - maxlen ≡ suc (length os - maxlen) = omega (arith, less) in
        rw (e, count) (pop_to-drop maxlen os)
    | inr e ↦
        let count : length (o ∷ os) - maxlen ≡ 0 = ground arith in
        rw (e, count) (sym (drop-zero (o ∷ os)))
  ]

  add-drop :
      (maxlen : ℕ) (x : Observation f) (os : List (Observation f))
      → add_observation f maxlen x (drop (length os - maxlen) os)
        ≡ drop (length (os ++ x ∷ []) - maxlen) (os ++ x ∷ [])
  unfolding add_observation
  add-drop maxlen x os =
      let k = length os - maxlen in
      let more = os ++ x ∷ [] in
      let long : length more ≡ length os + 1 = length-append os (x ∷ []) in
      let left : length (drop k more) ≡ length more - k = length-drop k more in
      let place : k + (length (drop k more) - maxlen) ≡ length more - maxlen =
        omega (arith, long, left) in
      ap (pop_to f maxlen) (sym (drop-append k os (x ∷ []) (omega arith)))
      ∙ pop_to-drop maxlen (drop k more)
      ∙ drop-drop (length (drop k more) - maxlen) k more
      ∙ ap (λ j. drop j more) place

  add_all-drop :
      (maxlen : ℕ) (xs os : List (Observation f))
      → add_all maxlen xs (drop (length os - maxlen) os)
        ≡ drop (length (os ++ xs) - maxlen) (os ++ xs)
  add_all-drop maxlen [] os = rw (append-nil os) refl
  add_all-drop maxlen (x ∷ xs) os =
      ap (add_all maxlen xs) (add-drop maxlen x os)
      ∙ add_all-drop maxlen xs (os ++ x ∷ [])
      ∙ ap (λ l. drop (length l - maxlen) l) (append_assoc os (x ∷ []) xs)

  -- After any number of calls of `add` on an empty store, the window is exactly the last `maxlen`
  -- observations in the order in which they were added, all of them where there are fewer, and it
  -- never holds more than `maxlen`.
  pub add_all-window :
      (maxlen : ℕ) (xs : List (Observation f))
      → (add_all maxlen xs [] ≡ drop (length xs - maxlen) xs)
        × (length (add_all maxlen xs []) ≡ min maxlen (length xs))
  add_all-window maxlen xs =
      let last = add_all-drop maxlen xs [] in
      (last, ap length last ∙ length-drop (length xs - maxlen) xs ∙ omega arith)
