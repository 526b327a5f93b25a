-- ===== src/Core/Stream/Buffer.antt =====
-- The buffer of stream_container_logs in dockfleet/core/logs.py: the last hundred lines of stderr.
use dockfleet.Prelude.{
  ℕ, zero, suc, ◌+◌, ◌-◌, ◌≤◌, String, List, [], ◌∷◌, ◌++◌, length, length-append, drop, ltb, ◌≡◌,
  ◌∙◌, refl, sym, ap, arith, Bool-cases, inl, inr,
}
use dockfleet.Core.Stream.{without_first, buffered}

abbrev pub last_hundred : List String → List String
last_hundred texts = drop (length texts - 100) texts

length-drop : (k : ℕ) (xs : List String) → length (drop k xs) ≡ length xs - k
length-drop zero xs = omega arith
length-drop (suc k) [] = omega arith
length-drop (suc k) (x ∷ xs) = omega (arith, length-drop k xs)

drop-append :
    (k : ℕ) (xs : List String) (x : String)
    → k ≤ length xs
    → drop k (xs ++ x ∷ []) ≡ drop k xs ++ x ∷ []
drop-append zero xs x h = refl
drop-append (suc k) [] x h = absurd (omega arith)
drop-append (suc k) (y ∷ xs) x h = drop-append k xs x (omega arith)

without_first-drop : (k : ℕ) (xs : List String) → without_first (drop k xs) ≡ drop (suc k) xs
without_first-drop zero [] = refl
without_first-drop zero (x ∷ xs) = refl
without_first-drop (suc k) [] = refl
without_first-drop (suc k) (x ∷ xs) = without_first-drop k xs

module _ (texts : List String) (text : String) where
  kept_length :
      length (drop (length texts - 100) texts ++ text ∷ [])
      ≡ length texts - (length texts - 100) + 1
  kept_length = omega (
    arith,
    length-append (drop (length texts - 100) texts) (text ∷ []),
    length-drop (length texts - 100) texts,
  )

  kept_text :
      drop (length texts - 100) texts ++ text ∷ [] ≡ drop (length texts - 100) (texts ++ text ∷ [])
  kept_text = sym (drop-append (length texts - 100) texts text (omega arith))

  -- The buffer of the last hundred stays that.
  pub buffered-last_hundred : buffered (last_hundred texts) text ≡ last_hundred (texts ++ text ∷ [])
  unfolding buffered
  buffered-last_hundred =
      elim (Bool-cases (ltb 100 (length (drop (length texts - 100) texts ++ text ∷ [])))) [
        | inl full ↦
            let over : suc (length texts - 100) ≡ length (texts ++ text ∷ []) - 100 =
              ground (arith, kept_length, full, length-append texts (text ∷ [])) in
            rw (full, buffered)
              (ap without_first kept_text
                ∙ without_first-drop (length texts - 100) (texts ++ text ∷ [])
                ∙ ap (λ k. drop k (texts ++ text ∷ [])) over)
        | inr room ↦
            let under : length texts - 100 ≡ length (texts ++ text ∷ []) - 100 =
              ground (arith, kept_length, room, length-append texts (text ∷ [])) in
            rw (room, buffered) (kept_text ∙ ap (λ k. drop k (texts ++ text ∷ [])) under)
      ]
