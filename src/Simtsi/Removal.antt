-- ===== src/Simtsi/Removal.antt =====
-- What is left of the arguments.
use uart_tsi.Base.{
  ℕ, zero, suc, ◌+◌, ◌<◌, ◌≡◌, refl, ap, sym, ◌∙◌, none, some, List, [], ◌∷◌, ◌++◌, if◌then◌else◌,
  length, length-append, get_elem?, append_assoc, arith, Bool-cases, inl, inr, done,
}
use uart_tsi.Base.Text.{Text}
use uart_tsi.Simtsi.{is_simv_opt, delete_at, remove_from, remove_vcs_simv_opt}

abbrev pub without : List Text → List Text
without [] = []
without (a ∷ args) = if is_simv_opt a then without args else a ∷ without args

get_elem?-middle : (xs ys : List Text) (y : Text) → get_elem? (xs ++ y ∷ ys) (length xs) ≡ some y
get_elem?-middle [] ys y = refl
get_elem?-middle (x ∷ xs) ys y = get_elem?-middle xs ys y

get_elem?-end : (xs : List Text) → get_elem? (xs ++ []) (length xs) ≡ none
get_elem?-end [] = refl
get_elem?-end (x ∷ xs) = get_elem?-end xs

delete_at-middle : (xs ys : List Text) (y : Text) → delete_at (length xs) (xs ++ y ∷ ys) ≡ xs ++ ys
delete_at-middle [] ys y = refl
delete_at-middle (x ∷ xs) ys y = ap (λ l. x ∷ l) (delete_at-middle xs ys y)

remove_from-without :
    (fuel : ℕ) (xs ys : List Text)
    → length ys < fuel
    → remove_from fuel (length xs) (xs ++ ys) ≡ done (xs ++ without ys)
unfolding remove_from
remove_from-without zero xs ys lt = absurd (omega arith)
remove_from-without (suc fuel) xs [] lt = rw (remove_from, get_elem?-end xs) refl
remove_from-without (suc fuel) xs (y ∷ ys) lt = elim (Bool-cases (is_simv_opt y)) [
  | inl opt ↦
      rw (remove_from, get_elem?-middle xs ys y, opt, delete_at-middle xs ys y)
        (remove_from-without fuel xs ys (omega arith))
  | inr other ↦
      let moved : length xs + 1 ≡ length (xs ++ y ∷ []) =
        omega (arith, length-append xs (y ∷ [])) in
      let same : xs ++ y ∷ ys ≡ (xs ++ y ∷ []) ++ ys = sym (append_assoc xs (y ∷ []) ys) in
      rw (remove_from, get_elem?-middle xs ys y, other)
        (ap (λ (k : ℕ). remove_from fuel k (xs ++ y ∷ ys)) moved
          ∙ ap (remove_from fuel (length (xs ++ y ∷ []))) same
          ∙ remove_from-without fuel (xs ++ y ∷ []) ys (omega arith)
          ∙ ap done (append_assoc xs (y ∷ []) (without ys)))
]

-- The loop ends, and what is left is the arguments that are no option of the simulator, in order.
pub remove_vcs_simv_opt-without :
    (args : List Text) → remove_vcs_simv_opt args ≡ done (without args)
unfolding remove_vcs_simv_opt
remove_vcs_simv_opt-without args = remove_from-without (length args + 1) [] args (omega arith)
