-- ===== src/Memory/Image.antt =====
-- Memory told byte by byte, at the end of a call and during a loop.
use native.Mathlib.Decide.{ℕ_discrete}
use drastic.Base.{
  ℕ, ◌<◌, ◌≡◌, ◌≢◌, ap, sym, ◌∙◌, List, length, get_or, set, length-set, get_or-set_self,
  get_or-set_ne, Result, ok, arith,
}

-- The call returned, and every byte of memory is as given.
pub record Leaves (before : List ℕ) (bytes : ℕ → ℕ) (out : Result (List ℕ)) : Type 0 where
  pub after : List ℕ
  pub returns : out ≡ ok after
  pub same_length : length after ≡ length before
  pub all_bytes : (j : ℕ) → get_or after j 0 ≡ bytes j

-- The state of a loop.
pub record Holds (before : List ℕ) (bytes : ℕ → ℕ) (now : List ℕ) : Type 0 where
  pub same_length : length now ≡ length before
  pub all_bytes : (j : ℕ) → get_or now j 0 ≡ bytes j

-- One more byte.
pub Holds-set :
    (before now : List ℕ) (bytes bytes' : ℕ → ℕ) (i v : ℕ)
    → i < length before
    → Holds before bytes now
    → bytes' i ≡ v
    → ((j : ℕ) → i ≢ j → bytes' j ≡ bytes j)
    → Holds before bytes' (set now i v)
Holds-set before now bytes bytes' i v lt h here there = record {
  same_length = length-set now i v ∙ h.same_length;
  all_bytes = λ j. elim (ℕ_discrete i j) [
    | yes e ↦
        ap (λ k. get_or (set now i v) k 0) (sym e)
        ∙ get_or-set_self now i v 0 (omega (arith, h.same_length))
        ∙ sym here
        ∙ ap bytes' e
    | no ne ↦ get_or-set_ne now i j v 0 ne ∙ h.all_bytes j ∙ sym (there j ne)
  ];
}
