-- ===== src/Format/Prefix.antt =====
-- What `format_number` writes in front of the digits, and the base that it takes.
use native.Mathlib.Decide.{ℕ_discrete}
use mathlib.Core.Path.{subst}
use mathlib.Core.List.{append-nil}
use drastic.Base.{ℕ, zero, suc, ◌≡◌, ◌≢◌, refl, sym, [], ◌∷◌, ◌++◌, arith}
use drastic.Format.{Written, write_prefix, base_or_ten}

-- The base that is used: ten for 0.
abbrev pub radix : ℕ → ℕ
radix zero = 10
radix (suc n) = suc n

-- What is written in front of a number: "0b", "0o" or "0x" in one piece, or nothing.
pub data IsPrefix : ℕ → Written → Type 0 where
  begins_0b : IsPrefix 2 ((48 ∷ 98 ∷ []) ∷ [])
  begins_0o : IsPrefix 8 ((48 ∷ 111 ∷ []) ∷ [])
  begins_0x : IsPrefix 16 ((48 ∷ 120 ∷ []) ∷ [])
  no_prefix : {base : ℕ} → base ≢ 2 → base ≢ 8 → base ≢ 16 → IsPrefix base []

-- The prefix that the code writes.
pub record Begins (base : ℕ) (output : Written) : Type 0 where
  pub prefix : Written
  pub writes_prefix : write_prefix base output ≡ output ++ prefix
  pub right_prefix : IsPrefix base prefix

pub write_prefix-Begins : (base : ℕ) (output : Written) → Begins base output
write_prefix-Begins base output = elim (ℕ_discrete 2 base) [
  | yes two ↦
      subst (λ (b : ℕ). Begins b output) two
        (record { prefix = (48 ∷ 98 ∷ []) ∷ []; writes_prefix = refl; right_prefix = begins_0b })
  | no not_2 ↦ elim (ℕ_discrete 8 base) [
    | yes eight ↦
        subst (λ (b : ℕ). Begins b output) eight
          (record { prefix = (48 ∷ 111 ∷ []) ∷ []; writes_prefix = refl; right_prefix = begins_0o })
    | no not_8 ↦ elim (ℕ_discrete 16 base) [
      | yes sixteen ↦
          subst (λ (b : ℕ). Begins b output) sixteen
            (record {
              prefix = (48 ∷ 120 ∷ []) ∷ [];
              writes_prefix = refl;
              right_prefix = begins_0x;
            })
      | no not_16 ↦ record {
        prefix = [];
        writes_prefix = ground (arith, append-nil output, not_2, not_8, not_16);
        right_prefix = no_prefix (λ e. not_2 (sym e)) (λ e. not_8 (sym e)) (λ e. not_16 (sym e));
      }
    ]
  ]
]

pub radix-eq : (base : ℕ) → radix base ≡ base_or_ten base
radix-eq zero = refl
radix-eq (suc n) = ground arith
