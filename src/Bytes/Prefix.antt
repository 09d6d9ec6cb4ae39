-- ===== src/Bytes/Prefix.antt =====
-- `bytes_reverse` at the start of memory, on lists.
use drastic.Base.{
  ℕ, ◌+◌, ◌-◌, ◌≤◌, ◌<◌, ◌≡◌, ap, sym, ◌∙◌, inl, inr, ◌&&◌, List, ◌++◌, reverse, ltb, leb, length,
  get_or, length-append, length-reverse, get_or-append_left, get_or-append_right, get_or-reverse,
  get_or_ext, ok, arith, Bool-cases,
}
use drastic.Bytes.{Bytes, bytes_reverse}
use drastic.Bytes.Reverse.{reversed, bytes_reverse-Leaves}

module _ (xs ys : List ℕ) where
  abbrev pub front : Bytes
  front = record { ptr = 0; len = length xs }

  by_byte : (j : ℕ) → reversed (xs ++ ys) front j ≡ get_or (reverse xs ++ ys) j 0
  by_byte j = elim (Bool-cases (leb 0 j && ltb j (0 + length xs))) [
    | inl inside ↦
        let j_lt : j < length xs = ground (arith, inside) in
        rw inside (
          get_or-append_left xs ys (0 + (length xs - 1) + 0 - j) 0 (omega arith)
          ∙ sym (get_or-reverse xs j (0 + (length xs - 1) + 0 - j) 0 (omega arith))
          ∙ sym (get_or-append_left (reverse xs) ys j 0 (omega (arith, length-reverse xs))))
    | inr outside ↦
        let j_ge : length xs ≤ j = ground (arith, outside) in
        rw outside (
          get_or-append_right xs ys (j - length xs) j 0 (omega arith)
          ∙ sym (
              get_or-append_right (reverse xs) ys (j - length xs) j 0
                (omega (arith, length-reverse xs))))
  ]

  pub bytes_reverse-front : bytes_reverse front (xs ++ ys) ≡ ok (reverse xs ++ ys)
  bytes_reverse-front =
      let l = bytes_reverse-Leaves (xs ++ ys) front (omega (arith, length-append xs ys)) in
      l.returns
      ∙ ap ok (
          get_or_ext 0 l.after (reverse xs ++ ys)
            (omega (
              arith,
              l.same_length,
              length-append xs ys,
              length-append (reverse xs) ys,
              length-reverse xs,
            ))
            λ j h. l.all_bytes j ∙ by_byte j)
