-- ===== src/ListOperator/Partition.antt =====
-- nodes/list_operator/node.py, _apply_operations and _run: the values that come out of the node.
use mathlib.Core.List.{Perm, Permᴰ, append_assoc, append-nil, perm_middle}
use mathlib.Core.List.Perm
use mathlib.Core.Logic.{∥∥₁_elim}
use native.Mathlib.Nat.{ℕ_set}
use graphon.Prelude.{
  ℕ, zero, suc, ◌-◌, ◌≤◌, ◌≡◌, refl, ap, ◌∙◌, subst, Bool, true, false, inl, inr, Bool-cases, List,
  [], ◌∷◌, ◌++◌, length, length-append, take, select, arith, ltb, if◌then◌else◌,
}
use graphon.Exec.{ok}
use graphon.Conditions.{ℤ, pos, negsuc}
use graphon.ListOperator.Filtering.{ok_inj}
use graphon.ListOperator.Cuts.{slice_to, at_serial, serial_item}

-- How many values `xs[:size]` has at most.
abbrev pub slice_bound : ℤ → ℕ → ℕ
slice_bound (pos n) size = n
slice_bound (negsuc n) size = size - suc n

-- `xs` is a part of `ys`: with further values it is `ys`, up to their order.
pub record IsPart {A : Type 0} (xs ys : List A) : Type 0 where
  pub others : List A
  pub together : Perm (xs ++ others) ys

module _ {A : Type 0} where
  pub IsPart-perm : {xs ys : List A} → Perm xs ys → IsPart xs ys
  IsPart-perm {xs} p = record { others = []; together = rw append-nil p }

  pub IsPart-trans : {xs ys zs : List A} → IsPart xs ys → IsPart ys zs → IsPart xs zs
  IsPart-trans {xs} {ys} {zs} p q = record {
    others = p.others ++ q.others;
    together =
        subst (λ l. Perm l zs) (append_assoc xs p.others q.others)
          (Perm.trans (Perm.append_right q.others p.together) q.together);
  }

  pub IsPart-select : (p : A → Bool) (xs : List A) → IsPart (select p xs) xs
  IsPart-select p [] = IsPart-perm Perm.rfl
  IsPart-select p (x ∷ xs) = go (p x) (IsPart-select p xs)
    where
      go :
          (b : Bool)
          → IsPart (select p xs) xs
          → IsPart (let rest = select p xs in if b then x ∷ rest else rest) (x ∷ xs)
      go true h = record { others = h.others; together = Perm.cons x h.together }
      go false h = record {
        others = x ∷ h.others;
        together = Perm.trans (perm_middle (select p xs) h.others) (Perm.cons x h.together);
      }

  pub IsPart-take : (n : ℕ) (xs : List A) → IsPart (take n xs) xs
  IsPart-take zero xs = record { others = xs; together = Perm.rfl }
  IsPart-take (suc n) [] = IsPart-perm Perm.rfl
  IsPart-take (suc n) (x ∷ xs) =
      let h = IsPart-take n xs in record { others = h.others; together = Perm.cons x h.together }

  pub IsPart-slice_to : (size : ℤ) (xs : List A) → IsPart (slice_to size xs) xs
  unfolding slice_to
  IsPart-slice_to (pos n) xs = IsPart-take n xs
  IsPart-slice_to (negsuc n) xs = IsPart-take (length xs - suc n) xs

  length-take-le : (n : ℕ) (xs : List A) → length (take n xs) ≤ n
  length-take-le zero xs = omega arith
  length-take-le (suc n) [] = omega arith
  length-take-le (suc n) (x ∷ xs) = omega (arith, length-take-le n xs)

  pub length-slice_to :
      (size : ℤ) (xs : List A) (n : ℕ)
      → length xs ≤ n
      → length (slice_to size xs) ≤ slice_bound size n
  unfolding slice_to
  length-slice_to (pos n) xs m h = length-take-le n xs
  length-slice_to (negsuc n) xs m h = omega (arith, length-take-le (length xs - suc n) xs)

  Permᴰ-length : {xs ys : List A} → Permᴰ xs ys → length xs ≡ length ys
  Permᴰ-length Permᴰ.nil = refl
  Permᴰ-length (Permᴰ.cons _ p) = ap suc (Permᴰ-length p)
  Permᴰ-length (Permᴰ.swap _ _) = refl
  Permᴰ-length (Permᴰ.trans p q) = Permᴰ-length p ∙ Permᴰ-length q

  pub length-IsPart : {xs ys : List A} → IsPart xs ys → length xs ≤ length ys
  length-IsPart {xs} {ys} p =
      omega (arith, length-append xs p.others, ∥∥₁_elim p.together (ℕ_set _ _) Permᴰ-length)

  at_serial-IsPart : (xs : List A) (n : ℕ) → IsPart (at_serial xs n) xs
  at_serial-IsPart [] n = IsPart-perm Perm.rfl
  at_serial-IsPart (x ∷ xs) zero = record { others = x ∷ xs; together = Perm.rfl }
  at_serial-IsPart (x ∷ xs) (suc zero) = record { others = xs; together = Perm.rfl }
  at_serial-IsPart (x ∷ xs) (suc (suc n)) =
      let h = at_serial-IsPart xs (suc n) in
      record {
        others = x ∷ h.others;
        together =
            Perm.trans (perm_middle (at_serial xs (suc n)) h.others) (Perm.cons x h.together);
      }

  pub serial_item-IsPart :
      (value : ℤ) (xs ys : List A) → serial_item value xs ≡ ok ys → IsPart ys xs
  serial_item-IsPart (negsuc n) xs ys e = cc
  serial_item-IsPart (pos n) xs ys e = elim (Bool-cases (ltb n 1)) [
    | inl low ↦ absurd (let clash = rw low at e in cc)
    | inr fine ↦ elim (Bool-cases (ltb (length xs) n)) [
      | inl high ↦ absurd (let clash = rw high at (rw fine at e) in cc)
      | inr found ↦
          subst (λ l. IsPart l xs) (ok_inj (rw found at (rw fine at e))) (at_serial-IsPart xs n)
    ]
  ]
