-- ===== src/Response/Paths/Loop.antt =====
-- response_coordinator/coordinator.py, _find_all_paths: the loop over the edges of a node.
use graphon.Prelude.{
  String, ◌≡◌, refl, sym, subst, ◌⊎◌, inl, inr, Bool, true, false, List, [], ◌∷◌, contains,
  if◌then◌else◌,
}
use mathlib.Core.List.{Memᴰ}
use mathlib.Core.List.Memᴰ
use graphon.Exec.{Result, ok, err}
use graphon.Graph.{Edge}
use graphon.Response.Paths.{through_edges, joined}

-- The path is found.
abbrev pub In : List String → Result (List (List String)) → Type 0
In p (ok ps) = Memᴰ p ps
In p (err e) = ⊥

abbrev pub IsOk : Result (List (List String)) → Type 0
IsOk (ok ps) = Unit
IsOk (err e) = ⊥

joined-In :
    (p : List String) (first rest : Result (List (List String)))
    → In p (joined first rest)
    → In p first ⊎ In p rest
joined-In p (ok xs) (ok ys) m = Memᴰ.append_cases xs m
joined-In p (ok xs) (err e) m = absurd m
joined-In p (err e) rest m = absurd m

In-joined :
    (p : List String) (first rest : Result (List (List String)))
    → IsOk (joined first rest)
    → In p first ⊎ In p rest
    → In p (joined first rest)
In-joined p (ok xs) (ok ys) fine (inl m) = Memᴰ.append_left ys m
In-joined p (ok xs) (ok ys) fine (inr m) = Memᴰ.append_right xs m
In-joined p (ok xs) (err e) fine m = absurd fine
In-joined p (err e) rest fine m = absurd fine

joined-IsOk :
    (first rest : Result (List (List String))) → IsOk (joined first rest) → IsOk first × IsOk rest
joined-IsOk (ok xs) (ok ys) fine = (tt, tt)
joined-IsOk (ok xs) (err e) fine = absurd fine
joined-IsOk (err e) rest fine = absurd fine

module _ (step : Edge → Result (List (List String))) (visited : List String) where
  -- A path that the loop finds goes through one of the edges.
  pub record Through (p : List String) (edges : List Edge) : Type 0 where
    pub edge : Edge
    pub is_edge : Memᴰ edge edges
    pub is_fresh : contains visited edge.head ≡ false
    pub behind : In p (step edge)

  later_edge :
      (p : List String) (edge : Edge) (edges : List Edge)
      → Through p edges
      → Through p (edge ∷ edges)
  later_edge p edge edges t = record {
    edge = t.edge;
    is_edge = Memᴰ.tail t.is_edge;
    is_fresh = t.is_fresh;
    behind = t.behind;
  }

  pub In-Through :
      (p : List String) (edges : List Edge)
      → In p (through_edges step visited edges)
      → Through p edges
  In-Through p [] m = absurd (Memᴰ.not-nil m)
  In-Through p (edge ∷ edges) m = go (contains visited edge.head) refl m (In-Through p edges)
    where
      go :
          (b : Bool)
          → contains visited edge.head ≡ b
          → In p (
              if b
              then through_edges step visited edges
              else joined (step edge) (through_edges step visited edges))
          → (In p (through_edges step visited edges) → Through p edges)
          → Through p (edge ∷ edges)
      go true old found rest = later_edge p edge edges (rest found)
      go false fresh found rest =
          elim (joined-In p (step edge) (through_edges step visited edges) found) [
            | inl here ↦ record {
              edge = edge;
              is_edge = Memᴰ.head refl;
              is_fresh = fresh;
              behind = here;
            }
            | inr later ↦ later_edge p edge edges (rest later)
          ]

  -- What an edge of a loop that returns contributes.
  abbrev pub Gives : List String → Edge → List Edge → Type 0
  Gives p edge edges =
      contains visited edge.head ≡ false
      → IsOk (step edge) × (In p (step edge) → In p (through_edges step visited edges))

  through_cons :
      (p : List String) (edge : Edge) (edges : List Edge)
      → IsOk (through_edges step visited (edge ∷ edges))
      → Gives p edge (edge ∷ edges)
        × IsOk (through_edges step visited edges)
        × (In p (through_edges step visited edges)
            → In p (through_edges step visited (edge ∷ edges)))
  through_cons p edge edges fine = go (contains visited edge.head) fine
    where
      go :
          (b : Bool)
          → let rest = through_edges step visited edges in
            let whole = if b then rest else joined (step edge) rest in
            IsOk whole
            → (b ≡ false → IsOk (step edge) × (In p (step edge) → In p whole))
              × IsOk rest
              × (In p rest → In p whole)
      go true fine' = (λ e. absurd (let clash : true ≡ false = e in cc), fine', λ m. m)
      go false fine' =
          let both = joined-IsOk (step edge) _ fine' in
          (
            (λ _. (both.0, λ m. In-joined p (step edge) _ fine' (inl m))),
            both.1,
            λ m. In-joined p (step edge) _ fine' (inr m),
          )

  pub through-Gives :
      (p : List String) (edge : Edge) (edges : List Edge)
      → Memᴰ edge edges
      → IsOk (through_edges step visited edges)
      → Gives p edge edges
  through-Gives p edge [] m fine = absurd (Memᴰ.not-nil m)
  through-Gives p edge (other ∷ edges) (Memᴰ.head e) fine =
      subst (λ x. Gives p x (other ∷ edges)) (sym e) (through_cons p other edges fine).0
  through-Gives p edge (other ∷ edges) (Memᴰ.tail m) fine = λ fresh.
      let (_, rest, more) = through_cons p other edges fine in
      let (step_ok, gives) = through-Gives p edge edges m rest fresh in
      (step_ok, λ found. more (gives found))
