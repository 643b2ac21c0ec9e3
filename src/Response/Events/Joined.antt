-- ===== src/Response/Events/Joined.antt =====
-- response_coordinator/coordinator.py: the sessions that join the queue when an edge is taken.
use mathlib.Core.List.{append_assoc}
use graphon.Prelude.{
  eq_refl, ◌++◌, String, ◌≡◌, refl, sym, ap, ◌∙◌, true, List, [], ◌∷◌, contains, arith,
}
use graphon.Dict
use graphon.Dict.{Dict}
use graphon.Response.{ResponseSession}
use graphon.Response.Flush.Kept.{IsEndOf}
use graphon.Response.Events.Round.{is_reached, joining}

-- The nodes of the sessions that join the queue, in the order in which the nodes are visited.
abbrev pub joined :
    String → List String → Dict (List (List String)) → Dict ResponseSession → List String
joined edge_id [] paths sessions = []
joined edge_id (n ∷ ns) paths sessions =
    joining (is_reached edge_id (Dict.get paths n)) (Dict.get sessions n)
    ++ joined edge_id ns paths sessions

-- What joins depends on the listed nodes only.
pub joined-same :
    (edge_id : String) (ns : List String) (p q : Dict (List (List String)))
    (s t : Dict ResponseSession)
    → ((k : String)
        → contains ns k ≡ true
        → (Dict.get p k ≡ Dict.get q k) × (Dict.get s k ≡ Dict.get t k))
    → joined edge_id ns p s ≡ joined edge_id ns q t
joined-same edge_id [] p q s t same = refl
joined-same edge_id (n ∷ ns) p q s t same =
    let (paths, session) = same n (rw (eq_refl n) refl) in
    rw (paths, session)
      (ap (λ ids. joining (is_reached edge_id (Dict.get q n)) (Dict.get t n) ++ ids)
        (joined-same edge_id ns p q s t (λ k h. same k (ground (arith, h)))))

-- Two queues one after the other.
pub IsEndOf-trans :
    (xs ys zs us vs : List String)
    → IsEndOf ys (xs ++ us)
    → IsEndOf zs (ys ++ vs)
    → IsEndOf zs (xs ++ (us ++ vs))
IsEndOf-trans xs ys zs us vs (f, is) (g, follows) = (
  f ++ g,
  append_assoc f g zs
      ∙ (ap (λ l. f ++ l) follows
          ∙ (sym (append_assoc f ys vs) ∙ (ap (λ l. l ++ vs) is ∙ append_assoc xs us vs))),
)
