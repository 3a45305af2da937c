-- ===== src/Tests/Graphs.antt =====
-- The graph library as lists, and small data-flow graphs.
use cgraomp.Prelude.{
  IsDistinct, keep-IsDistinct, ℕ, ◌≡◌, refl, Bool, true, false, not, List, [], ◌∷◌, ◌++◌, arith,
  eqb, any, keep, All-map, keep-All, if◌then◌else◌,
}
use cgraomp.Directed.{DirectedGraph, DfgEdge, same_edge}

abbrev Lists : Type 0
Lists = List ℕ × (ℕ → List DfgEdge)

abbrev put : ℕ → List DfgEdge → (ℕ → List DfgEdge) → ℕ → List DfgEdge
put s es f a = if eqb s a then es else f a

unfoldable pub visit : List ℕ → List ℕ
visit [] = []
visit (n ∷ ns) = n ∷ keep (λ m. not (eqb n m)) (visit ns)

pub visit-IsDistinct : (ns : List ℕ) → IsDistinct (visit ns)
unfolding visit
visit-IsDistinct [] = tt
visit-IsDistinct (n ∷ ns) = (
  All-map (λ m. not (eqb n m) ≡ true) (λ m. eqb n m ≡ false) (keep (λ m. not (eqb n m)) (visit ns))
      (λ m h. ground arith) (keep-All (λ m. not (eqb n m)) (visit ns)),
  keep-IsDistinct (λ m. not (eqb n m)) (visit ns) (visit-IsDistinct ns),
)

abbrev add_new : Bool → ℕ → Lists → Bool × Lists
add_new true n g = (false, g)
add_new false n g = (true, (g.0 ++ n ∷ [], g.1))

abbrev link_new : Bool → ℕ → DfgEdge → Lists → Bool × Lists
link_new true s e g = (false, g)
link_new false s e g = (true, (g.0, put s (g.1 s ++ e ∷ []) g.1))

pub add_new-edges :
    (same : ℕ → ℕ → Bool) (n : ℕ) (g : Lists) (a : ℕ)
    → (add_new (any (same n) g.0) n g).1.1 a ≡ g.1 a
add_new-edges same n g a = ground arith

pub add_new-result :
    (same : ℕ → ℕ → Bool) (n : ℕ) (g : Lists)
    → (add_new (any (same n) g.0) n g).0 ≡ not (any (same n) g.0)
add_new-result same n g = ground arith

pub link_new-result :
    (s : ℕ) (e : DfgEdge) (g : Lists)
    → (link_new (any (same_edge e) (g.1 s)) s e g).0 ≡ not (any (same_edge e) (g.1 s))
link_new-result s e g = ground arith

pub link_new-nodes :
    (s : ℕ) (e : DfgEdge) (g : Lists) → (link_new (any (same_edge e) (g.1 s)) s e g).1.0 ≡ g.0
link_new-nodes s e g = ground arith

pub link_new-other :
    (s : ℕ) (e : DfgEdge) (g : Lists) (a : ℕ)
    → eqb s a ≡ false
    → (link_new (any (same_edge e) (g.1 s)) s e g).1.1 a ≡ g.1 a
link_new-other s e g a h = ground arith

pub link_new-here :
    (s : ℕ) (e : DfgEdge) (g : Lists)
    → any (same_edge e) (g.1 s) ≡ false
    → (link_new (any (same_edge e) (g.1 s)) s e g).1.1 s ≡ g.1 s ++ e ∷ []
link_new-here s e g h = ground arith

pub put-here : (s : ℕ) (es : List DfgEdge) (f : ℕ → List DfgEdge) → put s es f s ≡ es
put-here s es f = ground arith

abbrev pub lists : DirectedGraph
lists = record {
  Graph = Lists;
  empty = ([], λ a. []);
  nodes = λ g. g.0;
  get_edges = λ g. g.1;
  add_node = λ same n g. add_new (any (same n) g.0) n g;
  connect = λ s t e g. link_new (any (same_edge e) (g.1 s)) s e g;
  find_edges_to = λ same s t g. keep (λ e. same e.target t) (g.1 s);
  remove_edge = λ s e g. (g.0, put s (keep (λ x. not (same_edge x e)) (g.1 s)) g.1);
  breadth_first = λ n g. visit (n ∷ g.0);
  nodes-empty = refl;
  get_edges-empty = λ a. refl;
  add_node_result = add_new-result;
  nodes-add_node = λ same n g h. rw h refl;
  get_edges-add_node = add_new-edges;
  connect_result = λ s t e g. link_new-result s e g;
  nodes-connect = λ s t e g. link_new-nodes s e g;
  get_edges-connect_other = λ s t e g a h. link_new-other s e g a h;
  get_edges-connect_old = λ s t e g h. rw h refl;
  get_edges-connect_new = λ s t e g h. link_new-here s e g h;
  find_edges_to-eq = λ same s t g. refl;
  nodes-remove_edge = λ s e g. refl;
  get_edges-remove_other = λ s e g a h. rw h refl;
  get_edges-remove_edge = λ s e g. put-here s (keep (λ x. not (same_edge x e)) (g.1 s)) g.1;
  breadth_first-IsDistinct = λ n g. visit-IsDistinct (n ∷ g.0);
}
