-- ===== src/Thunk/Heap/Keeps.antt =====
-- Actions on the heap of src/thunk that leave the nodes of the thunks as they are.
use lazyscript.Prelude.{
  ℕ, ◌≤◌, ◌<◌, ◌≡◌, refl, ap, sym, ◌∙◌, Option, none, some, [], ◌∷◌, ◌++◌, Bytes, get_elem?, set,
  length, length-append, length-set, inl, inr, ◌==◌, ==_iff, Bool-cases, arith,
}
use mathlib.Core.Path.{subst}
use lazyscript.Thunk.Heap.{Node, ref, Thunk, Heap, M, done}
use lazyscript.Thunk.Heap.Steps.{get_elem?-set, get_elem?-set_ne, get_elem?-append_old}

-- A node is as it was, or a reference whose target has been found.
pub data Grown (a b : Node) : Type 0 where
  same_node : b ≡ a → Grown a b
  resolved :
      {name : Bytes} {env : Option ℕ} {i : ℕ}
      → a ≡ ref name env none
      → b ≡ ref name env (some i)
      → Grown a b

Grown-trans : (a b c : Node) → Grown a b → Grown b c → Grown a c
Grown-trans a b c (same_node e) (same_node f) = same_node (f ∙ e)
Grown-trans a b c (same_node e) (resolved f g) = resolved (sym e ∙ f) g
Grown-trans a b c (resolved e f) (same_node g) = resolved e (g ∙ f)
Grown-trans a b c (resolved e f) (resolved g k) = cc

-- The thunk at `i` has a node that has grown from `n`.
pub record Since (n : Node) (i : ℕ) (h : Heap) : Type 0 where
  pub thunk : Thunk
  pub there : get_elem? h.thunks i ≡ some thunk
  pub grown : Grown n thunk.node

-- No thunk has gone from `h` to `h'`, and the nodes of the first `n` have only grown.
pub record Stays (n : ℕ) (h h' : Heap) : Type 0 where
  pub longer : length h.thunks ≤ length h'.thunks
  pub nodes : (i : ℕ) (t : Thunk) → i < n → get_elem? h.thunks i ≡ some t → Since t.node i h'

pub Stays-same : (n : ℕ) (h h' : Heap) → h'.thunks ≡ h.thunks → Stays n h h'
Stays-same n h h' e = record {
  longer = omega (arith, ap length e);
  nodes = λ i t lt at. record {
    thunk = t;
    there = ap (λ ts. get_elem? ts i) e ∙ at;
    grown = same_node refl;
  };
}

pub Stays-trans : (n : ℕ) (h h1 h2 : Heap) → Stays n h h1 → Stays n h1 h2 → Stays n h h2
Stays-trans n h h1 h2 p q = record {
  longer = omega (arith, p.longer, q.longer);
  nodes = λ i t lt at.
      let s = p.nodes i t lt at in
      let s' = q.nodes i s.thunk lt s.there in
      record {
        thunk = s'.thunk;
        there = s'.there;
        grown = Grown-trans t.node (s.thunk).node (s'.thunk).node s.grown s'.grown;
      };
}

-- a thunk more at the end
pub Stays-alloc : (n : ℕ) (h h' : Heap) (t : Thunk) → h'.thunks ≡ h.thunks ++ t ∷ [] → Stays n h h'
Stays-alloc n h h' t e = record {
  longer = omega (arith, ap length e ∙ length-append h.thunks (t ∷ []));
  nodes = λ i u lt at. record {
    thunk = u;
    there = ap (λ ts. get_elem? ts i) e ∙ get_elem?-append_old h.thunks (t ∷ []) i u at;
    grown = same_node refl;
  };
}

-- the thunk at `p` is written over
pub Stays-set :
    (n p : ℕ) (h h' : Heap) (t old : Thunk)
    → get_elem? h.thunks p ≡ some old
    → h'.thunks ≡ set h.thunks p t
    → (p < n → Grown old.node t.node)
    → Stays n h h'
Stays-set n p h h' t old at_old e grown = record {
  longer = omega (arith, ap length e ∙ length-set h.thunks p t);
  nodes = λ i u lt at. elim (Bool-cases (p == i)) [
    | inl eq ↦
        let here : p ≡ i = (==_iff p i).0 eq in
        let same_thunk : old ≡ u = cc in
        record {
          thunk = t;
          there =
              ap (λ ts. get_elem? ts i) e
              ∙ ap (get_elem? (set h.thunks p t)) (sym here)
              ∙ get_elem?-set h.thunks p t old at_old;
          grown = subst (λ x. Grown x.node t.node) same_thunk (grown (omega (arith, here, lt)));
        }
    | inr ne ↦ record {
      thunk = u;
      there =
          ap (λ ts. get_elem? ts i) e
          ∙ get_elem?-set_ne h.thunks p i t (λ eq. cc (ne, (==_iff p i).1 eq))
          ∙ at;
      grown = same_node refl;
    }
  ];
}

-- Where the first `n` thunks are there, the action leaves their nodes as they are or resolved.
pub record Keeps {A : Type 0} (n : ℕ) (m : M A) : Type 0 where
  pub at : (h : Heap) (a : A) (h' : Heap) → n ≤ length h.thunks → m h ≡ done a h' → Stays n h h'
